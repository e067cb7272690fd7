-- ===== src/LinkedList/Distincts.antt =====
-- Lists in which no node stands twice, cut and joined.
use mark.Prelude.{
  ℕ, ◌≡◌, sym, ap, ◌∙◌, inl, inr, true, false, List, [], ◌∷◌, ◌++◌, arith, ◌==◌, Bool-cases,
}
use mark.ThreadList.Ring.{contains, remove_node}
use mark.LinkedList.Chains.{Distinct, contains-append}
use mark.LinkedList.Relinks.{contains-head, contains-tail}

pub Distinct-split :
    (xs ys : List ℕ)
    → Distinct (xs ++ ys)
    → Distinct xs × Distinct ys × ((z : ℕ) → contains xs z ≡ true → contains ys z ≡ false)
Distinct-split [] ys d = (tt, d, λ z h. absurd (ground (arith, h)))
Distinct-split (x ∷ xs) ys (out, d) =
    let (dx, dy, apart) = Distinct-split xs ys d in
    let both = contains-append xs ys x in
    (
      (ground (arith, out, both), dx),
      dy,
      λ z h. elim (Bool-cases (x == z)) [
        | inl same ↦
            let here : x ≡ z = ground arith in
            sym (ap (contains ys) here) ∙ ground (arith, out, both)
        | inr other ↦ apart z (ground (arith, h, other))
      ],
    )

pub Distinct-join :
    (xs ys : List ℕ)
    → Distinct xs
    → Distinct ys
    → ((z : ℕ) → contains xs z ≡ true → contains ys z ≡ false)
    → Distinct (xs ++ ys)
Distinct-join [] ys dx dy apart = dy
Distinct-join (x ∷ xs) ys (out, dx) dy apart = (
  contains-append xs ys x ∙ ground (arith, out, apart x (contains-head x xs)),
  Distinct-join xs ys dx dy (λ z h. apart z (contains-tail x z xs h)),
)

-- The nodes around one that is taken out, seen from behind it.
pub Distinct-around :
    (ys zs : List ℕ) (n : ℕ)
    → Distinct (ys ++ (n ∷ zs))
    → Distinct (zs ++ ys) × (contains (zs ++ ys) n ≡ false)
Distinct-around ys zs n d =
    let (dy, (out, dz), apart) = Distinct-split ys (n ∷ zs) d in
    let not_before : contains ys n ≡ false = elim (Bool-cases (contains ys n)) [
      | inl h ↦ absurd (ground (arith, apart n h, contains-head n zs))
      | inr e ↦ e
    ] in
    (
      Distinct-join zs ys dz dy (λ z h. elim (Bool-cases (contains ys z)) [
        | inl k ↦ absurd (ground (arith, apart z k, contains-tail n z zs h))
        | inr e ↦ e
      ]),
      contains-append zs ys n ∙ ground (arith, out, not_before),
    )

-- A list falls apart at a node of it, where `remove_node` takes the node out.
pub split_at :
    (xs : List ℕ) (n : ℕ)
    → contains xs n ≡ true
    → (ys : List ℕ) × (zs : List ℕ) × (xs ≡ ys ++ (n ∷ zs)) × (remove_node xs n ≡ ys ++ zs)
split_at [] n h = absurd (ground (arith, h))
split_at (x ∷ xs) n h = elim (Bool-cases (x == n)) [
  | inl here ↦
      let same : x ≡ n = ground arith in ([], xs, ap (λ a. a ∷ xs) same, ground (arith, here))
  | inr other ↦
      let (ys, zs, e, r) = split_at xs n (ground (arith, h, other)) in
      (x ∷ ys, zs, ap (λ l. x ∷ l) e, ground (arith, other, r))
]
