-- ===== src/Coroutine/Members.antt =====
-- What `Add` and `Remove` of src/colist.cpp do to the members of a list.
use mark.Prelude.{
  ℕ, ◌≡◌, ◌≢◌, refl, ◌∙◌, inl, inr, true, false, not, ◌&&◌, ◌||◌, List, [], ◌∷◌, arith, ◌==◌,
  Bool-cases,
}
use mark.ThreadList.Ring.{push_back, pivot_forward, remove_node, contains, nonempty}
use mark.LinkedList.Chains.{Distinct, contains-append}
use mark.LinkedList.Relinks.{apart}
use mark.LinkedList.Distincts.{Distinct-join}

abbrev pub added : List ℕ → ℕ → List ℕ
added xs c = pivot_forward (push_back xs c)

pub contains-added : (xs : List ℕ) (c z : ℕ) → contains (added xs c) z ≡ (c == z || contains xs z)
contains-added [] c z = ground arith
contains-added (x ∷ xs) c z =
    contains-append (push_back xs c) (x ∷ []) z ∙ ground (arith, contains-append xs (c ∷ []) z)

pub nonempty-contains : (xs : List ℕ) (c : ℕ) → contains xs c ≡ true → nonempty xs ≡ true
nonempty-contains [] c h = absurd (ground (arith, h))
nonempty-contains (x ∷ xs) c h = refl

pub nonempty-added : (xs : List ℕ) (c : ℕ) → nonempty (added xs c) ≡ true
nonempty-added [] c = refl
nonempty-added (x ∷ []) c = refl
nonempty-added (x ∷ y ∷ xs) c = refl

none_but : (c z : ℕ) → c ≢ z → contains (c ∷ []) z ≡ false
none_but c z ne = ground (arith, ne)

pub Distinct-added :
    (xs : List ℕ) (c : ℕ) → Distinct xs → contains xs c ≡ false → Distinct (added xs c)
Distinct-added [] c d out = (refl, tt)
Distinct-added (x ∷ xs) c (first, d) out =
    let not_later : contains xs c ≡ false = ground (arith, out) in
    let not_first : contains (push_back xs c) x ≡ false =
      contains-append xs (c ∷ []) x ∙ ground (arith, first, out) in
    Distinct-join (push_back xs c) (x ∷ [])
      (Distinct-join xs (c ∷ []) d (refl, tt) (λ z h. none_but c z (apart xs c z not_later h)))
      (refl, tt) (λ z h. none_but x z (apart (push_back xs c) x z not_first h))

pub contains-remove :
    (xs : List ℕ) (c z : ℕ)
    → Distinct xs
    → contains (remove_node xs c) z ≡ (not (c == z) && contains xs z)
contains-remove [] c z d = ground arith
contains-remove (x ∷ xs) c z (first, d) = ground (arith, contains-remove xs c z d, first)

pub Distinct-remove : (xs : List ℕ) (c : ℕ) → Distinct xs → Distinct (remove_node xs c)
Distinct-remove [] c d = d
Distinct-remove (x ∷ xs) c (first, d) = elim (Bool-cases (x == c)) [
  | inl here ↦ rw here d
  | inr other ↦ rw other (contains-remove xs c x d ∙ ground (arith, first), Distinct-remove xs c d)
]
