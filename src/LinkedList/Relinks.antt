-- ===== src/LinkedList/Relinks.antt =====
-- What becomes of a chain of src/ll.cpp when pointers change.
use mark.Prelude.{
  ℕ, ◌≡◌, ◌≢◌, refl, sym, ap, ◌∙◌, true, false, Option, some, List, [], ◌∷◌, arith, ◌==◌,
}
use mark.ThreadList.Ring.{head?, last?, contains}
use mark.LinkedList.Chains.{Chain, Distinct}

pub contains-head : (x : ℕ) (xs : List ℕ) → contains (x ∷ xs) x ≡ true
contains-head x xs = ground arith

pub contains-tail : (x z : ℕ) (xs : List ℕ) → contains xs z ≡ true → contains (x ∷ xs) z ≡ true
contains-tail x z xs h = ground (arith, h)

-- The last node is one of them.
pub last-in : (xs : List ℕ) (z : ℕ) → last? xs ≡ some z → contains xs z ≡ true
last-in [] z e = absurd (ground (arith, e))
last-in (x ∷ []) z e = ground (arith, e)
last-in (x ∷ y ∷ xs) z e = ground (arith, last-in (y ∷ xs) z e)

pub last-some : (x : ℕ) (xs : List ℕ) → (t : ℕ) × (last? (x ∷ xs) ≡ some t)
last-some x [] = (x, refl)
last-some x (y ∷ xs) = last-some y xs

pub same_test : {a b : ℕ} → some a ≡ some b → (b == a) ≡ true
same_test e = ground (arith, e)

pub other_test : {a b : ℕ} → a ≢ b → (b == a) ≡ false
other_test ne = ground (arith, ne)

pub some-ne : {a b : ℕ} {o : Option ℕ} → o ≡ some a → o ≢ some b → a ≢ b
some-ne e ne = λ same. ne (e ∙ ap some same)

-- A node that is not among others is none of them.
pub apart : (xs : List ℕ) (x z : ℕ) → contains xs x ≡ false → contains xs z ≡ true → x ≢ z
apart xs x z out h = λ e. absurd (ground (arith, ap (contains xs) e, out, h))

module _ (next prev next' prev' : ℕ → Option ℕ) where
  -- The `prev` pointers of the nodes are as they were, but that of the head, which is `p`.
  abbrev pub PrevMoved : Option ℕ → List ℕ → Type 0
  PrevMoved p xs =
      (z : ℕ)
      → contains xs z ≡ true
      → (head? xs ≡ some z → prev' z ≡ p) × (head? xs ≢ some z → prev' z ≡ prev z)

  abbrev pub NextMoved : Option ℕ → List ℕ → Type 0
  NextMoved q xs =
      (z : ℕ)
      → contains xs z ≡ true
      → (last? xs ≡ some z → next' z ≡ q) × (last? xs ≢ some z → next' z ≡ next z)

  -- A chain whose ends are linked to other nodes.
  pub Chain-move :
      (p q p' q' : Option ℕ) (xs : List ℕ)
      → Chain next prev p xs q
      → Distinct xs
      → PrevMoved p' xs
      → NextMoved q' xs
      → Chain next' prev' p' xs q'
  Chain-move p q p' q' [] c d b f = tt
  Chain-move p q p' q' (x ∷ []) (back, forth, c) d b f =
      let here = contains-head x [] in ((b x here).0 refl, (f x here).0 refl, tt)
  Chain-move p q p' q' (x ∷ y ∷ xs) (back, forth, c) (out, d) b f =
      let here = contains-head x (y ∷ xs) in
      let not_last : last? (y ∷ xs) ≢ some x =
        λ e. apart (y ∷ xs) x x out (last-in (y ∷ xs) x e) refl in
      (
        (b x here).0 refl,
        (f x here).1 not_last ∙ forth,
        Chain-move (some x) q (some x) q' (y ∷ xs) c d
            (λ z h.
              let same : prev' z ≡ prev z =
                (b z (contains-tail x z (y ∷ xs) h)).1
                  (λ e. apart (y ∷ xs) x z out h (ground (arith, e))) in
              (λ e. same ∙ ap prev (sym (first_is e)) ∙ c.0, λ _. same))
            (λ z h. f z (contains-tail x z (y ∷ xs) h)),
      )
    where
      first_is : {z : ℕ} → some y ≡ some z → y ≡ z
      first_is e = ground (arith, e)
