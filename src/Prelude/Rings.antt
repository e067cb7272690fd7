-- ===== src/Prelude/Rings.antt =====
-- Places in a ring, and the lists that stand in one.
use Prim.Native.Nat.{ℕ, zero, suc, ◌+◌, ◌-◌, ◌<◌}
use mathlib.Core.Path.{◌≡◌, refl, ap, ◌∙◌}
use mathlib.Core.List.{List, [], ◌∷◌, ◌++◌}
use native.Mathlib.Omega.{arith}
use mark.Prelude.Tests.{ltb, if◌then◌else◌}

-- The slot that is `i` steps after `from` in a ring of `count` slots.
abbrev pub place : ℕ → ℕ → ℕ → ℕ
place count from i = if ltb (from + i) count then from + i else from + i - count

module _ {ℓ} {A : Type ℓ} where
  unfoldable pub tabulate : ℕ → (ℕ → A) → List A
  tabulate zero f = []
  tabulate (suc n) f = f 0 ∷ tabulate n (λ i. f (suc i))

  pub tabulate-same :
      (n : ℕ) (f g : ℕ → A) → ((i : ℕ) → i < n → f i ≡ g i) → tabulate n f ≡ tabulate n g
  unfolding tabulate
  tabulate-same zero f g e = refl
  tabulate-same (suc n) f g e =
      rw
        (
          e 0 (omega arith),
          tabulate-same n (λ i. f (suc i)) (λ i. g (suc i)) (λ i h. e (suc i) (omega arith)),
        )
        refl

  pub tabulate-last : (n : ℕ) (f : ℕ → A) → tabulate (suc n) f ≡ tabulate n f ++ (f n ∷ [])
  unfolding tabulate
  tabulate-last zero f = refl
  tabulate-last (suc n) f = ap (λ xs. f 0 ∷ xs) (tabulate-last n (λ i. f (suc i)))

  pub tabulate-append :
      (n k : ℕ) (f : ℕ → A) → tabulate (n + k) f ≡ tabulate n f ++ tabulate k (λ i. f (n + i))
  unfolding tabulate
  tabulate-append zero k f =
      ap (λ i. tabulate i f) (omega arith)
      ∙ tabulate-same k f (λ i. f (0 + i)) (λ i h. ap f (omega arith))
  tabulate-append (suc n) k f =
      let longer : suc n + k ≡ suc (n + k) = omega arith in
      rw longer (
        ap (λ xs. f 0 ∷ xs)
          (tabulate-append n k (λ i. f (suc i))
            ∙ ap (λ xs. tabulate n (λ i. f (suc i)) ++ xs)
                (tabulate-same k (λ i. f (suc (n + i))) (λ i. f (suc n + i))
                  (λ i h. ap f (omega arith)))))
