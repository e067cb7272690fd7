-- ===== src/Prelude/Stores.antt =====
-- A store is a function from addresses, changed at one address at a time.
use Prim.Native.Nat.{ℕ}
use mathlib.Core.Path.{◌≡◌, refl, ◌∙◌, ap, fun_ext}
use mathlib.Core.Logic.{inl, inr}
use mathlib.Core.Bool.{Bool, true, false}
use native.Mathlib.Omega.{arith}
use mark.Prelude.Tests.{◌==◌, if◌then◌else◌, Bool-cases, ==_self}

abbrev pub update {ℓ} : {A : Type ℓ} → (ℕ → A) → ℕ → A → ℕ → A
update f i v j = if j == i then v else f j

module _ {ℓ} {A : Type ℓ} where
  pub if_true : {b : Bool} (x y : A) → b ≡ true → (if b then x else y) ≡ x
  if_true x y e = rw e refl

  pub if_false : {b : Bool} (x y : A) → b ≡ false → (if b then x else y) ≡ y
  if_false x y e = rw e refl

  pub update-own : (f : ℕ → A) (i : ℕ) (v : A) → update f i v i ≡ v
  update-own f i v = rw (==_self i) refl

  -- A change that a second one undoes.
  pub undone :
      (f g : ℕ → A) (i : ℕ) (v : A) (op : A → A)
      → ((j : ℕ) → g j ≡ update f i v j)
      → op v ≡ f i
      → (j : ℕ) → update g i (op (g i)) j ≡ f j
  undone f g i v op changed back j = elim (Bool-cases (j == i)) [
    | inl here ↦
        let same : j ≡ i = ground arith in
        rw same (update-own g i (op (g i)) ∙ ap op (changed i ∙ update-own f i v) ∙ back)
    | inr there ↦ if_false _ _ there ∙ changed j ∙ if_false _ _ there
  ]

  pub update_back : (f : ℕ → A) (i : ℕ) (v : A) (j : ℕ) → update (update f i v) i (f i) j ≡ f j
  update_back f i v j = undone f (update f i v) i v (λ x. f i) (λ j. refl) refl j

  pub update_twice : (f : ℕ → A) (i : ℕ) (v w : A) → update (update f i v) i w ≡ update f i w
  update_twice f i v w = fun_ext (λ j. ground arith)
