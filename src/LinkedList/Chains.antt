-- ===== src/LinkedList/Chains.antt =====
-- When the pointers of src/ll.cpp stand for a list of nodes.
use mark.Prelude.{
  ℕ, ◌≡◌, refl, sym, subst, ap, ◌∙◌, true, false, Option, none, some, List, [], ◌∷◌, ◌++◌, arith,
  if◌then◌else◌,
}
use mark.ThreadList.Ring.{head?, last?, contains}
use mark.LinkedList.{Links}

-- The first of two pointers that is not null.
abbrev pub or_else : Option ℕ → Option ℕ → Option ℕ
or_else none q = q
or_else (some a) q = some a

-- The nodes `xs` are linked in both directions, behind `p` and before `q`.
abbrev pub Chain : (ℕ → Option ℕ) → (ℕ → Option ℕ) → Option ℕ → List ℕ → Option ℕ → Type 0
Chain next prev p [] q = Unit
Chain next prev p (x ∷ xs) q =
    (prev x ≡ p) × (next x ≡ or_else (head? xs) q) × Chain next prev (some x) xs q

-- No node stands twice.
abbrev pub Distinct : List ℕ → Type 0
Distinct [] = Unit
Distinct (x ∷ xs) = (contains xs x ≡ false) × Distinct xs

-- A `DoubleLinkList` and a `CircularLinkList` of the nodes `xs`.
pub record IsLine (l : Links) (xs : List ℕ) : Type 0 where
  pub at_head : l.head ≡ head? xs
  pub at_tail : l.tail ≡ last? xs
  pub chain : Chain l.next l.prev none xs none

pub record IsCircle (l : Links) (xs : List ℕ) : Type 0 where
  pub at_head : l.head ≡ head? xs
  pub at_tail : l.tail ≡ last? xs
  pub chain : Chain l.next l.prev (last? xs) xs (head? xs)

pub or_else-none : (a : Option ℕ) → or_else a none ≡ a
or_else-none none = refl
or_else-none (some a) = refl

pub or_else_assoc : (a b c : Option ℕ) → or_else (or_else a b) c ≡ or_else a (or_else b c)
or_else_assoc none b c = refl
or_else_assoc (some a) b c = refl

some_first : (a : Option ℕ) (y x : ℕ) → or_else (or_else a (some y)) (some x) ≡ or_else a (some y)
some_first none y x = refl
some_first (some a) y x = refl

pub head-append : (xs ys : List ℕ) → head? (xs ++ ys) ≡ or_else (head? xs) (head? ys)
head-append [] ys = refl
head-append (x ∷ xs) ys = refl

pub last-cons : (x : ℕ) (xs : List ℕ) → last? (x ∷ xs) ≡ or_else (last? xs) (some x)
last-cons x [] = refl
last-cons x (y ∷ xs) =
    last-cons y xs
    ∙ sym (some_first (last? xs) y x)
    ∙ ap (λ o. or_else o (some x)) (sym (last-cons y xs))

pub last-append : (xs ys : List ℕ) → last? (xs ++ ys) ≡ or_else (last? ys) (last? xs)
last-append [] ys = sym (or_else-none (last? ys))
last-append (x ∷ xs) ys =
    last-cons x (xs ++ ys)
    ∙ ap (λ o. or_else o (some x)) (last-append xs ys)
    ∙ or_else_assoc (last? ys) (last? xs) (some x)
    ∙ ap (or_else (last? ys)) (sym (last-cons x xs))

pub contains-append :
    (xs ys : List ℕ) (n : ℕ)
    → contains (xs ++ ys) n ≡ (if contains xs n then true else contains ys n)
contains-append [] ys n = refl
contains-append (x ∷ xs) ys n = ground (arith, contains-append xs ys n)

-- A chain falls into the chains of its parts, and is made of them.
module _ (next prev : ℕ → Option ℕ) where
  behind :
      (p : Option ℕ) (x : ℕ) (xs : List ℕ)
      → or_else (last? xs) (some x) ≡ or_else (last? (x ∷ xs)) p
  behind p x xs = first_some (last? xs) ∙ ap (λ o. or_else o p) (sym (last-cons x xs))
    where
      first_some : (a : Option ℕ) → or_else a (some x) ≡ or_else (or_else a (some x)) p
      first_some none = refl
      first_some (some a) = refl

  before :
      (q : Option ℕ) (xs ys : List ℕ)
      → or_else (head? (xs ++ ys)) q ≡ or_else (head? xs) (or_else (head? ys) q)
  before q xs ys = ap (λ o. or_else o q) (head-append xs ys) ∙ or_else_assoc (head? xs) (head? ys) q

  pub Chain-split :
      (p q : Option ℕ) (xs ys : List ℕ)
      → Chain next prev p (xs ++ ys) q
      → Chain next prev p xs (or_else (head? ys) q) × Chain next prev (or_else (last? xs) p) ys q
  Chain-split p q [] ys c = (tt, c)
  Chain-split p q (x ∷ xs) ys (back, forth, c) =
      let (cx, cy) = Chain-split (some x) q xs ys c in
      ((back, forth ∙ before q xs ys, cx), subst (λ o. Chain next prev o ys q) (behind p x xs) cy)

  pub Chain-join :
      (p q : Option ℕ) (xs ys : List ℕ)
      → Chain next prev p xs (or_else (head? ys) q)
      → Chain next prev (or_else (last? xs) p) ys q
      → Chain next prev p (xs ++ ys) q
  Chain-join p q [] ys cx cy = cy
  Chain-join p q (x ∷ xs) ys (back, forth, cx) cy = (
    back,
    forth ∙ sym (before q xs ys),
    Chain-join (some x) q xs ys cx (subst (λ o. Chain next prev o ys q) (sym (behind p x xs)) cy),
  )
