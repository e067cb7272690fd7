-- ===== src/LinkedList/Pivots.antt =====
-- What `PivotForward` and `PivotBackward` of src/ll.cpp do to the list that the pointers stand for.
use mark.Prelude.{ℕ, ◌≡◌, refl, sym, subst, ap, ◌∙◌, Option, none, some, List, [], ◌∷◌, ◌++◌, arith}
use mark.ThreadList.Ring.{head?, last?, push_back, pivot_forward}
use mark.LinkedList.{Links}
use mark.LinkedList.Chains.{
  or_else, Chain, IsCircle, last-append, head-append, Chain-split, Chain-join,
}
use mark.LinkedList.Relinks.{last-some}
use mark.LinkedList.Circular

turn : (a b : Option ℕ) → or_else a (or_else b a) ≡ or_else a b
turn none none = refl
turn none (some b) = refl
turn (some a) b = refl

head_turn : (xs ys : List ℕ) → or_else (head? xs) (head? (ys ++ xs)) ≡ head? (xs ++ ys)
head_turn xs ys =
    ap (or_else (head? xs)) (head-append ys xs)
    ∙ turn (head? xs) (head? ys)
    ∙ sym (head-append xs ys)

last_turn : (xs ys : List ℕ) → or_else (last? xs) (last? (xs ++ ys)) ≡ last? (ys ++ xs)
last_turn xs ys =
    ap (or_else (last? xs)) (last-append xs ys)
    ∙ turn (last? xs) (last? ys)
    ∙ sym (last-append ys xs)

-- Behind the last node comes the end, and a ring may be cut anywhere.
module _ (next prev : ℕ → Option ℕ) where
  pub next-last :
      (p q : Option ℕ) (xs : List ℕ) (t : ℕ)
      → Chain next prev p xs q
      → last? xs ≡ some t
      → next t ≡ q
  next-last p q [] t c e = absurd (ground (arith, e))
  next-last p q (x ∷ []) t c e = let same : x ≡ t = ground (arith, e) in ap next (sym same) ∙ c.1
  next-last p q (x ∷ y ∷ xs) t c e = next-last (some x) q (y ∷ xs) t c.2 e

  pub prev-first :
      (p q : Option ℕ) (xs : List ℕ) (h : ℕ)
      → Chain next prev p xs q
      → head? xs ≡ some h
      → prev h ≡ p
  prev-first p q [] h c e = absurd (ground (arith, e))
  prev-first p q (x ∷ xs) h c e = let same : x ≡ h = ground (arith, e) in ap prev (sym same) ∙ c.0

  pub rotate-Chain :
      (xs ys : List ℕ)
      → Chain next prev (last? (xs ++ ys)) (xs ++ ys) (head? (xs ++ ys))
      → Chain next prev (last? (ys ++ xs)) (ys ++ xs) (head? (ys ++ xs))
  rotate-Chain xs ys c =
      let (cx, cy) = Chain-split next prev (last? (xs ++ ys)) (head? (xs ++ ys)) xs ys c in
      Chain-join next prev (last? (ys ++ xs)) (head? (ys ++ xs)) ys xs
        (subst (λ q. Chain next prev (last? (ys ++ xs)) ys q) (sym (head_turn xs ys))
          (subst (λ p. Chain next prev p ys (head? (xs ++ ys))) (last_turn xs ys) cy))
        (subst (λ p. Chain next prev p xs (head? (ys ++ xs))) (sym (last_turn ys xs))
          (subst (λ q. Chain next prev (last? (xs ++ ys)) xs q) (head_turn ys xs) cx))

head-some : (xs : List ℕ) (t : ℕ) → (h : ℕ) × (head? (push_back xs t) ≡ some h)
head-some [] t = (t, refl)
head-some (x ∷ xs) t = (x, refl)

-- `PivotForward` moves the head behind the others.
pub pivot_forward-rotates :
    (l : Links) (xs : List ℕ)
    → IsCircle l xs
    → IsCircle (Circular.pivot_forward l) (pivot_forward xs)
unfolding Circular.pivot_forward
pivot_forward-rotates l [] c =
    let stays : Circular.pivot_forward l ≡ l = rw c.at_head refl in
    subst (λ l'. IsCircle l' []) (sym stays) c
pivot_forward-rotates l (x ∷ xs) c =
    let (t, et) = last-some x xs in
    let (_, forth, _) = c.chain in
    let result : Circular.pivot_forward l ≡ record l { head = l.next x; tail = l.next t } =
      rw (c.at_head, c.at_tail, et) refl in
    rw result (record {
      at_head = forth ∙ sym (head-append xs (x ∷ []));
      at_tail =
          next-last l.next l.prev (last? (x ∷ xs)) (some x) (x ∷ xs) t c.chain et
          ∙ sym (last-append xs (x ∷ []));
      chain = rotate-Chain l.next l.prev (x ∷ []) xs c.chain;
    })

-- `PivotBackward` moves the tail before the others.
pub pivot_backward-rotates :
    (l : Links) (xs : List ℕ) (t : ℕ)
    → IsCircle l (push_back xs t)
    → IsCircle (Circular.pivot_backward l) (t ∷ xs)
unfolding Circular.pivot_backward
pivot_backward-rotates l xs t c =
    let (h, eh) = head-some xs t in
    let last_t : last? (push_back xs t) ≡ some t = last-append xs (t ∷ []) in
    let result : Circular.pivot_backward l ≡ record l { head = l.prev h; tail = l.prev t } =
      rw (c.at_head, eh, c.at_tail, last_t) refl in
    let (_, before_t) =
      Chain-split l.next l.prev (last? (push_back xs t)) (head? (push_back xs t)) xs (t ∷ [])
        c.chain in
    rw result (record {
      at_head =
          prev-first l.next l.prev _ (head? (push_back xs t)) (push_back xs t) h c.chain eh
          ∙ last_t;
      at_tail = before_t.0 ∙ last_turn xs (t ∷ []);
      chain = rotate-Chain l.next l.prev xs (t ∷ []) c.chain;
    })
