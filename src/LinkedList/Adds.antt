-- ===== src/LinkedList/Adds.antt =====
-- What `Add`, `PivotForward` and `PivotBackward` of src/ll.cpp do to the list that the pointers
-- stand for.
use mark.Prelude.{
  ℕ, ◌≡◌, ◌≢◌, refl, sym, subst, ap, ◌∙◌, true, false, none, some, List, [], ◌∷◌, update, if_true,
  if_false, update-own,
}
use mark.ThreadList.Ring.{last?, contains, push_back}
use mark.LinkedList.{Links}
use mark.LinkedList.Chains.{or_else, Chain, Distinct, IsCircle, last-append, Chain-join}
use mark.LinkedList.Relinks.{
  contains-head, last-some, apart, Chain-move, same_test, other_test, some-ne,
}
use mark.LinkedList.Circular

-- Nothing went wrong on the way from `l` to `l'`.
abbrev pub Calm : Links → Links → Type 0
Calm l l' = (l'.panicked ≡ l.panicked) × (l'.fault ≡ l.fault)

module _ (n : ℕ) (l : Links) where
  abbrev first_node : Links
  first_node = record l {
    head = some n;
    tail = some n;
    next = update l.next n (some n);
    prev = update (update l.prev n (some n)) n (some n);
  }

  add-empty : l.head ≡ none → Circular.add n l ≡ first_node
  unfolding Circular.add
  add-empty e = rw e refl

  abbrev one_more : ℕ → ℕ → Links
  one_more x t = record l {
    tail = some n;
    next = update (update l.next t (some n)) n l.head;
    prev = update (update l.prev n (some t)) x (some n);
  }

  add-more : (x t : ℕ) → l.head ≡ some x → l.tail ≡ some t → Circular.add n l ≡ one_more x t
  unfolding Circular.add
  add-more x t eh et = rw (eh, et, eh) refl

  one_more-Chain :
      (x t : ℕ) (xs : List ℕ)
      → Chain l.next l.prev (some t) (x ∷ xs) (some x)
      → l.head ≡ some x
      → last? (x ∷ xs) ≡ some t
      → Distinct (x ∷ xs)
      → contains (x ∷ xs) n ≡ false
      → Chain (one_more x t).next (one_more x t).prev (some n) (push_back (x ∷ xs) n) (some x)
  one_more-Chain x t xs c eh et d out =
      let l' = one_more x t in
      let other : (z : ℕ) → contains (x ∷ xs) z ≡ true → n ≢ z = λ z h. apart (x ∷ xs) n z out h in
      Chain-join l'.next l'.prev (some n) (some x) (x ∷ xs) (n ∷ [])
        (Chain-move l.next l.prev l'.next l'.prev (some t) (some x) (some n) (some n) (x ∷ xs) c d
          (λ z h. (
            λ e. if_true _ _ (same_test e),
            λ e. if_false _ _ (other_test (some-ne refl e)) ∙ if_false _ _ (other_test (other z h)),
          ))
          (λ z h. (
            λ e. if_false _ _ (other_test (other z h)) ∙ if_true _ _ (same_test (sym et ∙ e)),
            λ e. if_false _ _ (other_test (other z h)) ∙ if_false _ _ (other_test (some-ne et e)),
          )))
        (
          if_false _ _ (other_test (λ e. other x (contains-head x xs) (sym e)))
              ∙ update-own l.prev n (some t)
              ∙ ap (λ o. or_else o (some n)) (sym et),
          update-own (update l.next t (some n)) n l.head ∙ eh,
          tt,
        )

-- `CircularLinkList::Add` of a node that is not in the ring leaves the pointers of the ring with
-- that node behind the others, where no node of the ring stands twice; it writes through no null
-- pointer.
pub add-push_back :
    (n : ℕ) (l : Links) (xs : List ℕ)
    → IsCircle l xs
    → Distinct xs
    → contains xs n ≡ false
    → IsCircle (Circular.add n l) (push_back xs n) × Calm l (Circular.add n l)
add-push_back n l [] c d out = rw (add-empty n l c.at_head) (
  record {
    at_head = refl;
    at_tail = refl;
    chain = (update-own (update l.prev n (some n)) n (some n), update-own l.next n (some n), tt);
  },
  (refl, refl),
)
add-push_back n l (x ∷ xs) c d out =
    let (t, et) = last-some x xs in
    let last_n : last? (push_back (x ∷ xs) n) ≡ some n = last-append (x ∷ xs) (n ∷ []) in
    let chain = subst (λ p. Chain l.next l.prev p (x ∷ xs) (some x)) et c.chain in
    rw (add-more n l x t c.at_head (c.at_tail ∙ et)) (
      record {
        at_head = c.at_head;
        at_tail = sym last_n;
        chain =
            subst
              (λ p.
                Chain (one_more n l x t).next (one_more n l x t).prev p (push_back (x ∷ xs) n)
                  (some x))
              (sym last_n) (one_more-Chain n l x t xs chain c.at_head et d out);
      },
      (refl, refl),
    )
