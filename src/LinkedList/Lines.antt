-- ===== src/LinkedList/Lines.antt =====
-- What `DoubleLinkList::Add` of src/ll.cpp, and `DoubleLinkList::Remove` of the head, do to the list
-- that the pointers stand for: so a queue of messages grows and is taken from.
use mark.Prelude.{
  ℕ, ◌≡◌, ◌≢◌, refl, sym, ap, ◌∙◌, true, false, none, some, List, [], ◌∷◌, arith, update, opt_eq,
  if_true, if_false, update-own, if◌then◌else◌,
}
use mark.ThreadList.Ring.{last?, contains, push_back}
use mark.LinkedList.{Links, clear_node}
use mark.LinkedList.Chains.{or_else, or_else-none, Chain, Distinct, IsLine, last-append, Chain-join}
use mark.LinkedList.Relinks.{last-in, last-some, apart, Chain-move, same_test, other_test, some-ne}
use mark.LinkedList.Adds.{Calm}
use mark.LinkedList.Pivots.{next-last}
use mark.LinkedList.Double

module _ (n : ℕ) (l : Links) where
  abbrev lone_node : Links
  lone_node = record l {
    head = some n;
    tail = some n;
    next = update l.next n none;
    prev = update l.prev n l.tail;
  }

  add-lone_node : l.head ≡ none → Double.add n l ≡ lone_node
  unfolding Double.add
  add-lone_node e = rw e refl

  abbrev behind : ℕ → Links
  behind t = record l {
    tail = some n;
    next = update (update l.next n none) t (some n);
    prev = update l.prev n (some t);
  }

  add-behind : (x t : ℕ) → l.head ≡ some x → l.tail ≡ some t → Double.add n l ≡ behind t
  unfolding Double.add
  add-behind x t eh et = rw (eh, et, eh) refl

  behind-Chain :
      (t x : ℕ) (xs : List ℕ)
      → Chain l.next l.prev none (x ∷ xs) none
      → last? (x ∷ xs) ≡ some t
      → Distinct (x ∷ xs)
      → contains (x ∷ xs) n ≡ false
      → Chain (behind t).next (behind t).prev none (push_back (x ∷ xs) n) none
  behind-Chain t x xs c et d out =
      let l' = behind t in
      let other : (z : ℕ) → contains (x ∷ xs) z ≡ true → n ≢ z = λ z h. apart (x ∷ xs) n z out h in
      let kept : (z : ℕ) → contains (x ∷ xs) z ≡ true → l'.prev z ≡ l.prev z =
        λ z h. if_false _ _ (other_test (other z h)) in
      Chain-join l'.next l'.prev none none (x ∷ xs) (n ∷ [])
        (Chain-move l.next l.prev l'.next l'.prev none none none (some n) (x ∷ xs) c d
          (λ z h. (λ e. kept z h ∙ ap l.prev (sym (first_is e)) ∙ c.0, λ e. kept z h))
          (λ z h. (
            λ e. if_true _ _ (same_test (sym et ∙ e)),
            λ e. if_false _ _ (other_test (some-ne et e)) ∙ if_false _ _ (other_test (other z h)),
          )))
        (
          update-own l.prev n (some t)
              ∙ sym (or_else-none (some t))
              ∙ ap (λ o. or_else o none) (sym et),
          if_false _ _ (other_test (λ e. other t (last-in (x ∷ xs) t et) (sym e)))
              ∙ update-own l.next n none,
          tt,
        )
    where
      first_is : {z : ℕ} → some x ≡ some z → x ≡ z
      first_is e = ground (arith, e)

-- `DoubleLinkList::Add` of a node that is not in the list leaves the pointers of the list with that
-- node behind the others.
pub add-IsLine :
    (n : ℕ) (l : Links) (xs : List ℕ)
    → IsLine l xs
    → Distinct xs
    → contains xs n ≡ false
    → IsLine (Double.add n l) (push_back xs n) × Calm l (Double.add n l)
add-IsLine n l [] c d out = rw (add-lone_node n l c.at_head) (
  record {
    at_head = refl;
    at_tail = refl;
    chain = (update-own l.prev n l.tail ∙ c.at_tail, update-own l.next n none, tt);
  },
  (refl, refl),
)
add-IsLine n l (x ∷ xs) c d out =
    let (t, et) = last-some x xs in
    rw (add-behind n l x t c.at_head (c.at_tail ∙ et)) (
      record {
        at_head = c.at_head;
        at_tail = sym (last-append (x ∷ xs) (n ∷ []));
        chain = behind-Chain n l t x xs c.chain et d out;
      },
      (refl, refl),
    )

module _ (n : ℕ) (l : Links) where
  abbrev emptied : Links
  emptied = record l {
    head = none;
    tail = none;
    next = update l.next n none;
    prev = update l.prev n none;
  }

  -- The steps of a removal of a node without one before it.
  unlink_prev-head : l.prev n ≡ none → Double.unlink_prev n l ≡ l
  unfolding Double.unlink_prev
  unlink_prev-head ep = rw (ep, Double.unlink_prev) refl

  unlink_next-alone : l.next n ≡ none → Double.unlink_next n l ≡ l
  unfolding Double.unlink_next
  unlink_next-alone en = rw (en, Double.unlink_next) refl

  unlink_next-head :
      (y : ℕ)
      → l.next n ≡ some y
      → l.prev y ≡ some n
      → l.prev n ≡ none
      → Double.unlink_next n l ≡ record l { prev = update l.prev y none }
  unfolding Double.unlink_next
  unlink_next-head y en py ep =
      let own : opt_eq (some n) (some n) ≡ true = ground arith in
      rw (en, Double.unlink_next) (rw (py, own, ep) refl)

  -- What is left after the neighbours are joined.
  abbrev finish : Links → Links
  finish joined = clear_node n (record joined {
    head = if opt_eq joined.head (some n) then joined.next n else joined.head;
    tail = if opt_eq joined.tail (some n) then joined.prev n else joined.tail;
  })

  remove-finish :
      (joined : Links)
      → l.prev n ≡ none
      → Double.unlink_next n l ≡ joined
      → Double.remove n l ≡ finish joined
  unfolding Double.remove
  remove-finish joined ep e =
      ap (λ l'. finish (Double.unlink_next n l')) (unlink_prev-head ep) ∙ ap finish e

  remove-emptied :
      l.head ≡ some n
      → l.tail ≡ some n
      → l.next n ≡ none
      → l.prev n ≡ none
      → Double.remove n l ≡ emptied
  unfolding clear_node
  remove-emptied eh et en ep =
      let own : opt_eq (some n) (some n) ≡ true = ground arith in
      remove-finish l ep (unlink_next-alone en) ∙ rw (eh, et, own, en, ep) refl

  abbrev beheaded : ℕ → Links
  beheaded y = record l {
    head = some y;
    next = update l.next n none;
    prev = update (update l.prev y none) n none;
  }

  remove-beheaded :
      (y t : ℕ)
      → l.head ≡ some n
      → l.tail ≡ some t
      → l.next n ≡ some y
      → l.prev n ≡ none
      → l.prev y ≡ some n
      → n ≢ t
      → Double.remove n l ≡ beheaded y
  unfolding clear_node
  remove-beheaded y t eh et en ep py ne =
      let own : opt_eq (some n) (some n) ≡ true = ground arith in
      let far : opt_eq (some t) (some n) ≡ false = ground (arith, ne) in
      remove-finish (record l { prev = update l.prev y none }) ep (unlink_next-head y en py ep)
      ∙ rw (eh, own, en, et, far) refl

-- `DoubleLinkList::Remove` of the head, where no node stands twice, leaves the pointers of the others;
-- it does not panic.
pub remove-IsLine :
    (n : ℕ) (l : Links) (xs : List ℕ)
    → IsLine l (n ∷ xs)
    → Distinct (n ∷ xs)
    → IsLine (Double.remove n l) xs × Calm l (Double.remove n l)
remove-IsLine n l [] c d =
    rw (remove-emptied n l c.at_head c.at_tail c.chain.1 c.chain.0)
      (record { at_head = refl; at_tail = refl; chain = tt }, (refl, refl))
remove-IsLine n l (y ∷ ys) c (out, d) =
    let (t, et) = last-some y ys in
    let (ep, en, rest) = c.chain in
    let py = rest.0 in
    let apart_n : (z : ℕ) → contains (y ∷ ys) z ≡ true → n ≢ z = λ z h. apart (y ∷ ys) n z out h in
    let e =
      remove-beheaded n l y t c.at_head (c.at_tail ∙ et) en ep py
        (apart_n t (last-in (y ∷ ys) t et)) in
    let l' = beheaded n l y in
    rw e (
      record {
        at_head = refl;
        at_tail = c.at_tail;
        chain =
            Chain-move l.next l.prev l'.next l'.prev (some n) none none none (y ∷ ys) rest d
              (λ z h. (
                λ e. if_false _ _ (other_test (apart_n z h)) ∙ if_true _ _ (same_test e),
                λ e.
                    if_false _ _ (other_test (apart_n z h))
                    ∙ if_false _ _ (other_test (some-ne refl e)),
              ))
              (λ z h. (
                λ e.
                    if_false _ _ (other_test (apart_n z h))
                    ∙ next-last l.next l.prev (some n) none (y ∷ ys) z rest e,
                λ e. if_false _ _ (other_test (apart_n z h)),
              ));
      },
      (refl, refl),
    )
