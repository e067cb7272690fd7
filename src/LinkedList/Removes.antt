-- ===== src/LinkedList/Removes.antt =====
-- What `CircularLinkList::Remove` of src/ll.cpp does to the list that the pointers stand for.
use mark.Prelude.{
  ℕ, ◌≡◌, ◌≢◌, refl, sym, subst, ap, ◌∙◌, true, false, ◌&&◌, Option, none, some, List, [], ◌∷◌,
  ◌++◌, arith, update, opt_eq, ◌==◌, if◌then◌else◌, if_true, if_false,
}
use mark.ThreadList.Ring.{head?, last?, contains, remove_node}
use mark.LinkedList.{Links, follow, clear_node}
use mark.LinkedList.Chains.{or_else, Chain, Distinct, IsCircle, last-append, contains-append}
use mark.LinkedList.Relinks.{
  contains-head, last-in, last-some, apart, Chain-move, same_test, other_test, some-ne,
}
use mark.LinkedList.Adds.{Calm}
use mark.LinkedList.Pivots.{next-last, prev-first, rotate-Chain}
use mark.LinkedList.Distincts.{Distinct-around, split_at}
use mark.LinkedList.Circular

-- The node `n` between its neighbours `a` and `b`.
module _ (n a b : ℕ) (l : Links) where
  abbrev joined : Links
  joined = record l { next = update l.next a (some b); prev = update l.prev b (some a) }

  abbrev unlinked : Links
  unlinked = record l {
    next = update joined.next n none;
    prev = update joined.prev n none;
    head = if opt_eq l.head (some n) then follow joined.next l.head else l.head;
    tail = if opt_eq l.tail (some n) then follow joined.prev l.tail else l.tail;
  }

  unlink-unlinked :
      l.prev n ≡ some a
      → l.next n ≡ some b
      → l.next a ≡ some n
      → l.prev b ≡ some n
      → n ≢ b
      → Circular.unlink n l ≡ unlinked
  unfolding Circular.unlink clear_node
  unlink-unlinked pn nn na pb apart_b =
      let own : opt_eq (some n) (some n) ≡ true = ground arith in
      let test : (n == b) ≡ false = other_test (λ e. apart_b (sym e)) in
      rw (nn, pn, na, pb, own, nn, test, nn, pn) refl

-- A node that is alone.
remove_only :
    (n : ℕ) (l : Links)
    → IsCircle l (n ∷ [])
    → Circular.remove n l ≡ record l { head = none; tail = none }
unfolding Circular.remove
remove_only n l c =
    let own : opt_eq (some n) (some n) ≡ true = ground arith in
    let alone : (opt_eq l.head (some n) && opt_eq l.head l.tail) ≡ true =
      rw (c.at_head, c.at_tail, own) refl in
    if_true _ _ alone

-- The ring of `n` and the others, seen from `n`.
module _ (n : ℕ) (l : Links) (w : ℕ) (ws : List ℕ) where
  module _ (c : Chain l.next l.prev (last? (n ∷ w ∷ ws)) (n ∷ w ∷ ws) (some n))
      (d : Distinct (w ∷ ws)) (out : contains (w ∷ ws) n ≡ false) where
    abbrev neighbour : ℕ
    neighbour = (last-some w ws).0

    neighbour_last : last? (w ∷ ws) ≡ some neighbour
    neighbour_last = (last-some w ws).1

    other : (z : ℕ) → contains (w ∷ ws) z ≡ true → n ≢ z
    other z h = apart (w ∷ ws) n z out h

    unlink_ring : Circular.unlink n l ≡ unlinked n neighbour w l
    unlink_ring =
        unlink-unlinked n neighbour w l (c.0 ∙ neighbour_last) c.1
          (next-last l.next l.prev (some n) (some n) (w ∷ ws) neighbour c.2 neighbour_last)
          (prev-first l.next l.prev (some n) (some n) (w ∷ ws) w c.2 refl)
          (other w (contains-head w ws))

    unlinked-Chain :
        Chain
          (unlinked n neighbour w l).next
          (unlinked n neighbour w l).prev
          (last? (w ∷ ws))
          (w ∷ ws)
          (some w)
    unlinked-Chain =
        let l' = unlinked n neighbour w l in
        Chain-move l.next l.prev l'.next l'.prev (some n) (some n) (last? (w ∷ ws)) (some w)
          (w ∷ ws) c.2 d
          (λ z h. (
            λ e.
                if_false _ _ (other_test (other z h))
                ∙ if_true _ _ (same_test e)
                ∙ sym neighbour_last,
            λ e. if_false _ _ (other_test (other z h)) ∙ if_false _ _ (other_test (some-ne refl e)),
          ))
          (λ z h. (
            λ e.
                if_false _ _ (other_test (other z h))
                ∙ if_true _ _ (same_test (sym neighbour_last ∙ e)),
            λ e.
                if_false _ _ (other_test (other z h))
                ∙ if_false _ _ (other_test (some-ne neighbour_last e)),
          ))

    -- What is left to show where `n` has been taken out of the ring.
    remove_ring :
        (xs : List ℕ)
        → (opt_eq l.head (some n) && opt_eq l.head l.tail) ≡ false
        → (unlinked n neighbour w l).head ≡ head? xs
        → (unlinked n neighbour w l).tail ≡ last? xs
        → Chain
            (unlinked n neighbour w l).next
            (unlinked n neighbour w l).prev
            (last? xs)
            xs
            (head? xs)
        → IsCircle (Circular.remove n l) xs × Calm l (Circular.remove n l)
    unfolding Circular.remove
    remove_ring xs more at_head at_tail chain =
        let result : Circular.remove n l ≡ unlinked n neighbour w l =
          if_false _ _ more ∙ unlink_ring in
        subst (λ l'. IsCircle l' xs × Calm l l') (sym result)
          (record { at_head = at_head; at_tail = at_tail; chain = chain }, (refl, refl))

    -- The pointers of `n` itself, which the joining of its neighbours leaves alone.
    own_next : update l.next neighbour (some w) n ≡ some w
    own_next =
        if_false _ _
          (other_test (λ e. other neighbour (last-in (w ∷ ws) neighbour neighbour_last) (sym e)))
        ∙ c.1

    own_prev : update l.prev w (some neighbour) n ≡ last? (w ∷ ws)
    own_prev = if_false _ _ (other_test (λ e. other w (contains-head w ws) (sym e))) ∙ c.0

    -- A list pointer that is not `n` stays; one that is moves on.
    moved :
        (o : Option ℕ) (link : ℕ → Option ℕ) (v : Option ℕ)
        → o ≡ some n
        → link n ≡ v
        → (if opt_eq o (some n) then follow link o else o) ≡ v
    moved o link v e k = let own : opt_eq (some n) (some n) ≡ true = ground arith in rw (e, own) k

    stays :
        (o : Option ℕ) (link : ℕ → Option ℕ) (z : ℕ)
        → o ≡ some z
        → contains (w ∷ ws) z ≡ true
        → (if opt_eq o (some n) then follow link o else o) ≡ some z
    stays o link z e h =
        let test : opt_eq (some z) (some n) ≡ false = ground (arith, other z h) in rw (e, test) refl

not_both : (o : Option ℕ) (n t : ℕ) → n ≢ t → (opt_eq o (some n) && opt_eq o (some t)) ≡ false
not_both none n t ne = refl
not_both (some a) n t ne = ground (arith, ne)

head_differs :
    {n y : ℕ} (o : Option ℕ) → n ≢ y → (opt_eq (some y) (some n) && opt_eq (some y) o) ≡ false
head_differs o ne = ground (arith, ne)

in_first : (xs ys : List ℕ) (t : ℕ) → contains xs t ≡ true → contains (xs ++ ys) t ≡ true
in_first xs ys t h = contains-append xs ys t ∙ ground (arith, h)

in_second : (xs ys : List ℕ) (t : ℕ) → contains ys t ≡ true → contains (xs ++ ys) t ≡ true
in_second xs ys t h = contains-append xs ys t ∙ ground (arith, h)

remove_between :
    (n : ℕ) (l : Links) (ys zs : List ℕ)
    → IsCircle l (ys ++ (n ∷ zs))
    → Distinct (ys ++ (n ∷ zs))
    → IsCircle (Circular.remove n l) (ys ++ zs) × Calm l (Circular.remove n l)
remove_between n l [] [] c d =
    rw (remove_only n l c) (record { at_head = refl; at_tail = refl; chain = tt }, (refl, refl))
remove_between n l [] (z ∷ zs) c d =
    let (d', out) = Distinct-around [] (z ∷ zs) n d in
    let chain = rotate-Chain l.next l.prev [] (n ∷ z ∷ zs) c.chain in
    let ws = zs ++ [] in
    let (t, et) = last-some z zs in
    let t_in : contains (z ∷ ws) t ≡ true = in_first (z ∷ zs) [] t (last-in (z ∷ zs) t et) in
    let at_tail : l.tail ≡ some t = c.at_tail ∙ et in
    remove_ring n l z ws chain d' out (z ∷ zs)
      (rw at_tail (not_both l.head n t (other n l z ws chain d' out t t_in)))
      (moved n l z ws chain d' out l.head _ _ c.at_head (own_next n l z ws chain d' out))
      (stays n l z ws chain d' out l.tail _ t at_tail t_in ∙ sym et)
      (rotate-Chain _ _ (z ∷ zs) [] (unlinked-Chain n l z ws chain d' out))
remove_between n l (y ∷ ys) (z ∷ zs) c d =
    let (d', out) = Distinct-around (y ∷ ys) (z ∷ zs) n d in
    let chain = rotate-Chain l.next l.prev (y ∷ ys) (n ∷ z ∷ zs) c.chain in
    let ws = zs ++ (y ∷ ys) in
    let (t, et) = last-some z zs in
    let t_in : contains (z ∷ ws) t ≡ true = in_first (z ∷ zs) (y ∷ ys) t (last-in (z ∷ zs) t et) in
    let y_in : contains (z ∷ ws) y ≡ true = in_second (z ∷ zs) (y ∷ ys) y (contains-head y ys) in
    let last_t : last? (z ∷ zs) ≡ some t → or_else (last? (z ∷ zs)) (last? (y ∷ ys)) ≡ some t =
      ap (λ o. or_else o (last? (y ∷ ys))) in
    let at_tail : l.tail ≡ some t = c.at_tail ∙ last-append (y ∷ ys) (n ∷ z ∷ zs) ∙ last_t et in
    remove_ring n l z ws chain d' out ((y ∷ ys) ++ (z ∷ zs))
      (rw at_tail (not_both l.head n t (other n l z ws chain d' out t t_in)))
      (stays n l z ws chain d' out l.head _ y c.at_head y_in)
      (stays n l z ws chain d' out l.tail _ t at_tail t_in
        ∙ sym (last-append (y ∷ ys) (z ∷ zs) ∙ last_t et))
      (rotate-Chain _ _ (z ∷ zs) (y ∷ ys) (unlinked-Chain n l z ws chain d' out))
remove_between n l (y ∷ ys) [] c d =
    let (d', out) = Distinct-around (y ∷ ys) [] n d in
    let chain = rotate-Chain l.next l.prev (y ∷ ys) (n ∷ []) c.chain in
    let y_ne : n ≢ y = other n l y ys chain d' out y (contains-head y ys) in
    remove_ring n l y ys chain d' out ((y ∷ ys) ++ []) (rw c.at_head (head_differs l.tail y_ne))
      (stays n l y ys chain d' out l.head _ y c.at_head (contains-head y ys))
      (moved n l y ys chain d' out l.tail _ _ (c.at_tail ∙ last-append (y ∷ ys) (n ∷ []))
          (own_prev n l y ys chain d' out)
        ∙ sym (last-append (y ∷ ys) []))
      (rotate-Chain _ _ [] (y ∷ ys) (unlinked-Chain n l y ys chain d' out))

-- `CircularLinkList::Remove` of a node of a ring in which no node stands twice leaves the pointers
-- of the ring without that node; it finds the links of the neighbours in order, so that it does not
-- panic, and writes through no null pointer.
pub remove-remove_node :
    (n : ℕ) (l : Links) (xs : List ℕ)
    → IsCircle l xs
    → Distinct xs
    → contains xs n ≡ true
    → IsCircle (Circular.remove n l) (remove_node xs n) × Calm l (Circular.remove n l)
remove-remove_node n l xs c d h =
    let (ys, zs, around, without) = split_at xs n h in
    let c' = subst (IsCircle l) around c in
    let d' = subst Distinct around d in
    subst (λ r. IsCircle (Circular.remove n l) r × Calm l (Circular.remove n l)) (sym without)
      (remove_between n l ys zs c' d')
