-- ===== src/Kernel/Message/Laws.antt =====
-- The order of the messages of a queue (src/message.cpp).
use mark.Prelude.{
  ℕ, zero, suc, ◌≡◌, refl, ◌∙◌, ap, true, false, inl, inr, sym, subst, arith, if◌then◌else◌,
  if_false, Option-cases, Option, some, List, [], ◌∷◌, ◌++◌, length, ==_self,
}
use mark.PrioMap.Interface.{PriorityMap}
use mark.ThreadList.Ring.{remove_node, contains, head?}
use mark.LinkedList.Chains.{Distinct, contains-append}
use mark.Kernel.State.{Kernel}
use mark.Prelude.{if_true, update-own}
use mark.Kernel.Semaphore.{post}
use mark.Kernel.Semaphore.Keeps.{post-view}
use mark.Kernel.Message.{take_head, send}

append_assoc : (xs : List ℕ) (m : ℕ) (ms : List ℕ) → (xs ++ (m ∷ [])) ++ ms ≡ xs ++ (m ∷ ms)
append_assoc [] m ms = refl
append_assoc (x ∷ xs) m ms = ap (λ ys. x ∷ ys) (append_assoc xs m ms)

append_nil : (xs : List ℕ) → xs ≡ xs ++ []
append_nil [] = refl
append_nil (x ∷ xs) = ap (λ ys. x ∷ ys) (append_nil xs)

not_before : (xs : List ℕ) (m : ℕ) (ms : List ℕ) → Distinct (xs ++ (m ∷ ms)) → contains xs m ≡ false
not_before [] m ms d = refl
not_before (x ∷ xs) m ms (first, d) =
    ground (arith, first, contains-append xs (m ∷ ms) x, not_before xs m ms d)

abbrev pub wrap : List ℕ → List (Option ℕ)
wrap [] = []
wrap (m ∷ ms) = some m ∷ wrap ms

module _ {M : Type 0} ⦃pm : PriorityMap M⦄ where
  post-queue : (i : ℕ) (k : Kernel M) → (post i k).1.queue ≡ k.queue
  post-queue i k = post-view (λ o. o.queue) (λ o ls th sem. refl) i k

  -- Messages sent one after another, and taken one after another.
  unfoldable pub send_all : ℕ → List ℕ → Kernel M → Kernel M
  send_all i [] k = k
  send_all i (m ∷ ms) k = send_all i ms (send i m k)

  unfoldable pub take_all : ℕ → ℕ → Kernel M → List (Option ℕ) × Kernel M
  take_all zero i k = ([], k)
  take_all (suc n) i k =
      let (m, k') = take_head i k in let (ms, k'') = take_all n i k' in (m ∷ ms, k'')

  send-messages :
      (i m : ℕ) (k : Kernel M) → ((send i m k).queue i).messages ≡ (k.queue i).messages ++ (m ∷ [])
  unfolding send
  send-messages i m k =
      ap (λ f. (f i).messages) (post-queue _ _) ∙ ap (λ q. q.messages) (update-own k.queue i _)

  send_all-messages :
      (i : ℕ) (ms : List ℕ) (k : Kernel M) (xs : List ℕ)
      → (k.queue i).messages ≡ xs
      → ((send_all i ms k).queue i).messages ≡ xs ++ ms
  unfolding send_all
  send_all-messages i [] k xs e = e ∙ append_nil xs
  send_all-messages i (m ∷ ms) k xs e =
      send_all-messages i ms (send i m k) (xs ++ (m ∷ []))
        (send-messages i m k ∙ ap (λ ys. ys ++ (m ∷ [])) e)
      ∙ append_assoc xs m ms

  take_head-first :
      (i m : ℕ) (ms : List ℕ) (k : Kernel M)
      → (k.queue i).messages ≡ m ∷ ms
      → ((take_head i k).0 ≡ some m) × (((take_head i k).1.queue i).messages ≡ ms)
  unfolding take_head
  take_head-first i m ms k e =
      rw (e, take_head)
        (
          refl,
          ap (λ q. q.messages) (update-own k.queue i _)
              ∙ ap (λ xs. remove_node xs m) e
              ∙ if_true _ _ (==_self m),
        )

  take_all-messages :
      (i : ℕ) (ms : List ℕ) (k : Kernel M)
      → (k.queue i).messages ≡ ms
      → ((take_all (length ms) i k).0 ≡ wrap ms)
        × (((take_all (length ms) i k).1.queue i).messages ≡ [])
  unfolding take_all
  take_all-messages i [] k e = (refl, e)
  take_all-messages i (m ∷ ms) k e =
      let first = take_head-first i m ms k e in
      let rest = take_all-messages i ms (take_head i k).1 first.1 in
      (
        ap (λ o. o ∷ (take_all (length ms) i (take_head i k).1).0) first.0
            ∙ ap (λ os. some m ∷ os) rest.0,
        rest.1,
      )

  send-broken :
      (i m : ℕ) (k : Kernel M)
      → ((send i m k).queue i).broken
        ≡ (if contains (k.queue i).messages m then true else (k.queue i).broken)
  unfolding send
  send-broken i m k =
      ap (λ f. (f i).broken) (post-queue _ _) ∙ ap (λ q. q.broken) (update-own k.queue i _)

  -- Messages that are all different, and none of them in the queue, keep it whole.
  send_all-whole :
      (i : ℕ) (ms : List ℕ) (k : Kernel M) (xs : List ℕ)
      → (k.queue i).messages ≡ xs
      → Distinct (xs ++ ms)
      → (k.queue i).broken ≡ false
      → ((send_all i ms k).queue i).broken ≡ false
  unfolding send_all
  send_all-whole i [] k xs e d whole = whole
  send_all-whole i (m ∷ ms) k xs e d whole =
      send_all-whole i ms (send i m k) (xs ++ (m ∷ []))
        (send-messages i m k ∙ ap (λ ys. ys ++ (m ∷ [])) e)
        (subst Distinct (sym (append_assoc xs m ms)) d)
        (send-broken i m k
          ∙ ap (λ ys. if contains ys m then true else (k.queue i).broken) e
          ∙ if_false _ _ (not_before xs m ms d)
          ∙ whole)

  take_head-whole : (i : ℕ) (k : Kernel M) → ((take_head i k).1.queue i).broken ≡ (k.queue i).broken
  unfolding take_head
  take_head-whole i k = elim (Option-cases (head? (k.queue i).messages)) [
    | inl e ↦ rw (e, take_head) refl
    | inr (m, e) ↦ rw (e, take_head) (ap (λ q. q.broken) (update-own k.queue i _))
  ]

  take_all-whole :
      (n i : ℕ) (k : Kernel M) → ((take_all n i k).1.queue i).broken ≡ (k.queue i).broken
  unfolding take_all
  take_all-whole zero i k = refl
  take_all-whole (suc n) i k = take_all-whole n i (take_head i k).1 ∙ take_head-whole i k

  -- Messages that are all different, sent to an empty queue one after another, are taken from it in
  -- that order, and leave it empty; none of them is added to a list that holds it already.
  pub take_all-send_all :
      (i : ℕ) (ms : List ℕ) (k : Kernel M)
      → (k.queue i).messages ≡ []
      → (k.queue i).broken ≡ false
      → Distinct ms
      → ((take_all (length ms) i (send_all i ms k)).0 ≡ wrap ms)
        × (((take_all (length ms) i (send_all i ms k)).1.queue i).messages ≡ [])
        × (((take_all (length ms) i (send_all i ms k)).1.queue i).broken ≡ false)
  take_all-send_all i ms k e whole d =
      let (taken, emptied) =
        take_all-messages i ms (send_all i ms k) (send_all-messages i ms k [] e) in
      (
        taken,
        emptied,
        take_all-whole (length ms) i (send_all i ms k) ∙ send_all-whole i ms k [] e d whole,
      )
