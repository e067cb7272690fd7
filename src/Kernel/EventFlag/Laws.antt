-- ===== src/Kernel/EventFlag/Laws.antt =====
-- `EventFlag::Set` (src/eventflag.cpp) wakes the waiters whose condition holds, and no other.
use mark.Prelude.{
  Bool-cases, inl, inr, ℕ, ◌≡◌, refl, ◌∙◌, ap, Bool, true, false, ◌&&◌, some, List, arith,
  if◌then◌else◌,
}
use Prim.Native.Nat.{bit_or}
use mark.PrioMap.Interface.{PriorityMap}
use mark.ThreadList.Ring.{contains}
use mark.ThreadList.{ThreadId}
use mark.Kernel.State.{Kernel, ready, put_event_flag}
use mark.Kernel.Blocking.Moves.{distinct, objects-yield_if}
use mark.Prelude.{if_true, update-own}
use mark.Kernel.EventFlag.{matches, matched_mask, is_pending, tag_all, unblock_tagged, set}
use mark.Kernel.EventFlag.Tags.{
  unblock_tagged-other, tagged, tag_all-thread, unblock_tagged-wakes, unblock_tagged-keeps,
}

both_false {ℓ} :
    {A : Type ℓ} (b c : Bool) (x y : A)
    → (b && c) ≡ false
    → (if b then (if c then x else y) else y) ≡ y
both_false true true x y e = absurd (ground (arith, e))
both_false true false x y e = refl
both_false false c x y e = refl

module _ {M : Type 0} ⦃pm : PriorityMap M⦄ where
  -- The waiters of an event flag: each once, each on the flag's list, and none tagged yet.
  pub record Waiters (i : ℕ) (ts : List ThreadId) (k : Kernel M) : Type 0 where
    pub members : (k.lists.list (k.event_flag i).block_list).members ≡ ts
    pub once : distinct ts ≡ true
    pub at_home :
        (t : ThreadId)
        → contains ts t ≡ true
        → (k.thread t).current ≡ some (k.event_flag i).block_list
    pub waiting : (t : ThreadId) → contains ts t ≡ true → is_pending (k.thread t).flag_mode ≡ false

  -- The condition of a thread, with the flags that `Set` adds.
  abbrev pub holds : ℕ → ℕ → ThreadId → Kernel M → Bool
  holds i mask t k =
      matches (k.thread t).flag_mode (bit_or (k.event_flag i).set_mask mask) (k.thread t).flag_mask

  -- The kernel after the first loop.
  abbrev tagged_by : ℕ → ℕ → List ThreadId → Kernel M → Kernel M
  tagged_by i mask ts k =
      let flags = bit_or (k.event_flag i).set_mask mask in
      (tag_all flags mask ts
        (flags, false, put_event_flag i (record (k.event_flag i) { set_mask = flags }) k)).2

  tagged_by-thread :
      (i mask : ℕ) (ts : List ThreadId) (k : Kernel M)
      → Waiters i ts k
      → (t : ThreadId)
      → (tagged_by i mask ts k).thread t ≡ (
          if contains ts t
          then tagged (bit_or (k.event_flag i).set_mask mask) (k.thread t)
          else k.thread t)
  tagged_by-thread i mask ts k w t =
      let flags = bit_or (k.event_flag i).set_mask mask in
      tag_all-thread flags mask ts
        (flags, false, put_event_flag i (record (k.event_flag i) { set_mask = flags }) k) w.once t

  set-thread :
      (i mask : ℕ) (ts : List ThreadId) (k : Kernel M)
      → Waiters i ts k
      → (t : ThreadId)
      → (set i mask k).thread t ≡ (unblock_tagged ts (tagged_by i mask ts k)).thread t
  unfolding set
  set-thread i mask ts k w t =
      let flags = bit_or (k.event_flag i).set_mask mask in
      let k₁ = put_event_flag i (record (k.event_flag i) { set_mask = flags }) k in
      let waiters = (k₁.lists.list (k₁.event_flag i).block_list).members in
      let r = tag_all flags mask waiters (flags, false, k₁) in
      let listed : waiters ≡ ts =
        ap (λ e. (k.lists.list e.block_list).members) (update-own k.event_flag i _) ∙ w.members in
      ap (λ o. o.thread t) (objects-yield_if r.1 (unblock_tagged waiters r.2))
      ∙ ap (λ xs. (unblock_tagged xs (tag_all flags mask xs (flags, false, k₁)).2).thread t) listed

  -- A thread that waits for an event flag and whose condition holds for the flags after `set`
  -- becomes ready with the mask that its condition gives it, where every waiter is listed once,
  -- knows its list, and is not tagged before.
  pub set-wakes :
      (i mask : ℕ) (ts : List ThreadId) (k : Kernel M) (t : ThreadId)
      → Waiters i ts k
      → contains ts t ≡ true
      → holds i mask t k ≡ true
      → (((set i mask k).thread t).state ≡ ready)
        × (((set i mask k).thread t).flag_mask
            ≡ matched_mask
                (k.thread t).flag_mode
                (bit_or (k.event_flag i).set_mask mask)
                (k.thread t).flag_mask)
  set-wakes i mask ts k t w h over =
      let T = tagged_by-thread i mask ts k w t ∙ if_true _ _ h ∙ if_true _ _ over in
      let r =
        unblock_tagged-wakes ts (k.event_flag i).block_list (tagged_by i mask ts k) t w.once h
          (ap (λ th. th.current) T ∙ w.at_home t h) (ap (λ th. is_pending th.flag_mode) T) in
      let e = set-thread i mask ts k w t in
      (ap (λ th. th.state) e ∙ r.0, ap (λ th. th.flag_mask) e ∙ r.1 ∙ ap (λ th. th.flag_mask) T)

  -- A thread that does not wait for the event flag, or whose condition does not hold for the flags
  -- after `set`, is left as it was, under the same conditions on the waiters.
  pub set-keeps :
      (i mask : ℕ) (ts : List ThreadId) (k : Kernel M) (t : ThreadId)
      → Waiters i ts k
      → (contains ts t && holds i mask t k) ≡ false
      → (set i mask k).thread t ≡ k.thread t
  set-keeps i mask ts k t w waits =
      let T =
        tagged_by-thread i mask ts k w t
        ∙ both_false (contains ts t) (holds i mask t k) _ _ waits in
      elim (Bool-cases (contains ts t)) [
        | inl listed ↦
            set-thread i mask ts k w t
            ∙ unblock_tagged-keeps ts (tagged_by i mask ts k) t w.once
                (ap (λ th. is_pending th.flag_mode) T ∙ w.waiting t listed)
            ∙ T
        | inr elsewhere ↦
            set-thread i mask ts k w t
            ∙ unblock_tagged-other ts (tagged_by i mask ts k) t elsewhere
            ∙ T
      ]
