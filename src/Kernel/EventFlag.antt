-- ===== src/Kernel/EventFlag.antt =====
-- `class EventFlag` of src/eventflag.cpp.
pub mod Tags
pub mod Laws
use Prim.Native.Nat.{bit_and, bit_or}
use mark.Prelude.{ℕ, Bool, true, false, not, ◌&&◌, ◌||◌, List, [], ◌∷◌, ◌==◌, leb, if◌then◌else◌}
use mark.Prelude.Bits.{complement}
use mark.PrioMap.Interface.{PriorityMap}
use mark.ThreadList.Ring.{nonempty}
use mark.ThreadList.{ThreadId}
use mark.Kernel.State.{
  Kernel, EventFlag, EventFlagOperation, all_set, any_set, all_clear, any_clear, pending_unblock,
  timed_event_flag, put_event_flag, put_thread, set_expired, set_event_flag_mask,
  set_event_flag_mode, panic,
}
use mark.Kernel.Scheduler.{yield}
use mark.Kernel.Blocking.{block_priority, unblock}
use mark.Kernel.Timer

abbrev pub panic_active_eventflag_descoped : ℕ
panic_active_eventflag_descoped = 10

-- The two tests of the operations, and the groups that they come in.
abbrev pub is_all : EventFlagOperation → Bool
is_all all_set = true
is_all all_clear = true
is_all _ = false

abbrev pub is_any : EventFlagOperation → Bool
is_any any_set = true
is_any any_clear = true
is_any _ = false

abbrev pub is_clear : EventFlagOperation → Bool
is_clear all_clear = true
is_clear any_clear = true
is_clear _ = false

abbrev pub is_pending : EventFlagOperation → Bool
is_pending pending_unblock = true
is_pending _ = false

-- Whether the flags satisfy a wait for `mask`, and the mask that the thread is then given.
abbrev pub matches : EventFlagOperation → ℕ → ℕ → Bool
matches mode flags mask =
    if is_all mode
    then bit_and flags mask == mask
    else if is_any mode
    then not (bit_and flags mask == 0)
    else false

abbrev pub matched_mask : EventFlagOperation → ℕ → ℕ → ℕ
matched_mask mode flags mask = if is_all mode then mask else bit_and flags mask

module _ {M : Type 0} where
  -- `EventFlag::Init`
  unfoldable pub init : ℕ → Kernel M → Kernel M
  init i k = put_event_flag i (record (k.event_flag i) { set_mask = 0; initialized = true }) k

  -- `EventFlag::~EventFlag`
  unfoldable pub destroy : ℕ → Kernel M → Kernel M
  destroy i k =
      if nonempty (k.lists.list (k.event_flag i).block_list).members
      then panic panic_active_eventflag_descoped k
      else k

  -- `EventFlag::Clear`
  unfoldable pub clear : ℕ → ℕ → Kernel M → Kernel M
  clear i mask k =
      put_event_flag i
        (record (k.event_flag i) {
          set_mask = bit_and (k.event_flag i).set_mask (complement 16 mask);
        })
        k

  -- `EventFlag::GetMask`
  abbrev pub get_mask : ℕ → Kernel M → ℕ
  get_mask i k = (k.event_flag i).set_mask

  -- The body of the first loop of `EventFlag::Set`: tag a thread whose wait is over.
  unfoldable pub tag_one : (flags mask : ℕ) → ThreadId → ℕ × Bool × Kernel M → ℕ × Bool × Kernel M
  tag_one flags mask t (left, reschedule, k) =
      let th = k.thread t in
      if matches th.flag_mode flags th.flag_mask
      then (
        if is_clear th.flag_mode
            then bit_and left (complement 16 (bit_and th.flag_mask mask))
            else left,
        true,
        put_thread t
            (record th {
              flag_mode = pending_unblock;
              flag_mask = matched_mask th.flag_mode flags th.flag_mask;
            })
            k,
      )
      else (left, reschedule, k)

  -- The first loop. It returns the flags that are left and whether a thread was tagged.
  unfoldable pub tag_all :
      (flags mask : ℕ) → List ThreadId → ℕ × Bool × Kernel M → ℕ × Bool × Kernel M
  tag_all flags mask [] r = r
  tag_all flags mask (t ∷ ts) r = tag_all flags mask ts (tag_one flags mask t r)

module _ {M : Type 0} ⦃pm : PriorityMap M⦄ where
  -- `EventFlag::WakeMe`
  abbrev pub wake_me : ThreadId → Kernel M → Kernel M
  wake_me t k = unblock t k

  -- `TimedEventFlag_Callback`
  unfoldable pub timed_callback : ThreadId → Kernel M → Kernel M
  timed_callback t k =
      let k' = wake_me t (set_event_flag_mask t 0 (set_expired t true k)) in
      if leb (k'.thread k'.current).cur_priority (k'.thread t).cur_priority then yield k' else k'

  -- The second loop of `EventFlag::Set`: unblock the threads that are tagged.
  unfoldable pub unblock_tagged : List ThreadId → Kernel M → Kernel M
  unblock_tagged [] k = k
  unblock_tagged (t ∷ ts) k =
      unblock_tagged ts (if is_pending (k.thread t).flag_mode then unblock t k else k)

  -- `EventFlag::Set`
  unfoldable pub set : ℕ → ℕ → Kernel M → Kernel M
  set i mask k =
      let flags = bit_or (k.event_flag i).set_mask mask in
      let k₁ = put_event_flag i (record (k.event_flag i) { set_mask = flags }) k in
      let waiters = (k₁.lists.list (k₁.event_flag i).block_list).members in
      let (left, reschedule, k₂) = tag_all flags mask waiters (flags, false, k₁) in
      let k₃ = unblock_tagged waiters k₂ in
      let k₄ = if reschedule then yield k₃ else k₃ in
      put_event_flag i (record (k₄.event_flag i) { set_mask = left }) k₄

  module _ (others : Kernel M → Kernel M) where
    -- The branch of `EventFlag::Wait_i` where the flags match.
    abbrev pub match_now : ℕ → ℕ → EventFlagOperation → Kernel M → Kernel M
    match_now i mask mode k =
        let flags = (k.event_flag i).set_mask in
        let k' = set_event_flag_mask k.current (matched_mask mode flags mask) k in
        if is_clear mode then set_expired k'.current false (clear i mask k') else k'

    -- The branch where it has to block, up to the call of `Thread::Yield`.
    unfoldable pub wait_for : ℕ → ℕ → ℕ → EventFlagOperation → ℕ → Kernel M → Kernel M
    wait_for i t mask mode ms k =
        let k₁ = set_event_flag_mode k.current mode (set_event_flag_mask k.current mask k) in
        let k₂ =
          if ms == 0
          then k₁
          else Timer.start others t false ms (timed_event_flag i)
              (Timer.init t (set_expired k₁.current false k₁)) in
        yield (block_priority (k₂.event_flag i).block_list k₂.current k₂)

    -- `EventFlag::Wait_i`
    unfoldable pub wait_i : ℕ → ℕ → ℕ → EventFlagOperation → ℕ → Kernel M → ℕ × Kernel M
    wait_i i t mask mode ms k =
        let k₀ = set_event_flag_mask k.current mask (Timer.construct t k) in
        let k₁ =
          if matches mode (k₀.event_flag i).set_mask mask
          then match_now i mask mode k₀
          else (let k₂ = others (wait_for i t mask mode ms k₀) in
              if ms == 0 then k₂ else Timer.stop others t k₂) in
        ((k₁.thread k₁.current).flag_mask, k₁)
