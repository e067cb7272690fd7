-- ===== src/Kernel/State.antt =====
-- The state of the kernel: the threads, the thread lists, the scheduler's flags, the objects that
-- threads block on, the timers, and the round-robin state. Every object stands for its address.
use mark.Prelude.{ℕ, Bool, true, Option, List, ◌∷◌}
pub use mark.Prelude.{update}
use mark.ThreadList.{ThreadId, ListId, ListStore}

-- `enum class ThreadState`
pub data ThreadState : Type 0 where
  exit ready blocked stop invalid : ThreadState

-- `enum class EventFlagOperation`
pub data EventFlagOperation : Type 0 where
  all_set any_set all_clear any_clear pending_unblock : EventFlagOperation

-- `class Thread`. A stack is the words that still hold the fill pattern, `K_WORD(-1)`.
pub record Thread : Type 0 where
  pub priority : ℕ
  pub cur_priority : ℕ
  pub state : ThreadState
  pub current : Option ListId
  pub owner : Option ListId
  pub quantum : ℕ
  pub flag_mask : ℕ
  pub flag_mode : EventFlagOperation
  pub expired : Bool
  pub stack_size : ℕ
  pub untouched : ℕ → Bool
  pub timer : ℕ

-- `class Semaphore`, `class Mutex`, `class Notify`, `class EventFlag`: each with its block list.
pub record Semaphore : Type 0 where
  pub value : ℕ
  pub max_value : ℕ
  pub block_list : ListId
  pub initialized : Bool

pub record Mutex : Type 0 where
  pub recurse : ℕ
  pub is_ready : Bool
  pub recursive : Bool
  pub max_pri : ℕ
  pub owner : Option ThreadId
  pub block_list : ListId
  pub initialized : Bool

pub record Notify : Type 0 where
  pub pending : Bool
  pub block_list : ListId
  pub initialized : Bool

pub record EventFlag : Type 0 where
  pub set_mask : ℕ
  pub block_list : ListId
  pub initialized : Bool

-- `class ConditionVariable`, `class ReaderWriterLock`, `class MessageQueue`, with the addresses of the
-- objects that they hold.
pub record ConditionVariable : Type 0 where
  pub waiters : ℕ
  pub lock : ℕ
  pub semaphore : ℕ

pub record ReaderWriterLock : Type 0 where
  pub read_count : ℕ
  pub global_mutex : ℕ
  pub reader_mutex : ℕ

-- `broken` is set by the addition of a message that is in the list already, which cuts the chain of
-- its links: the list says nothing of the messages then.
pub record MessageQueue : Type 0 where
  pub semaphore : ℕ
  pub messages : List ℕ
  pub broken : Bool

-- `class Mailbox`; `slot` is the buffer, one element to a slot.
pub record Mailbox : Type 0 where
  pub head : ℕ
  pub tail : ℕ
  pub count : ℕ
  pub free : ℕ
  pub element_size : ℕ
  pub slot : ℕ → List ℕ
  pub recv_sem : ℕ
  pub send_sem : ℕ

-- What a timer calls on expiry: nothing, a function of the kernel with the object it is given, or a
-- function of the program.
pub data Callback : Type 0 where
  no_callback : Callback
  timed_semaphore : ℕ → Callback
  timed_mutex : ℕ → Callback
  timed_event_flag : ℕ → Callback
  timed_notify : ℕ → Callback
  post_semaphore : ℕ → Callback
  user_callback : ℕ → ℕ → Callback

-- `class Timer`; the flags are `uTimerFlagOneShot`, `uTimerFlagActive` and `uTimerFlagExpired`.
pub record Timer : Type 0 where
  pub initialized : Bool
  pub one_shot : Bool
  pub active : Bool
  pub expired : Bool
  pub interval : ℕ
  pub time_left : ℕ
  pub owner : ThreadId
  pub callback : Callback

-- `g_pclCurrent`, `g_pclNext`, and the statics of `Kernel`, `Scheduler`, `Quantum`, `TimerScheduler`.
-- `switch_requests` counts the calls of `KernelSWI::Trigger`, `panics` lists the causes of `Panic`,
-- newest first, and `faulted` is set by a dereference of a null pointer.
pub record Kernel (M : Type 0) : Type 0 where
  pub lists : ListStore M
  pub thread : ThreadId → Thread
  pub enabled : Bool
  pub queued : Bool
  pub current : ThreadId
  pub next : Option ThreadId
  pub started : Bool
  pub switch_requests : ℕ
  pub panics : List ℕ
  pub faulted : Bool
  pub guard_threshold : ℕ
  pub ticks_remain : ℕ
  pub active_thread : Option ThreadId
  pub timer_thread : Option ThreadId
  pub in_timer : Bool
  pub semaphore : ℕ → Semaphore
  pub mutex : ℕ → Mutex
  pub notify : ℕ → Notify
  pub event_flag : ℕ → EventFlag
  pub condvar : ℕ → ConditionVariable
  pub rwlock : ℕ → ReaderWriterLock
  pub queue : ℕ → MessageQueue
  pub mailbox : ℕ → Mailbox
  pub timer : ℕ → Timer
  pub timer_list : List ℕ
  pub timer_mutex : ℕ

module _ {M : Type 0} where
  abbrev pub put_thread : ThreadId → Thread → Kernel M → Kernel M
  put_thread t v k = record k { thread = update k.thread t v }

  -- `Thread::SetState`, `SetCurrent`, `SetOwner`, `SetExpired`, `SetEventFlagMask`, `SetEventFlagMode`
  abbrev pub set_state : ThreadId → ThreadState → Kernel M → Kernel M
  set_state t v k = put_thread t (record (k.thread t) { state = v }) k

  abbrev pub set_current : ThreadId → Option ListId → Kernel M → Kernel M
  set_current t v k = put_thread t (record (k.thread t) { current = v }) k

  abbrev pub set_owner : ThreadId → Option ListId → Kernel M → Kernel M
  set_owner t v k = put_thread t (record (k.thread t) { owner = v }) k

  abbrev pub set_expired : ThreadId → Bool → Kernel M → Kernel M
  set_expired t v k = put_thread t (record (k.thread t) { expired = v }) k

  abbrev pub set_event_flag_mask : ThreadId → ℕ → Kernel M → Kernel M
  set_event_flag_mask t v k = put_thread t (record (k.thread t) { flag_mask = v }) k

  abbrev pub set_event_flag_mode : ThreadId → EventFlagOperation → Kernel M → Kernel M
  set_event_flag_mode t v k = put_thread t (record (k.thread t) { flag_mode = v }) k

  abbrev pub put_semaphore : ℕ → Semaphore → Kernel M → Kernel M
  put_semaphore i v k = record k { semaphore = update k.semaphore i v }

  abbrev pub put_mutex : ℕ → Mutex → Kernel M → Kernel M
  put_mutex i v k = record k { mutex = update k.mutex i v }

  abbrev pub put_notify : ℕ → Notify → Kernel M → Kernel M
  put_notify i v k = record k { notify = update k.notify i v }

  abbrev pub put_event_flag : ℕ → EventFlag → Kernel M → Kernel M
  put_event_flag i v k = record k { event_flag = update k.event_flag i v }

  abbrev pub put_condvar : ℕ → ConditionVariable → Kernel M → Kernel M
  put_condvar i v k = record k { condvar = update k.condvar i v }

  abbrev pub put_rwlock : ℕ → ReaderWriterLock → Kernel M → Kernel M
  put_rwlock i v k = record k { rwlock = update k.rwlock i v }

  abbrev pub put_queue : ℕ → MessageQueue → Kernel M → Kernel M
  put_queue i v k = record k { queue = update k.queue i v }

  abbrev pub put_mailbox : ℕ → Mailbox → Kernel M → Kernel M
  put_mailbox i v k = record k { mailbox = update k.mailbox i v }

  abbrev pub put_timer : ℕ → Timer → Kernel M → Kernel M
  put_timer i v k = record k { timer = update k.timer i v }

  -- `Kernel::Panic` with a handler that returns; without one it does not return.
  abbrev pub panic : ℕ → Kernel M → Kernel M
  panic cause k = record k { panics = cause ∷ k.panics }

  abbrev pub fault : Kernel M → Kernel M
  fault k = record k { faulted = true }
