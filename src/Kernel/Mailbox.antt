-- ===== src/Kernel/Mailbox.antt =====
-- `class Mailbox` of src/mailbox.cpp and src/public/mailbox.h.
pub mod Slots
pub mod Deque
pub mod Creation
use mark.Prelude.{
  ℕ, ◌+◌, ◌/◌, ◌%◌, ◌^◌, Bool, true, false, Option, none, some, List, ◌==◌, if◌then◌else◌,
}
use mark.PrioMap.Interface.{PriorityMap}
use mark.Kernel.State.{Kernel, Mailbox, put_mailbox, panic}
use mark.Kernel.Scheduler.{set_scheduler}
use mark.Kernel.Semaphore
use mark.Kernel.Semaphore.{post, pend_i}
use mark.Kernel.Mailbox.Slots.{write_slot, read_slot}

abbrev pub panic_active_mailbox_descoped : ℕ
panic_active_mailbox_descoped = 12

module _ {M : Type 0} where
  -- `Mailbox::Init`
  unfoldable pub init : ℕ → (buffer_size element_size : ℕ) → Kernel M → Kernel M
  init i buffer_size element_size k =
      let k₁ =
        put_mailbox i
          (record (k.mailbox i) {
            element_size = element_size;
            count = buffer_size / element_size;
            free = buffer_size / element_size;
            head = 0;
            tail = 0;
          })
          k in
      let k₂ = Semaphore.init (k₁.mailbox i).recv_sem 0 (k₁.mailbox i).free k₁ in
      Semaphore.init (k₂.mailbox i).send_sem 0 1 k₂

  -- `Mailbox::~Mailbox`
  unfoldable pub destroy : ℕ → Kernel M → Kernel M
  destroy i k =
      if (k.mailbox i).free == (k.mailbox i).count then k else panic panic_active_mailbox_descoped k

  -- One pass of the loop of `Send_i` through its critical section, and the copy.
  unfoldable pub try_send : ℕ → Bool → List ℕ → Kernel M → Bool × Kernel M
  try_send i at_tail element k =
      if (k.mailbox i).free == 0
      then (false, k)
      else (true, put_mailbox i (write_slot at_tail element (k.mailbox i)) k)

module _ {M : Type 0} ⦃pm : PriorityMap M⦄ (others : Kernel M → Kernel M) where
  -- The wait of `Send_i` between its two passes.
  unfoldable pub await_slot : ℕ → ℕ → ℕ → Bool → Kernel M → Kernel M
  await_slot i t ms sched k =
      let k₁ = (set_scheduler sched k).1 in
      (set_scheduler false (pend_i others (k₁.mailbox i).send_sem t ms k₁).1).1

  -- `Mailbox::Send_i`: the loop makes a second pass only after a wait.
  unfoldable pub send_i : ℕ → ℕ → Bool → ℕ → List ℕ → Kernel M → Bool × Kernel M
  send_i i t at_tail ms element k =
      let (sched, k₁) = set_scheduler false k in
      let (first, k₂) = try_send i at_tail element k₁ in
      let (sent, k₃) =
        if first
        then (first, k₂)
        else if ms == 0
        then (first, k₂)
        else try_send i at_tail element (await_slot i t ms sched k₂) in
      let k₄ = (set_scheduler sched k₃).1 in
      (sent, if sent then (post (k₄.mailbox i).recv_sem k₄).1 else k₄)

  -- `Mailbox::Receive_i`
  unfoldable pub receive_i : ℕ → ℕ → Bool → ℕ → Kernel M → Option (List ℕ) × Kernel M
  receive_i i t at_tail ms k =
      let (arrived, k₁) = pend_i others (k.mailbox i).recv_sem t ms k in
      if arrived
      then (let (sched, k₂) = set_scheduler false k₁ in
          let (element, mb) = read_slot at_tail (k₂.mailbox i) in
          let k₃ = (set_scheduler sched (put_mailbox i mb k₂)).1 in
          (some element, (post (k₃.mailbox i).send_sem k₃).1))
      else (none, k₁)
