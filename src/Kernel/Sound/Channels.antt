-- ===== src/Kernel/Sound/Channels.antt =====
-- Message queues and mailboxes keep the kernel sound.
use mark.Prelude.{
  ℕ, ◌/◌, ◌≤◌, Bool, true, false, inl, inr, none, some, List, ◌==◌, if◌then◌else◌, Option-cases,
}
use mark.PrioMap.Interface.{PriorityMap}
use mark.ThreadList.Ring.{head?}
use mark.Kernel.State.{Kernel, put_mailbox}
use mark.Kernel.Scheduler.{set_scheduler}
use mark.Kernel.Semaphore
use mark.Kernel.Semaphore.{post, pend_i}
use mark.Kernel.Message
use mark.Kernel.Message.{take_head}
use mark.Kernel.Mailbox
use mark.Kernel.Mailbox.{try_send, await_slot}
use mark.Kernel.Mailbox.Slots.{write_slot, read_slot}
use mark.Kernel.Sound.{IsSound}
use mark.Kernel.Sound.Scheduling.{if-Sound, if_pair-Sound, set_scheduler-Sound}
use mark.Kernel.Sound.Objects.{semaphore_init-Sound, post-Sound, pend_i-Sound}

module _ {M : Type 0} ⦃pm : PriorityMap M⦄ (num : ℕ) (fits : num ≤ pm.capacity) where
  abbrev Ok : Kernel M → Type 0
  Ok k = IsSound num k

  pub queue_init-Sound : (i : ℕ) (k : Kernel M) → Ok k → Ok (Message.init i k)
  unfolding Message.init
  queue_init-Sound i k h = semaphore_init-Sound num fits (k.queue i).semaphore 0 255 k h

  pub send-Sound : (i m : ℕ) (k : Kernel M) → Ok k → Ok (Message.send i m k)
  unfolding Message.send
  send-Sound i m k h = post-Sound num fits _ _ h

  take_head-Sound : (i : ℕ) (k : Kernel M) → Ok k → Ok (take_head i k).1
  unfolding take_head
  take_head-Sound i k h = elim (Option-cases (head? (k.queue i).messages)) [
    | inl e ↦ rw (e, take_head) h
    | inr (m, e) ↦ rw (e, take_head) h
  ]

  pub mailbox_init-Sound : (i a b : ℕ) (k : Kernel M) → Ok k → Ok (Mailbox.init i a b k)
  unfolding Mailbox.init
  mailbox_init-Sound i a b k h =
      let k₁ =
        put_mailbox i
          (record (k.mailbox i) {
            element_size = b;
            count = a / b;
            free = a / b;
            head = 0;
            tail = 0;
          })
          k in
      let h₁ : Ok k₁ = h in
      let k₂ = Semaphore.init (k₁.mailbox i).recv_sem 0 (k₁.mailbox i).free k₁ in
      semaphore_init-Sound num fits (k₂.mailbox i).send_sem 0 1 k₂
        (semaphore_init-Sound num fits (k₁.mailbox i).recv_sem 0 (k₁.mailbox i).free k₁ h₁)

  try_send-Sound :
      (i : ℕ) (tail : Bool) (e : List ℕ) (k : Kernel M) → Ok k → Ok (try_send i tail e k).1
  unfolding try_send
  try_send-Sound i tail e k h =
      if_pair-Sound num fits ((k.mailbox i).free == 0) (false, k)
        (true, put_mailbox i (write_slot tail e (k.mailbox i)) k) h h

  module _ (others : Kernel M → Kernel M)
      (others_ok : (k : Kernel M) → IsSound num k → IsSound num (others k)) where
    pub receive-Sound :
        (i t ms : ℕ) (k : Kernel M) → Ok k → Ok (Message.receive_i others i t ms k).1
    unfolding Message.receive_i
    receive-Sound i t ms k h =
        let r = pend_i others (k.queue i).semaphore t ms k in
        let h₁ : Ok r.1 = pend_i-Sound num fits others others_ok (k.queue i).semaphore t ms k h in
        if_pair-Sound num fits r.0 (take_head i r.1) (none, r.1) (take_head-Sound i r.1 h₁) h₁

    await_slot-Sound :
        (i t ms : ℕ) (b : Bool) (k : Kernel M) → Ok k → Ok (await_slot others i t ms b k)
    unfolding await_slot
    await_slot-Sound i t ms b k h =
        let k₁ = (set_scheduler b k).1 in
        let h₁ : Ok k₁ = set_scheduler-Sound num fits b k h in
        set_scheduler-Sound num fits false (pend_i others (k₁.mailbox i).send_sem t ms k₁).1
          (pend_i-Sound num fits others others_ok (k₁.mailbox i).send_sem t ms k₁ h₁)

    pub mailbox_send-Sound :
        (i t : ℕ) (tail : Bool) (ms : ℕ) (e : List ℕ) (k : Kernel M)
        → Ok k
        → Ok (Mailbox.send_i others i t tail ms e k).1
    unfolding Mailbox.send_i
    mailbox_send-Sound i t tail ms e k h =
        let r₁ = set_scheduler false k in
        let h₁ : Ok r₁.1 = set_scheduler-Sound num fits false k h in
        let r₂ = try_send i tail e r₁.1 in
        let h₂ : Ok r₂.1 = try_send-Sound i tail e r₁.1 h₁ in
        let waited = await_slot others i t ms r₁.0 r₂.1 in
        let h₃ : Ok (try_send i tail e waited).1 =
          try_send-Sound i tail e waited (await_slot-Sound i t ms r₁.0 r₂.1 h₂) in
        let r₃ =
          if r₂.0
          then (r₂.0, r₂.1)
          else if ms == 0
          then (r₂.0, r₂.1)
          else try_send i tail e waited in
        let h₄ : Ok r₃.1 =
          if_pair-Sound num fits r₂.0 (r₂.0, r₂.1)
            (if ms == 0 then (r₂.0, r₂.1) else try_send i tail e waited) h₂
            (if_pair-Sound num fits (ms == 0) (r₂.0, r₂.1) (try_send i tail e waited) h₂ h₃) in
        let k₅ = (set_scheduler r₁.0 r₃.1).1 in
        let h₅ : Ok k₅ = set_scheduler-Sound num fits r₁.0 r₃.1 h₄ in
        if-Sound num fits r₃.0 (post (k₅.mailbox i).recv_sem k₅).1 k₅
          (post-Sound num fits (k₅.mailbox i).recv_sem k₅ h₅) h₅

    pub mailbox_receive-Sound :
        (i t : ℕ) (tail : Bool) (ms : ℕ) (k : Kernel M)
        → Ok k
        → Ok (Mailbox.receive_i others i t tail ms k).1
    unfolding Mailbox.receive_i
    mailbox_receive-Sound i t tail ms k h =
        let r₁ = pend_i others (k.mailbox i).recv_sem t ms k in
        let h₁ : Ok r₁.1 = pend_i-Sound num fits others others_ok (k.mailbox i).recv_sem t ms k h in
        let r₂ = set_scheduler false r₁.1 in
        let h₂ : Ok r₂.1 = set_scheduler-Sound num fits false r₁.1 h₁ in
        let r₃ = read_slot tail (r₂.1.mailbox i) in
        let k₃ = put_mailbox i r₃.1 r₂.1 in
        let h₃ : Ok k₃ = h₂ in
        let k₄ = (set_scheduler r₂.0 k₃).1 in
        let h₄ : Ok k₄ = set_scheduler-Sound num fits r₂.0 k₃ h₃ in
        if_pair-Sound num fits r₁.0 (some r₃.0, (post (k₄.mailbox i).send_sem k₄).1) (none, r₁.1)
          (post-Sound num fits (k₄.mailbox i).send_sem k₄ h₄) h₁
