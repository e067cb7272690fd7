-- ===== src/Kernel/Message.antt =====
-- `class MessagePool` and `class MessageQueue` of src/message.cpp, over lists of messages. The links
-- are in the messages: a queue that gets a message that it holds already is `broken`.
pub mod Laws
use mark.Prelude.{ℕ, Bool, true, false, Option, none, some, List, [], ◌∷◌, ◌++◌, if◌then◌else◌}
use mark.PrioMap.Interface.{PriorityMap}
use mark.ThreadList.Ring.{push_back, remove_node, contains, head?}
use mark.Kernel.State.{Kernel, MessageQueue, put_queue, fault}
use mark.Kernel.Semaphore
use mark.Kernel.Semaphore.{post, pend_i}

-- `MessagePool::Push` and `Pop`, on the list of the pool.
unfoldable pub pool_push : ℕ → List ℕ → List ℕ
pool_push m pool = push_back pool m

unfoldable pub pool_pop : List ℕ → Option ℕ × List ℕ
pool_pop pool = elim (head? pool) [ none ↦ (none, pool) | some m ↦ (some m, remove_node pool m) ]

module _ {M : Type 0} where
  -- `MessageQueue::Init`
  unfoldable pub init : ℕ → Kernel M → Kernel M
  init i k = Semaphore.init (k.queue i).semaphore 0 255 k

  -- The part of `Receive_i` in the critical section; an empty list is a null dereference.
  unfoldable pub take_head : ℕ → Kernel M → Option ℕ × Kernel M
  take_head i k = elim (head? (k.queue i).messages) [
    | none ↦ (none, fault k)
    | some m ↦ (
      some m,
      put_queue i (record (k.queue i) { messages = remove_node (k.queue i).messages m }) k,
    )
  ]

module _ {M : Type 0} ⦃pm : PriorityMap M⦄ where
  -- `MessageQueue::Send`
  unfoldable pub send : ℕ → ℕ → Kernel M → Kernel M
  send i m k =
      let q = k.queue i in
      let k' =
        put_queue i
          (record q {
            messages = push_back q.messages m;
            broken = if contains q.messages m then true else q.broken;
          })
          k in
      (post (k'.queue i).semaphore k').1

  -- `MessageQueue::Receive_i`; `t` is the address of the timer of the pend.
  unfoldable pub receive_i :
      (others : Kernel M → Kernel M) → ℕ → ℕ → ℕ → Kernel M → Option ℕ × Kernel M
  receive_i others i t ms k =
      let (arrived, k') = pend_i others (k.queue i).semaphore t ms k in
      if arrived then take_head i k' else (none, k')
