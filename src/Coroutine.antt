-- ===== src/Coroutine.antt =====
-- Coroutines: src/colist.cpp, src/cosched.cpp and src/coroutine.cpp. The list 0 is the stop list, and
-- the list `p + 1` is that of the priority `p`. `PORT_COROUTINE_PRIORITIES`, which a byte holds, is the
-- `capacity` that the interface of the map gives: the map may have room for more.
pub mod Members
pub mod Sound
pub mod Moves
pub mod Keeps
pub mod Choice
pub mod Boot
pub mod Runs
pub mod Task
mod Tests
use mark.Prelude.{
  ℕ, zero, suc, ◌+◌, ◌-◌, Bool, true, false, not, Option, none, some, List, [], update, opt_eq, leb,
  ◌==◌, if◌then◌else◌,
}
use mark.PrioMap.Interface.{PriorityMap}
use mark.ThreadList.Ring.{push_back, pivot_forward, remove_node, contains, head?, nonempty}

-- `class Coroutine`
pub record Coroutine : Type 0 where
  pub owner : Option ℕ
  pub handler : ℕ
  pub context : ℕ
  pub priority : ℕ
  pub queued : Bool

-- `class CoList`; `mapped` says whether the pointer to the map is set.
pub record CoList : Type 0 where
  pub members : List ℕ
  pub mapped : Bool
  pub priority : ℕ

-- The statics of `CoScheduler`, and the coroutines at their addresses.
pub record CoScheduler (M : Type 0) : Type 0 where
  pub list : ℕ → CoList
  pub map : M
  pub coroutine : ℕ → Coroutine
  pub panicked : Bool
  pub faulted : Bool

abbrev pub stop_list : ℕ
stop_list = 0

-- `CoScheduler::GetCoList`, where `count` is `PORT_COROUTINE_PRIORITIES`.
abbrev pub get_co_list : ℕ → ℕ → Option ℕ
get_co_list count p = if leb count p then none else some (suc p)

module _ {M : Type 0} where
  abbrev pub put_coroutine : ℕ → Coroutine → CoScheduler M → CoScheduler M
  put_coroutine c v s = record s { coroutine = update s.coroutine c v }

  abbrev pub set_owner : ℕ → Option ℕ → CoScheduler M → CoScheduler M
  set_owner c o s = put_coroutine c (record (s.coroutine c) { owner = o }) s

  abbrev pub set_queued : ℕ → Bool → CoScheduler M → CoScheduler M
  set_queued c b s = put_coroutine c (record (s.coroutine c) { queued = b }) s

module _ {M : Type 0} ⦃pm : PriorityMap M⦄ where
  -- `CoList::Add` and `CoList::Remove`. The removal of a coroutine that is not on the list follows its
  -- links to another list or through null, which `faulted` says.
  unfoldable pub list_add : ℕ → ℕ → CoScheduler M → CoScheduler M
  list_add l c s =
      let q = s.list l in
      record s {
        list = update s.list l (record q { members = pivot_forward (push_back q.members c) });
        map = if q.mapped then pm.set q.priority s.map else s.map;
      }

  unfoldable pub list_remove : ℕ → ℕ → CoScheduler M → CoScheduler M
  list_remove l c s =
      let q = s.list l in
      let xs = remove_node q.members c in
      record s {
        list = update s.list l (record q { members = xs });
        faulted = if contains q.members c then s.faulted else true;
        map =
            if q.mapped then (if nonempty xs then s.map else pm.clear q.priority s.map) else s.map;
      }

  -- `m_pclOwner->Add(this)` and `m_pclOwner->Remove(this)`
  unfoldable pub owner_add : ℕ → CoScheduler M → CoScheduler M
  unfolding list_add
  owner_add c s = elim (s.coroutine c).owner [
    | none ↦ record s { faulted = true }
    | some l ↦ list_add l c s
  ]

  unfoldable pub owner_remove : ℕ → CoScheduler M → CoScheduler M
  unfolding list_remove
  owner_remove c s = elim (s.coroutine c).owner [
    | none ↦ record s { faulted = true }
    | some l ↦ list_remove l c s
  ]

  -- `CoScheduler::Init`: the stop list is emptied, and the first `n` lists get their priority and the
  -- map.
  unfoldable pub init_lists : ℕ → CoScheduler M → CoScheduler M
  init_lists zero s = s
  init_lists (suc p) s =
      let rest = init_lists p s in
      record rest {
        list =
            update rest.list (suc p) (record (rest.list (suc p)) { mapped = true; priority = p });
      }

  unfoldable pub init_scheduler : CoScheduler M → CoScheduler M
  unfolding init_lists
  init_scheduler s =
      init_lists pm.capacity
        (record s { list = update s.list stop_list (record (s.list stop_list) { members = [] }) })

  -- `CoScheduler::Schedule`
  unfoldable pub schedule : CoScheduler M → Option ℕ
  schedule s =
      let prio = pm.highest_priority s.map in
      if prio == 0 then none else head? (s.list (suc (prio - 1))).members

  -- `Coroutine::Init`
  unfoldable pub init : ℕ → ℕ → ℕ → ℕ → CoScheduler M → CoScheduler M
  unfolding owner_add
  init c priority handler context s = owner_add c (
      put_coroutine c
        (record {
          owner = some stop_list;
          handler = handler;
          context = context;
          priority = priority;
          queued = false;
        })
        s)

  -- The destructor.
  unfoldable pub destroy : ℕ → CoScheduler M → CoScheduler M
  unfolding owner_remove
  destroy c s =
      let stopped = opt_eq (s.coroutine c).owner (some stop_list) in
      owner_remove c (record s { panicked = if stopped then s.panicked else true })

  -- The critical section of `Coroutine::Run`.
  unfoldable pub dequeue : ℕ → CoScheduler M → CoScheduler M
  unfolding owner_add owner_remove
  dequeue c s = set_queued c false (owner_add c (set_owner c (some stop_list) (owner_remove c s)))

  -- `Coroutine::Run`; the handlers are functions of the program.
  unfoldable pub run :
      (ℕ → ℕ → ℕ → CoScheduler M → CoScheduler M) → ℕ → CoScheduler M → CoScheduler M
  unfolding dequeue
  run handlers c s =
      let s' = dequeue c s in handlers (s'.coroutine c).handler c (s'.coroutine c).context s'

  -- `Coroutine::Activate`
  unfoldable pub activate : ℕ → CoScheduler M → CoScheduler M
  unfolding owner_add owner_remove
  activate c s =
      if (s.coroutine c).queued
      then s
      else let out = owner_remove c s in
        set_queued c true
          (owner_add c (set_owner c (get_co_list pm.capacity (out.coroutine c).priority) out))

  -- `Coroutine::SetPriority`
  unfoldable pub set_priority : ℕ → ℕ → CoScheduler M → CoScheduler M
  unfolding owner_add owner_remove
  set_priority c priority s =
      let out = owner_remove c s in
      let ranked = put_coroutine c (record (out.coroutine c) { priority = priority }) out in
      let target =
        if (ranked.coroutine c).queued then get_co_list pm.capacity priority else some stop_list in
      owner_add c (set_owner c target ranked)
