-- ===== src/Kernel/Tests/Creation.antt =====
-- The allocating `Init` of src/mailbox.cpp over a heap that gives one address after another and refuses
-- large objects.
use mark.Prelude.{
  ℕ, suc, [], ◌∷◌, ◌≡◌, refl, Bool, true, false, not, ◌&&◌, ◌||◌, Option, none, some, arith, update,
  inl, inr, ◌==◌, leb, if◌then◌else◌, Bool-cases,
}
use mark.AutoAlloc.{AutoAlloc, set_allocator_functions, allocate, free_object}
use mark.Kernel.Mailbox.Creation.{
  init_new, IsHeap, Creation, new_object, finish, kernel_assert, refusals, init_new-Creation,
}
use mark.Kernel.Tests.{system}

record Heap : Type 0 where
  next : ℕ
  used : ℕ → Bool

abbrev give : ℕ → ℕ → Heap → Option ℕ × Heap
give type size h =
    if leb size 100 && not (h.used h.next)
    then (some h.next, record { next = suc h.next; used = update h.used h.next true })
    else (none, h)

abbrev take_back : ℕ → ℕ → Heap → Heap
take_back type o h = record h { used = update h.used o false }

abbrev hooks : AutoAlloc Heap
hooks = set_allocator_functions (some give) (some take_back)

abbrev empty_heap : Heap
empty_heap = record { next = 1; used = λ z. false }

given :
    (size o : ℕ) (h : Heap)
    → (give 0 size h).0 ≡ some o
    → (h.used o ≡ false) × ((z : ℕ) → (give 0 size h).1.used z ≡ (z == o || h.used z))
given size o h e = elim (Bool-cases (leb size 100 && not (h.used h.next))) [
  | inl room ↦ let same : some h.next ≡ some o = rw room at e in ground (arith, same, room)
  | inr full ↦ absurd (ground (arith, rw full at e))
]

not_given :
    (size : ℕ) (h : Heap) → (give 0 size h).0 ≡ none → (z : ℕ) → (give 0 size h).1.used z ≡ h.used z
not_given size h e z = elim (Bool-cases (leb size 100 && not (h.used h.next))) [
  | inl room ↦ absurd (ground (arith, rw room at e))
  | inr full ↦ rw full refl
]

hooks-IsHeap : IsHeap hooks (λ (h : Heap). h.used)
unfolding set_allocator_functions allocate free_object
hooks-IsHeap = record {
  allocates = λ type size h o e. given size o h e;
  refuses = λ type size h e z. not_given size h e z;
  frees = λ type o h z. ground arith;
}

-- A mailbox of 40 bytes and a buffer of 16.
abbrev heap_after : Heap
heap_after = (init_new hooks 40 true 16 4 empty_heap (system 30)).1

got_both : (init_new hooks 40 true 16 4 empty_heap (system 30)).0 ≡ some 1
unfolding init_new set_allocator_functions allocate new_object finish
got_both = refl

-- The mailbox is refused, and its buffer stays.
buffer_stays : (init_new hooks 400 true 16 4 empty_heap (system 30)).1.used 1 ≡ true
unfolding init_new set_allocator_functions allocate new_object finish
buffer_stays = refl

-- The assertion that there is a mailbox fails.
asserted : (init_new hooks 400 true 16 4 empty_heap (system 30)).2.panics ≡ 1 ∷ []
unfolding init_new set_allocator_functions allocate new_object finish kernel_assert
asserted = refl

init_new-Creation_example :
    Creation (λ z. false) heap_after.used (some 1) (some 2) (some 1)
    × ((init_new hooks 40 true 16 4 empty_heap (system 30)).2.panics ≡ [])
unfolding init_new set_allocator_functions allocate new_object finish refusals
init_new-Creation_example =
    init_new-Creation hooks 40 (λ (h : Heap). h.used) hooks-IsHeap true 16 4 empty_heap (system 30)
      (omega arith) (omega arith)
