-- ===== src/Kernel/Mailbox/Creation.antt =====
-- The `Init` of src/mailbox.cpp that gets the mailbox and its buffer from the heap, and what it leaves
-- there.
use mark.Prelude.{
  ℕ, ◌<◌, ◌≡◌, ◌≢◌, List, [], ◌∷◌, ◌++◌, if◌then◌else◌, refl, sym, subst, ap, ◌∙◌, inl, inr, Bool,
  true, false, not, ◌&&◌, ◌||◌, Option, none, some, arith, ◌==◌, Option-cases, update, update-own,
  if_true,
}
use mark.Kernel.State.{Kernel, Mailbox, put_mailbox}
use mark.Kernel.Semaphore
use mark.Kernel.Mailbox.{init, destroy}
use mark.AutoAlloc.{AutoAlloc, mail_box, raw, allocate, free_object, new_raw_data}

abbrev pub panic_assert_failed : ℕ
panic_assert_failed = 1

-- `KERNEL_ASSERT`, which is checked where `KERNEL_DEBUG` is set.
unfoldable pub kernel_assert : {M : Type 0} → Bool → Bool → Kernel M → Kernel M
kernel_assert debug holds k = record k {
  panics = if debug && not holds then panic_assert_failed ∷ k.panics else k.panics;
}

abbrev is_some : Option ℕ → Bool
is_some none = false
is_some (some x) = true

module _ {M H : Type 0} (a : AutoAlloc H) (size_of_mailbox : ℕ) where
  -- A new mailbox is zero.
  unfoldable construct : ℕ → Kernel M → Kernel M
  construct i k =
      put_mailbox i
        (record (k.mailbox i) { element_size = 0; count = 0; free = 0; head = 0; tail = 0 }) k

  -- `AutoAlloc::NewObject` and `AutoAlloc::DestroyObject` of a mailbox
  unfoldable pub new_object : H → Kernel M → Option ℕ × H × Kernel M
  unfolding construct
  new_object h k =
      let (object, h₁) = allocate a mail_box size_of_mailbox h in
      (object, h₁, elim object [ none ↦ k | some i ↦ construct i k ])

  unfoldable pub destroy_object : ℕ → H → Kernel M → H × Kernel M
  destroy_object i h k = (free_object a mail_box i h, destroy i k)

  -- The tests of the two pointers, and what follows.
  unfoldable pub finish :
      (buffer_size element_size : ℕ) (object buffer : Option ℕ)
      → H
      → Kernel M
      → Option ℕ × H × Kernel M
  unfolding destroy_object
  finish buffer_size element_size object buffer h k = elim object [
    | none ↦ (none, h, k)
    | some i ↦ elim buffer [
      | none ↦ (let (h', k') = destroy_object i h k in (none, h', k'))
      | some b ↦ (some i, h, init i buffer_size element_size k)
    ]
  ]

  -- `debug` is `KERNEL_DEBUG`.
  unfoldable pub init_new :
      (debug : Bool) (buffer_size element_size : ℕ) → H → Kernel M → Option ℕ × H × Kernel M
  unfolding new_object finish kernel_assert
  init_new debug buffer_size element_size h k =
      let checked =
        kernel_assert debug (not (element_size == 0))
          (kernel_assert debug (not (buffer_size == 0)) k) in
      let (object, h₁, k₁) = new_object h checked in
      let (buffer, h₂) = new_raw_data a buffer_size h₁ in
      finish buffer_size element_size object buffer h₂
        (kernel_assert debug (is_some buffer) (kernel_assert debug (is_some object) k₁))

-- What the heap is documented to do, for the addresses that are in use.
pub record IsHeap {H : Type 0} (a : AutoAlloc H) (live : H → ℕ → Bool) : Type 0 where
  pub allocates :
      (type size : ℕ) (h : H) (o : ℕ)
      → (allocate a type size h).0 ≡ some o
      → (live h o ≡ false) × ((z : ℕ) → live (allocate a type size h).1 z ≡ (z == o || live h z))
  pub refuses :
      (type size : ℕ) (h : H)
      → (allocate a type size h).0 ≡ none
      → (z : ℕ) → live (allocate a type size h).1 z ≡ live h z
  pub frees :
      (type o : ℕ) (h : H) (z : ℕ) → live (free_object a type o h) z ≡ (not (z == o) && live h z)

-- How the addresses in use change, by what the heap gives for the mailbox and for the buffer, and the
-- result.
pub data Creation (before after : ℕ → Bool) : Option ℕ → Option ℕ → Option ℕ → Type 0 where
  built :
      (i b : ℕ)
      → before i ≡ false
      → before b ≡ false
      → i ≢ b
      → ((z : ℕ) → after z ≡ (z == b || (z == i || before z)))
      → Creation before after (some i) (some b) (some i)
  given_back : (i : ℕ) → ((z : ℕ) → after z ≡ before z) → Creation before after (some i) none none
  refused : ((z : ℕ) → after z ≡ before z) → Creation before after none none none
  leaked :
      (b : ℕ)
      → before b ≡ false
      → ((z : ℕ) → after z ≡ (z == b || before z))
      → Creation before after none (some b) none

-- One failed assertion for each null pointer that the heap gives, where assertions are checked.
unfoldable pub refusals : Bool → Option ℕ → Option ℕ → List ℕ
refusals false object buffer = []
refusals true none none = panic_assert_failed ∷ panic_assert_failed ∷ []
refusals true none (some b) = panic_assert_failed ∷ []
refusals true (some i) none = panic_assert_failed ∷ []
refusals true (some i) (some b) = []

module _ {M H : Type 0} (a : AutoAlloc H) (size_of_mailbox : ℕ) (live : H → ℕ → Bool)
    (r : IsHeap a live) (debug : Bool) (buffer_size element_size : ℕ) (h : H) (k : Kernel M) where
  abbrev object : Option ℕ
  object = (allocate a mail_box size_of_mailbox h).0

  abbrev between : H
  between = (allocate a mail_box size_of_mailbox h).1

  abbrev buffer : Option ℕ
  buffer = (new_raw_data a buffer_size between).0

  abbrev created : Option ℕ × H × Kernel M
  created = init_new a size_of_mailbox debug buffer_size element_size h k

  abbrev last_heap : H
  last_heap = (new_raw_data a buffer_size between).1

  -- Where the buffer is got and not the mailbox, nothing gives it back.
  without_object : object ≡ none → Creation (live h) (live last_heap) none buffer none
  without_object no_object =
      let kept = r.refuses mail_box size_of_mailbox h no_object in
      elim (Option-cases buffer) [
        | inl no_buffer ↦
            subst (λ b. Creation (live h) (live last_heap) none b none) (sym no_buffer)
              (refused (λ z. r.refuses raw buffer_size between no_buffer z ∙ kept z))
        | inr (b, a_buffer) ↦
            let (fresh, more) = r.allocates raw buffer_size between b a_buffer in
            subst (λ b. Creation (live h) (live last_heap) none b none) (sym a_buffer)
              (leaked b (sym (kept b) ∙ fresh) (λ z. more z ∙ ap (λ v. z == b || v) (kept z)))
      ]

  -- Where the mailbox is got and not the buffer, the mailbox is given back.
  without_buffer :
      (i : ℕ)
      → object ≡ some i
      → buffer ≡ none
      → Creation (live h) (live (free_object a mail_box i last_heap)) (some i) none none
  without_buffer i an_object no_buffer =
      let (fresh, more) = r.allocates mail_box size_of_mailbox h i an_object in
      given_back i (λ z. ground (
        arith,
        r.frees mail_box i last_heap z,
        r.refuses raw buffer_size between no_buffer z,
        more z,
        fresh,
      ))

  with_both :
      (i b : ℕ)
      → object ≡ some i
      → buffer ≡ some b
      → Creation (live h) (live last_heap) (some i) (some b) (some i)
  with_both i b an_object a_buffer =
      let (fresh, more) = r.allocates mail_box size_of_mailbox h i an_object in
      let (fresh', more') = r.allocates raw buffer_size between b a_buffer in
      built i b fresh (ground (arith, more b, fresh')) (λ e. ground (arith, more b, fresh', e))
        (λ z. more' z ∙ ap (λ v. z == b || v) (more z))

  abbrev sized : Kernel M
  sized =
      kernel_assert debug (not (element_size == 0)) (kernel_assert debug (not (buffer_size == 0)) k)

  -- The kernel after the assertions on what the heap gave.
  abbrev checked : Kernel M
  checked = kernel_assert debug (is_some buffer) (
      kernel_assert debug (is_some object)
        (elim object [ none ↦ sized | some i ↦ construct a size_of_mailbox i sized ]))

  -- What `finish` leaves of the heap.
  abbrev Outcome : Option ℕ → Option ℕ → Type 0
  Outcome o b =
      let end = finish a size_of_mailbox buffer_size element_size o b last_heap checked in
      Creation (live h) (live end.1) o b end.0

  init_new_leaves : Creation (live h) (live created.1) object buffer created.0
  unfolding init_new new_object finish destroy_object
  init_new_leaves = elim (Option-cases object) [
    | inl no_object ↦ subst (λ o. Outcome o buffer) (sym no_object) (without_object no_object)
    | inr (i, an_object) ↦
        subst (λ o. Outcome o buffer) (sym an_object)
          (elim (Option-cases buffer) [
            | inl no_buffer ↦
                subst (λ b. Outcome (some i) b) (sym no_buffer)
                  (without_buffer i an_object no_buffer)
            | inr (b, a_buffer) ↦
                subst (λ b. Outcome (some i) b) (sym a_buffer) (with_both i b an_object a_buffer)
          ])
  ]

  sized_quiet : 0 < buffer_size → 0 < element_size → sized.panics ≡ k.panics
  unfolding kernel_assert
  sized_quiet some_bytes some_size = ground (arith, some_bytes, some_size)

  -- The destructor of a mailbox that is given back finds it empty.
  give_back_quiet :
      (i : ℕ) (k' : Kernel M) → (destroy i (construct a size_of_mailbox i k')).panics ≡ k'.panics
  unfolding construct destroy
  give_back_quiet i k' =
      let v : Mailbox = record (k'.mailbox i) {
        element_size = 0;
        count = 0;
        free = 0;
        head = 0;
        tail = 0;
      } in
      let empty : ((update k'.mailbox i v i).free == (update k'.mailbox i v i).count) ≡ true =
        ap (λ (mb : Mailbox). mb.free == mb.count) (update-own k'.mailbox i v) in
      ap (λ (s : Kernel M). s.panics) (if_true _ _ empty)

  finish_panics :
      (d : Bool) (o b : Option ℕ) (h' : H)
      → (finish a size_of_mailbox buffer_size element_size o b h' (
          kernel_assert d (is_some b) (
            kernel_assert d
              (is_some o)
              (elim o [ none ↦ sized | some i ↦ construct a size_of_mailbox i sized ])))).2.panics
        ≡ refusals d o b ++ sized.panics
  unfolding finish destroy_object construct init Semaphore.init kernel_assert refusals
  finish_panics false none none h' = refl
  finish_panics false none (some b) h' = refl
  finish_panics false (some i) none h' = give_back_quiet i sized
  finish_panics false (some i) (some b) h' = refl
  finish_panics true none none h' = refl
  finish_panics true none (some b) h' = refl
  finish_panics true (some i) none h' =
      give_back_quiet i (record sized { panics = panic_assert_failed ∷ sized.panics })
  finish_panics true (some i) (some b) h' = refl

  -- With a heap that gives addresses that are not in use, the `Init` that allocates returns the
  -- mailbox, and both addresses are new and differ, when it gets the mailbox and the buffer; it
  -- returns null and leaves in use what was when it gets the mailbox and not the buffer, or neither;
  -- and when it gets the buffer and not the mailbox it returns null and the buffer stays in use. For
  -- sizes above zero, an assertion fails for each null pointer where assertions are checked, and
  -- there is no other panic.
  pub init_new-Creation :
      0 < buffer_size
      → 0 < element_size
      → Creation (live h) (live created.1) object buffer created.0
        × (created.2.panics ≡ refusals debug object buffer ++ k.panics)
  unfolding init_new new_object
  init_new-Creation some_bytes some_size = (
    init_new_leaves,
    finish_panics debug object buffer last_heap
        ∙ ap (λ ps. refusals debug object buffer ++ ps) (sized_quiet some_bytes some_size),
  )
