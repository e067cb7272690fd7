-- ===== src/AutoAlloc.antt =====
-- The hooks of the heap: src/autoalloc.cpp and src/public/autoalloc.h. The heap `H` is the program's,
-- with the functions that it sets; types are the codes of `AutoAllocType`, and objects their addresses.
use mark.Prelude.{ℕ, Option, none, some}

abbrev pub mail_box : ℕ
mail_box = 1

abbrev pub raw : ℕ
raw = 255

-- The statics of `AutoAlloc`.
pub record AutoAlloc (H : Type 0) : Type 0 where
  pub allocator : Option (ℕ → ℕ → H → Option ℕ × H)
  pub free : Option (ℕ → ℕ → H → H)

module _ {H : Type 0} where
  unfoldable pub init : AutoAlloc H
  init = record { allocator = none; free = none }

  unfoldable pub set_allocator_functions :
      Option (ℕ → ℕ → H → Option ℕ × H) → Option (ℕ → ℕ → H → H) → AutoAlloc H
  set_allocator_functions allocator free = record { allocator = allocator; free = free }

  unfoldable pub allocate : AutoAlloc H → ℕ → ℕ → H → Option ℕ × H
  allocate a type size h = elim a.allocator [
    | none ↦ (none, h)
    | some allocator ↦ allocator type size h
  ]

  unfoldable pub free_object : AutoAlloc H → ℕ → ℕ → H → H
  free_object a type object h = elim a.free [ none ↦ h | some free ↦ free type object h ]

  abbrev pub new_user_type_allocation : AutoAlloc H → ℕ → H → Option ℕ × H
  new_user_type_allocation a type h = allocate a type 0 h

  abbrev pub destroy_user_type_allocation : AutoAlloc H → ℕ → ℕ → H → H
  destroy_user_type_allocation a type object h = free_object a type object h

  abbrev pub new_raw_data : AutoAlloc H → ℕ → H → Option ℕ × H
  new_raw_data a size h = allocate a raw size h

  abbrev pub destroy_raw_data : AutoAlloc H → ℕ → H → H
  destroy_raw_data a buffer h = free_object a raw buffer h
