-- ===== src/PrioMap.antt =====
-- The priority bitmaps of src/public/priomapl1.h and src/public/priomapl2.h: `PriorityMap` of
-- src/public/priomap.h is one of them. The type `T` of the templates is an unsigned word of
-- `bits = 2 ^ shift` bits, where `shift` is `m_uXPrioMapWordShift` of the lookup table.
pub mod Interface
pub mod Word
pub mod LevelOne
pub mod LevelTwo
mod Tests
