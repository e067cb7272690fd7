-- ===== src/MemUtil/Memory.antt =====
-- Blocks of bytes: Checksum8, Checksum16, CopyMemory, CompareMemory and SetMemory of
-- lib/memutil/memutil.cpp. The length counts down, so each loop is a recursion on it.
pub mod Blocks
pub mod Sums
use mark.Prelude.{ℕ, zero, suc, ◌+◌, ◌%◌, ◌^◌, Bool, true, false, update, ◌==◌, if◌then◌else◌}

abbrev pub Memory : Type 0
Memory = ℕ → ℕ

unfoldable pub sum_from : ℕ → ℕ → ℕ → ℕ → Memory → ℕ
sum_from width acc at zero m = acc
sum_from width acc at (suc n) m = sum_from width ((acc + m at) % 2 ^ width) (at + 1) n m

unfoldable pub checksum8 : ℕ → ℕ → Memory → ℕ
unfolding sum_from
checksum8 src len m = sum_from 8 0 src len m

unfoldable pub checksum16 : ℕ → ℕ → Memory → ℕ
unfolding sum_from
checksum16 src len m = sum_from 16 0 src len m

unfoldable pub copy_memory : ℕ → ℕ → ℕ → Memory → Memory
copy_memory dst src zero m = m
copy_memory dst src (suc n) m = copy_memory (dst + 1) (src + 1) n (update m dst (m src))

unfoldable pub compare_memory : ℕ → ℕ → ℕ → Memory → Bool
compare_memory a b zero m = true
compare_memory a b (suc n) m =
    let rest = compare_memory (a + 1) (b + 1) n m in if m a == m b then rest else false

unfoldable pub set_memory : ℕ → ℕ → ℕ → Memory → Memory
set_memory dst val zero m = m
set_memory dst val (suc n) m = set_memory (dst + 1) val n (update m dst val)
