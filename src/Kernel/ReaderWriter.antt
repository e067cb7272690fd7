-- ===== src/Kernel/ReaderWriter.antt =====
-- `class ReaderWriterLock` of src/readerwriter.cpp.
use mark.Prelude.{ℕ, ◌+◌, ◌%◌, Bool, true, false, ◌==◌, if◌then◌else◌}
use mark.PrioMap.Interface.{PriorityMap}
use mark.Kernel.State.{Kernel, put_rwlock}
use mark.Kernel.Mutex
use mark.Kernel.Mutex.{claim, release}
use mark.Kernel.TimedMutex.{claim_timed}

module _ {M : Type 0} where
  abbrev pub put_read_count : ℕ → ℕ → Kernel M → Kernel M
  put_read_count i n k = put_rwlock i (record (k.rwlock i) { read_count = n }) k

  -- `ReaderWriterLock::Init`
  unfoldable pub init : ℕ → Kernel M → Kernel M
  init i k =
      let k₁ = put_read_count i 0 k in
      let k₂ = Mutex.init (k₁.rwlock i).global_mutex true k₁ in
      Mutex.init (k₂.rwlock i).reader_mutex true k₂

module _ {M : Type 0} ⦃pm : PriorityMap M⦄ (others : Kernel M → Kernel M) where
  -- `AcquireReader_i`; `t` is the address of the timers of the claims.
  unfoldable pub acquire_reader_i : ℕ → ℕ → ℕ → Kernel M → Bool × Kernel M
  acquire_reader_i i t ms k =
      let (entered, k₁) = claim_timed others (k.rwlock i).reader_mutex t ms k in
      if entered
      then (let n = ((k₁.rwlock i).read_count + 1) % 256 in
          let k₂ = put_read_count i n k₁ in
          let (rc, k₃) =
            if n == 1 then claim_timed others (k₂.rwlock i).global_mutex t ms k₂ else (true, k₂) in
          (rc, release (k₃.rwlock i).reader_mutex k₃))
      else (false, k₁)

  -- `ReleaseReader`
  unfoldable pub release_reader : ℕ → Kernel M → Kernel M
  release_reader i k =
      let k₁ = claim others (k.rwlock i).reader_mutex k in
      let n = ((k₁.rwlock i).read_count + 255) % 256 in
      let k₂ = put_read_count i n k₁ in
      let k₃ = if n == 0 then release (k₂.rwlock i).global_mutex k₂ else k₂ in
      release (k₃.rwlock i).reader_mutex k₃

  -- `AcquireWriter_i`
  unfoldable pub acquire_writer_i : ℕ → ℕ → ℕ → Kernel M → Bool × Kernel M
  acquire_writer_i i t ms k = claim_timed others (k.rwlock i).global_mutex t ms k

  -- `ReleaseWriter`
  unfoldable pub release_writer : ℕ → Kernel M → Kernel M
  release_writer i k = release (k.rwlock i).global_mutex k
