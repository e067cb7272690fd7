-- ===== src/Streamer.antt =====
-- The ring of bytes of lib/streamer: the state of the class `Streamer` and its operations. An index
-- stands for the address of a slot of the buffer, and the slot at the buffer's size for the byte
-- behind it. A critical section is one function.
pub mod Bytes
pub mod Blocks
pub mod Ring
mod Tests
use mark.Prelude.{ℕ, Option, none}

pub record Streamer : Type 0 where
  pub buffer : ℕ → ℕ
  pub lock_addr : Option ℕ
  pub size : ℕ
  pub avail : ℕ
  pub head : ℕ
  pub tail : ℕ

unfoldable pub init : (ℕ → ℕ) → ℕ → Streamer
init buffer size = record {
  buffer = buffer;
  lock_addr = none;
  size = size;
  avail = size;
  head = 0;
  tail = 0;
}
