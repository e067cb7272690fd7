-- ===== src/Kernel.antt =====
-- The kernel's state and the modules that work on it.
pub mod State
pub mod Stack
pub mod Quantum
pub mod Scheduler
pub mod Blocking
pub mod Priority
pub mod Mutex
pub mod TimerList
pub mod Timer
pub mod Semaphore
pub mod Notify
pub mod EventFlag
pub mod TimedMutex
pub mod CondVar
pub mod ReaderWriter
pub mod Message
pub mod Mailbox
pub mod Thread
pub mod Expiry
pub mod Quiet
pub mod Sound
pub mod Choice
pub mod Boot
pub mod Runs
mod Tests
