-- ===== src/Lock.antt =====
-- The interface between a lock and the threads that use it. Every source file of a lock declares
-- its shared variables, `lock` and `unlock`; here they become one step function, an access to
-- shared memory at a time, and a reading of where a thread stands.
mod Defs
pub mod Tokens
pub mod Tickets
pub mod Stutter
pub mod Line
pub use Defs.*
