-- ===== src/Worker.antt =====
-- The program around a lock, which the sources share: `main` starts the threads, each of which runs
-- `count`, a loop of `lock`, `counter += 1` and `unlock`, and prints the counter when all are done.
mod Defs
mod Shape
mod Invariant
mod Cost
mod Ended
mod Progress
mod Results
mod Tasks
unfoldable pub use Tasks.*
unfoldable pub use Shape.{hits}
pub use Results.{prints, prints_plain, excludes, reached, expected, expected-plain}
unfoldable pub use Defs.*
