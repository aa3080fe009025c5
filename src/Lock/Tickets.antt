-- ===== src/Lock/Tickets.antt =====
-- Locks that hand out tickets: the threads with a ticket stand in a queue, their tickets count up
-- from the turn modulo a bound, and the first of them is served.
mod Defs
mod Queue
mod Steps
mod Give
mod Results
mod Waiting
pub use Defs.*
pub use Queue.{Queued}
pub use Results.{ticket_laws, laws-Queued}
pub use Waiting.*
