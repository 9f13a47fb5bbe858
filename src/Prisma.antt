-- ===== src/Prisma.antt =====
-- The outside world of a request: the tables of a tenant, the order queues, and the calls of
-- @prisma/client that change them.
pub mod Monad
pub mod Rows
pub mod Client
pub mod Effects
pub mod Laws
pub mod Inversion
pub use Monad.*
pub use Client.*
