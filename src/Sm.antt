-- ===== src/Sm.antt =====
-- bleps/src/sm.rs: the security manager, which answers the pairing of a peer (LE Secure Connections
-- with numeric comparison). The types are in `State`, the handlers in `Handlers`.
mod State
mod Handlers
pub mod Replies
pub mod Steps
pub mod Consistent
pub mod Pairing
pub mod Unchecked
pub mod Refusals
pub mod Keeping
pub mod Order
pub mod Total
unfoldable pub use State.*
unfoldable pub use Handlers.*
