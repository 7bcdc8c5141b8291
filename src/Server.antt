-- ===== src/Server.antt =====
-- bleps/src/attribute_server.rs: the attribute server without the `crypto` feature. The handlers
-- of single requests are in `Handlers`, the numbering of the attributes in `Setup`.
mod State
mod Handlers
mod Setup
mod Work
mod Commands
pub mod Replies
pub mod Handles
pub mod Groups
pub mod Lookup
pub mod Discovery
pub mod Reads
pub mod Writes
pub mod Information
pub mod Invariant
pub mod Service
unfoldable pub use State.*
unfoldable pub use Handlers.*
unfoldable pub use Setup.*
unfoldable pub use Work.*
unfoldable pub use Commands.*
