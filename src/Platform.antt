-- ===== src/Platform.antt =====
-- What the modules of the backend run on: the exceptions, the world that a request reads and
-- changes, and the services that the program calls and does not implement.
mod Monad
mod Groups
mod Client
mod Services
pub use Monad.*
unfoldable pub use Groups.*
pub use Client.*
pub use Services.*
mod Tokens
pub mod Memory
pub mod Keeps
