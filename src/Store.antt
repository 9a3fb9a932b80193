-- ===== src/Store.antt =====
-- The tables of the `finance` schema that the service reads and writes, and actions on them.
mod Journal
mod Documents
mod Assets
mod Tables
mod Calls
pub use Journal.*
pub use Documents.*
pub use Assets.*
pub use Tables.*
pub use Calls.*
