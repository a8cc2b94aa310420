-- ===== src/Base.antt =====
-- The names that the other modules share: the libraries', passed on, and those of the children.
mod Core
mod Text
mod Dict
mod Lists
mod Loops
mod Names
mod Panics
mod Suffix
pub use Core.*
unfoldable pub use Text.*
unfoldable pub use Dict.*
unfoldable pub use Lists.*
unfoldable pub use Loops.*
unfoldable pub use Names.*
unfoldable pub use Panics.*
unfoldable pub use Suffix.*
