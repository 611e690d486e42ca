-- ===== src/Script.antt =====
-- How a Node script is modelled: statements that pass a state on and can throw, exit or wait, run
-- against an environment that answers each call. It is about no one file of the repository.
mod Monad
mod Run
mod Values
pub mod Post
pub mod Discipline
pub mod Blocks
pub mod Growth
unfoldable pub use Monad.*
unfoldable pub use Run.*
pub use Values.*
