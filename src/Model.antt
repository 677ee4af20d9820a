-- ===== src/Model.antt =====
-- The tables of the program (app/models/): the enumerations, the rows, and the database.
pub mod Enums
pub mod Rows
pub mod Proposals
pub mod Tables
unfoldable pub use Enums.*
unfoldable pub use Rows.*
unfoldable pub use Proposals.*
unfoldable pub use Tables.*
