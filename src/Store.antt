-- ===== src/Store.antt =====
-- The database: the tables that the models of src declare, and a session's statements on them.
pub mod Tables
pub mod Session
unfoldable pub use Tables.*
unfoldable pub use Session.*
