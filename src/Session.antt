-- ===== src/Session.antt =====
-- The errors of src/kefu/case_desk/errors.py, and the database sessions that the services open:
-- the tables, statements that only read (`Query`), transactions (`Tx`) and their commit or rollback.
-- What a session takes from outside the program is an `Env`.
pub mod Query
pub mod Tx
mod Errors
mod Tables
pub use Errors.*
pub use Tables.*
