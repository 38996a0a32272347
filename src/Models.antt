-- ===== src/Models.antt =====
-- The records of src/kefu/persistence/models.py that the case desk and the routing directory work
-- on: the enumerations, and a record for each table. A UUID is a number, a moment is the number of
-- microseconds since the start of year 1 (UTC), and a text is a list of code points.
-- `updated_at`, the creation times that the database fills in and that no modelled operation reads,
-- and `current_developer_id`, which the application neither reads nor writes, have no field.
mod Enums
mod Equality
mod Rows
pub use Enums.*
pub use Equality.*
pub use Rows.*
