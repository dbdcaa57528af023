-- ===== src/Store.antt =====
-- internal/store/sqlite: the measurement store. A table is the list of its rows, and an SQL
-- statement the function on lists that it stands for; SQLite itself is not modelled. Times are
-- microseconds of the Unix epoch, from 0 on.
pub mod Periodic
pub mod Pings
pub mod Writer
pub mod Recompute
pub mod Retention
pub mod Fresh
mod Scenarios
pub mod Interfaces
