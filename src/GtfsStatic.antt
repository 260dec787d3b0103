-- ===== src/GtfsStatic.antt =====
-- internal/gtfsstatic: the timetable bundle, from its CSV files to the active version in the database.
pub mod Row
pub mod Tables
pub mod Bundle
pub mod Versions
pub mod Memory
pub mod Publish
pub mod Refresh
