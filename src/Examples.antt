-- ===== src/Examples.antt =====
-- Tests: the theorems at concrete inputs. The children follow the parts of the program.
pub mod Data
pub mod Feeds
pub mod Matching
pub mod Ingesting
pub mod Pipelines
pub mod Storing
pub mod Serving
pub mod Polling
pub mod History
pub mod Maintenance
pub mod Timetables
pub mod Limits
pub mod Settings
pub mod Responses
pub mod Refreshing
pub mod Boards
