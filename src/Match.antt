-- ===== src/Match.antt =====
-- internal/match: realtime updates resolved against the timetable.
pub mod Schedule
pub mod Counts
pub mod Resolve
pub mod Dates
pub mod Matcher
