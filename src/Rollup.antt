-- ===== src/Rollup.antt =====
-- internal/rollup: the partitions of the table of observations, the watermark, and one maintenance tick.
pub mod Partitions
pub mod Window
pub mod Tick
