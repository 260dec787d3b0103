-- ===== src/Feed.antt =====
-- internal/feed: how the upstream is polled.
pub mod Limiter
pub mod Poller
