-- ===== src/Config.antt =====
-- internal/config: what the environment says, and the rules that it has to meet.
pub mod Env
pub mod Rules
pub mod Feeds
