-- ===== src/Api.antt =====
-- internal/api: what the handlers answer.
pub mod Now
pub mod Board
pub mod History
pub mod RateLimit
