-- ===== src/Store.antt =====
-- internal/store: how the program calls its database. The statements and the pool are outside.
pub mod Retry
pub mod Migrate
