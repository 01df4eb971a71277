-- ===== src/World.antt =====
-- What the handlers of internal/server work on: the database behind its pool, the clock, the
-- randomness, Redis, and the limiters; and the code that the repository only calls.
pub mod Env
pub mod Monad
pub mod Ensures
pub mod Ends
pub mod Objects
