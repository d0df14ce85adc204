-- ===== src/RequestHandler.antt =====
-- server/include/server/RequestHandler.h and server/src/RequestHandler.cpp: from the bytes of a
-- request to the bytes of its response. Log lines are left out.
pub mod Monad
pub mod World
pub mod Render
pub mod Actions
pub mod Play
pub mod Dispatch
pub mod Atomic
pub mod Soundness
pub mod Transaction
pub mod Traffic
pub mod Mirrors
