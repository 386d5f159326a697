-- ===== src/Browser/Session.antt =====
-- front-end/src/lib/realtime/board-session.ts: one board's connection, as the handlers of its socket,
-- its document, its timers and its page. A timer that is set is a flag, and a handler answers with
-- what it sends.
pub mod State
pub mod Local
pub mod Socket
pub mod Steps
pub mod Outbox
pub mod Settling
pub mod Rejoining
pub mod Exchange
