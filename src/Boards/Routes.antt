-- ===== src/Boards/Routes.antt =====
-- back-end/src/http/routes/boards.ts: the REST routes of boards, each with its middleware in order. The
-- session, the limiter's answer and the random ids and token of a request are in its context; the two
-- timestamps of a row are left out of what is sent.
pub mod Answers
pub mod Requests
pub mod Handlers
pub mod Effects
pub mod Lifecycle
pub mod Secrecy
