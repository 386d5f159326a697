-- ===== src/Browser.antt =====
-- What a browser keeps of its boards, front-end/src/lib.
pub mod Tokens
pub mod Copies
pub mod Peers
pub mod Cursor
pub mod Session
