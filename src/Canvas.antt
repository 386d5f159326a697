-- ===== src/Canvas.antt =====
-- The board's canvas in the browser, front-end/src/lib/board.
pub mod TextEdit
pub mod Tools
pub mod Order
pub mod Geometry
pub mod Pasting
pub mod Stroke
pub mod Viewport
