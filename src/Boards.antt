-- ===== src/Boards.antt =====
-- The boards as rows, back-end/src/boards: their ids, and who may create, extend, claim and delete
-- them.
pub mod Id
pub mod Service
pub mod Routes
