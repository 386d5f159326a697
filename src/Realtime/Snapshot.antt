-- ===== src/Realtime/Snapshot.antt =====
-- back-end/src/realtime/snapshot-writer.ts and back-end/src/realtime/board-store.ts: how a board's
-- document is saved. The module follows one board at a time: its registry entry, its row of
-- board_docs, its log, and its entry of `writing`, which is the write in flight and how many wait
-- behind it. A write is cut where it awaits: at its start, when the row is saved or refused, and
-- when the log has been trimmed.
pub mod Steps
pub mod Durability
use skrivle.Prelude.{
  ℕ, zero, suc, ◌+◌, Bool, true, false, Option, none, some, List, [], ◌∷◌, Text, text_eq, has,
  if◌then◌else◌,
}
use skrivle.Services.{Yjs, Redis}
use skrivle.Realtime.UpdateLog.{Outcome, seal_log, trim_log}
use skrivle.Realtime.DocManager.{
  Registry, peek_doc, clear_dirty, mark_dirty, set_bytes, dirty_board_ids,
}

-- What `writeSnapshot` holds across its awaits.
pub record Flight (Update : Type 0) : Type 0 where
  pub blob : Update
  pub sealed : Option Text
  pub landed : Bool

pub record Board (Doc Update Db : Type 0) : Type 0 where
  pub docs : Registry Doc
  pub db : Db
  -- The row of board_docs.
  pub stored : Option Update
  pub flight : Option (Flight Update)
  pub waiting : ℕ

-- The moment of a write: the seal's name, the outcome of its push, and the clock.
pub record Moment : Type 0 where
  pub stamp : Text
  pub pushed : Outcome
  pub now : ℕ

module _ ⦃y : Yjs⦄ ⦃r : Redis (y.Update)⦄ where
  open y use {Doc, Update, encode_state, byte_length}
  open r use {Db}

  -- `writeSnapshot` up to its first await: encode, clear the flag, record the size, seal the log.
  unfoldable pub write_snapshot : Text → Moment → Board Doc Update Db → Board Doc Update Db
  write_snapshot id m b = elim (peek_doc id b.docs) [
    | none ↦ b
    | some doc ↦
        let state = encode_state doc in
        let (sealed, db) = seal_log m.pushed id m.stamp b.db in
        record b {
          docs = set_bytes id (byte_length state) m.now (clear_dirty id b.docs);
          db = db;
          flight = some (record { blob = state; sealed = sealed; landed = false });
        }
  ]

  -- persistSnapshot: at once with nothing in flight, else after the write before it.
  unfoldable pub persist_snapshot : Text → Moment → Board Doc Update Db → Board Doc Update Db
  unfolding write_snapshot
  persist_snapshot id m b = elim b.flight [
    | none ↦ write_snapshot id m b
    | some before ↦ record b { waiting = b.waiting + 1 }
  ]

  -- The writes in line, from the first on.
  start_waiting : ℕ → Text → Moment → Board Doc Update Db → Board Doc Update Db
  unfolding write_snapshot
  start_waiting zero id m b = b
  start_waiting (suc n) id m b = elim (peek_doc id b.docs) [
    | none ↦ start_waiting n id m (record b { waiting = n })
    | some doc ↦ write_snapshot id m (record b { waiting = n })
  ]

  -- A write has settled: the next in line starts, at the moment `m`; one that finds no document
  -- returns at once.
  unfoldable pub settle : Text → Moment → Board Doc Update Db → Board Doc Update Db
  unfolding start_waiting
  settle id m b = start_waiting b.waiting id m (record b { flight = none })

  -- saveDocState has committed.
  unfoldable pub save_lands : Board Doc Update Db → Board Doc Update Db
  save_lands b = elim b.flight [
    | none ↦ b
    | some w ↦ record b { stored = some w.blob; flight = some (record w { landed = true }) }
  ]

  -- saveDocState has thrown: the board is flagged again.
  unfoldable pub save_fails : Text → Moment → Board Doc Update Db → Board Doc Update Db
  unfolding settle
  save_fails id m b = settle id m (record b { docs = mark_dirty id b.docs })

  -- trimLog has come back.
  unfoldable pub trim_ends : Outcome → Text → Moment → Board Doc Update Db → Board Doc Update Db
  unfolding settle
  trim_ends o id m b = elim b.flight [
    | none ↦ b
    | some w ↦ settle id m (record b { db = trim_log o id w.sealed b.db })
  ]

  -- flushDirty: a save of each dirty board is asked for, board by board.
  unfoldable pub flush_dirty :
      Registry Doc → (Text → Moment) → (Text → Board Doc Update Db) → Text → Board Doc Update Db
  unfolding persist_snapshot
  flush_dirty docs moments boards id =
      if has id (dirty_board_ids docs)
      then persist_snapshot id (moments id) (boards id)
      else boards id
