-- ===== src/Browser/Cursor.antt =====
-- The local cursor of front-end/src/lib/realtime/board-session.ts: what setCursor publishes, and when.
-- A timer that is set is a flag.
pub mod Arrival
use skrivle.Prelude.{ℕ, Bool, true, false, not, ◌&&◌, Option, none, some, if◌then◌else◌}
use skrivle.Numbers.{Doubles}

abbrev pub publish_ms : ℕ
publish_ms = 50

module _ ⦃n : Doubles⦄ where
  open n use {Number, subtract, absolute, less, half}

  pub record Point : Type 0 where
    pub x : Number
    pub y : Number

  pub record Cursor : Type 0 where
    pub x : Number
    pub y : Number
    pub t : ℕ

  -- `pending`, `hasPending`, `published` and `flushTimer`.
  pub record Throttle : Type 0 where
    pub pending : Option Point
    pub has_pending : Bool
    pub published : Option Point
    pub flush_timer : Bool

  abbrev pub still : Throttle
  still = record { pending = none; has_pending = false; published = none; flush_timer = false }

  unfoldable pub close : Point → Point → Bool
  close p q = less (absolute (subtract p.x q.x)) half && less (absolute (subtract p.y q.y)) half

  -- The movement is not worth a frame.
  unfoldable pub negligible : Option Point → Option Point → Bool
  unfolding close
  negligible none published = false
  negligible (some p) none = false
  negligible (some p) (some q) = close p q

  abbrev pub cursor_of : ℕ → Option Point → Option Cursor
  cursor_of now none = none
  cursor_of now (some p) = some (record { x = p.x; y = p.y; t = now })

  -- The throttle afterwards, and the cursor that goes into the awareness, if one does.
  pub record Moved : Type 0 where
    pub throttle : Throttle
    pub shown : Option (Option Cursor)

  -- publish
  unfoldable pub publish : ℕ → Option Point → Throttle → Moved
  publish now point th = record {
    throttle = record th { published = point };
    shown = some (cursor_of now point);
  }

  -- flush
  unfoldable pub flush : ℕ → Throttle → Moved
  unfolding publish
  flush now th =
      let th' = record th { flush_timer = false } in
      if not th.has_pending
      then record { throttle = th'; shown = none }
      else (let done = publish now th.pending (record th' { has_pending = false }) in
          record done { throttle = record done.throttle { flush_timer = true } })

  -- setCursor, of a session that is not destroyed.
  unfoldable pub set_cursor : ℕ → Option Point → Throttle → Moved
  unfolding negligible publish
  set_cursor now point th =
      if negligible point th.published
      then record { throttle = th; shown = none }
      else (let waiting = record th { pending = point; has_pending = true } in
          if th.flush_timer
          then record { throttle = waiting; shown = none }
          else (let done = publish now point (record waiting { has_pending = false }) in
              record done { throttle = record done.throttle { flush_timer = true } }))
