-- ===== src/Canvas/Geometry/Handles.antt =====
-- The eight handles of a selection, front-end/src/lib/board/geometry.ts.
use skrivle.Prelude.{ℕ, Bool, true, false, if◌then◌else◌}
use skrivle.Numbers.{Doubles}
use skrivle.Browser.Cursor.{Point}
use skrivle.Canvas.Geometry.{point_at, Rect}

abbrev pub min_size : ℕ
min_size = 8

-- HANDLES
pub data Handle : Type 0 where
  nw n ne e se s sw w : Handle

module _ ⦃d : Doubles⦄ where
  open d use {Number, literal, add, subtract, divide, minimum, maximum}

  abbrev pub pulls_west : Handle → Bool
  pulls_west nw = true
  pulls_west sw = true
  pulls_west w = true
  pulls_west _ = false

  abbrev pub pulls_east : Handle → Bool
  pulls_east ne = true
  pulls_east se = true
  pulls_east e = true
  pulls_east _ = false

  abbrev pub pulls_north : Handle → Bool
  pulls_north nw = true
  pulls_north n = true
  pulls_north ne = true
  pulls_north _ = false

  abbrev pub pulls_south : Handle → Bool
  pulls_south sw = true
  pulls_south s = true
  pulls_south se = true
  pulls_south _ = false

  -- resizeRect
  unfoldable pub resize_rect : Rect → Handle → Point → Rect
  resize_rect r handle to =
      let right = add r.x r.w in
      let bottom = add r.y r.h in
      let size = literal min_size in
      let x' = if pulls_west handle then minimum to.x (subtract right size) else r.x in
      let right' = if pulls_east handle then maximum to.x (add x' size) else right in
      let y' = if pulls_north handle then minimum to.y (subtract bottom size) else r.y in
      let bottom' = if pulls_south handle then maximum to.y (add y' size) else bottom in
      record { x = x'; y = y'; w = subtract right' x'; h = subtract bottom' y' }

  -- handlePosition
  unfoldable pub handle_position : Rect → Handle → Point
  handle_position r handle =
      let mid_x = add r.x (divide r.w (literal 2)) in
      let mid_y = add r.y (divide r.h (literal 2)) in
      let right = add r.x r.w in
      let bottom = add r.y r.h in
      elim handle [
        | nw ↦ point_at r.x r.y
        | n ↦ point_at mid_x r.y
        | ne ↦ point_at right r.y
        | e ↦ point_at right mid_y
        | se ↦ point_at right bottom
        | s ↦ point_at mid_x bottom
        | sw ↦ point_at r.x bottom
        | w ↦ point_at r.x mid_y
      ]
