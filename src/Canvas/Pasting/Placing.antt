-- ===== src/Canvas/Pasting/Placing.antt =====
-- Where pasted elements are put, front-end/src/lib/board/clipboard.ts.
use skrivle.Prelude.{Option, none, some, List, [], ◌∷◌, map, if◌then◌else◌}
use skrivle.Numbers.{Doubles}
use skrivle.Browser.Cursor.{Point}
use skrivle.Canvas.Geometry.{Rect, point_at, is_path, normalize_rect, union_rects}
use skrivle.Canvas.Pasting.{ElementInit}

module _ ⦃d : Doubles⦄ where
  open d use {Number, literal, add, subtract, divide, round}

  -- shifted
  unfoldable pub shifted : List ElementInit → Number → Number → List ElementInit
  shifted [] dx dy = []
  shifted (init ∷ inits) dx dy =
      record init { x = round (add init.x dx); y = round (add init.y dy) } ∷ shifted inits dx dy

  unfoldable pub nudged : List ElementInit → Number → List ElementInit
  unfolding shifted
  nudged inits by = shifted inits by by

  abbrev pub or_zero : Option Number → Number
  or_zero none = literal 0
  or_zero (some n) = n

  -- bboxOf of what is to be created.
  unfoldable pub init_box : ElementInit → Rect
  unfolding normalize_rect
  init_box i =
      if is_path i.kind
      then record { x = add i.x (or_zero i.bx); y = add i.y (or_zero i.by); w = i.w; h = i.h }
      else normalize_rect (point_at i.x i.y) (point_at (add i.x i.w) (add i.y i.h))

  -- centredOn
  unfoldable pub centred_on : List ElementInit → Point → List ElementInit
  unfolding union_rects init_box shifted
  centred_on inits to = elim (union_rects (map init_box inits)) [
    | none ↦ inits
    | some box ↦
        shifted inits (subtract to.x (add box.x (divide box.w (literal 2))))
          (subtract to.y (add box.y (divide box.h (literal 2))))
  ]
