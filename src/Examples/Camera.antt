-- ===== src/Examples/Camera.antt =====
-- A stroke and a frame under the pointer, a frame that is dragged, a camera that is pinched.
use skrivle.Prelude.{ℕ, refl, Option, none, some, List, [], ◌∷◌, Text}
use skrivle.Examples.Numbers.{halves}
use skrivle.Canvas.Tools.{ElementKind}
use skrivle.Canvas.Geometry.{point_at, Rect, ElementSnapshot, hit_test, topmost_at}
use skrivle.Canvas.Geometry.Handles.{Handle}
use skrivle.Canvas.Geometry.Hits.{Topmost, topmost_at-Topmost, Apart, resize-Apart}
use skrivle.Canvas.Viewport.{Viewport, FingerPair}
use skrivle.Canvas.Viewport.Limits.{InOrder, Within, Move, moved_by, moved-Within}

abbrev stroke : ElementSnapshot
stroke = record {
  id = 1 ∷ [];
  kind = ElementKind.path;
  x = 20;
  y = 20;
  w = 40;
  h = 40;
  bx = 0;
  by = 0;
  fill = none;
  stroke_width = 4;
}

abbrev frame : ElementSnapshot
frame = record stroke { id = 2 ∷ []; kind = ElementKind.rect; fill = some (3 ∷ []) }

abbrev drawn_samples : Text → Option (List ℕ)
drawn_samples _ = some (0 ∷ 0 ∷ 40 ∷ 40 ∷ [])

topmost_at-Topmost_example :
    Topmost
      (frame ∷ stroke ∷ [])
      (λ el. hit_test el (point_at 40 20) 2 (drawn_samples el.id))
      2
      (topmost_at (frame ∷ stroke ∷ []) (point_at 40 20) 2 drawn_samples)
topmost_at-Topmost_example =
    topmost_at-Topmost (frame ∷ stroke ∷ []) (point_at 40 20) 2 drawn_samples

abbrev wanted : Rect
wanted = record { x = 100; y = 100; w = 80; h = 20 }

resize-Apart_example : Apart wanted Handle.nw (point_at 400 10)
resize-Apart_example = resize-Apart wanted Handle.nw (point_at 400 10)

abbrev in_order : InOrder
in_order = record { scales = refl; offsets = refl }

abbrev centred : Viewport
centred = record { x = 20000000; y = 20000000; scale = 2 }

abbrev fingers : FingerPair
fingers = record { first = point_at 10 10; second = point_at 30 10 }

abbrev wider : FingerPair
wider = record { first = point_at 5 10; second = point_at 45 10 }

centred-Within : Within centred
centred-Within = record {
  least_scale = refl;
  most_scale = refl;
  left = refl;
  right = refl;
  top = refl;
  bottom = refl;
}

moved-Within_example : Within (moved_by (Move.pinches fingers wider) centred)
moved-Within_example = moved-Within (Move.pinches fingers wider) centred in_order centred-Within
