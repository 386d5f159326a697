-- ===== src/Canvas/Geometry.antt =====
-- Bounding boxes and hit tests, front-end/src/lib/board/geometry.ts.
pub mod Handles
pub mod Hits
use skrivle.Prelude.{
  ℕ, zero, suc, length, get_elem?, ◌+◌, Bool, true, false, not, ◌&&◌, ◌||◌, Option, none, some,
  List, [], ◌∷◌, filter, Text, if◌then◌else◌, is_some,
}
use skrivle.Numbers.{Doubles}
use skrivle.Browser.Cursor.{Point}
use skrivle.Canvas.Tools.{ElementKind}
use skrivle.Canvas.Tools.ElementKind.{note, text, rect, ellipse, line, path}

abbrev pub grab_px : ℕ
grab_px = 6

module _ ⦃d : Doubles⦄ where
  open d use {
    Number, literal, add, subtract, multiply, divide, absolute, hypot, minimum, maximum, infinity,
    less, at_most, equal,
  }

  abbrev pub point_at : Number → Number → Point
  point_at x y = record { x = x; y = y }

  pub record Rect : Type 0 where
    pub x : Number
    pub y : Number
    pub w : Number
    pub h : Number

  -- The fields of an ElementSnapshot that geometry reads.
  pub record ElementSnapshot : Type 0 where
    pub id : Text
    pub kind : ElementKind
    pub x : Number
    pub y : Number
    pub w : Number
    pub h : Number
    pub bx : Number
    pub by : Number
    pub fill : Option Text
    pub stroke_width : Number

  -- normalizeRect
  unfoldable pub normalize_rect : Point → Point → Rect
  normalize_rect a b = record {
    x = minimum a.x b.x;
    y = minimum a.y b.y;
    w = absolute (subtract b.x a.x);
    h = absolute (subtract b.y a.y);
  }

  abbrev pub is_path : ElementKind → Bool
  is_path path = true
  is_path _ = false

  -- bboxOf
  unfoldable pub bbox_of : ElementSnapshot → Rect
  unfolding normalize_rect
  bbox_of el =
      if is_path el.kind
      then record { x = add el.x el.bx; y = add el.y el.by; w = el.w; h = el.h }
      else normalize_rect (point_at el.x el.y) (point_at (add el.x el.w) (add el.y el.h))

  pub record ResizedFields : Type 0 where
    pub rect : Rect
    pub bx : Number
    pub by : Number
    pub scale_x : Number
    pub scale_y : Number

  -- resizedFields
  unfoldable pub resized_fields : ElementSnapshot → Rect → ResizedFields
  resized_fields el r =
      let stretches = is_path el.kind && less (literal 0) el.w && less (literal 0) el.h in
      let scale_x = if stretches then divide r.w el.w else literal 1 in
      let scale_y = if stretches then divide r.h el.h else literal 1 in
      let bx = multiply el.bx scale_x in
      let by = multiply el.by scale_y in
      record {
        rect = record { x = subtract r.x bx; y = subtract r.y by; w = r.w; h = r.h };
        bx = bx;
        by = by;
        scale_x = scale_x;
        scale_y = scale_y;
      }

  -- fitElement
  unfoldable pub fit_element : ElementSnapshot → Rect → ElementSnapshot
  unfolding resized_fields
  fit_element el r =
      let f = resized_fields el r in
      record el { x = f.rect.x; y = f.rect.y; w = f.rect.w; h = f.rect.h; bx = f.bx; by = f.by }

  -- unionRects: the edges of what is left to unite.
  unfoldable pub union_from : List Rect → Number → Number → Number → Number → Rect
  union_from [] min_x min_y max_x max_y = record {
    x = min_x;
    y = min_y;
    w = subtract max_x min_x;
    h = subtract max_y min_y;
  }
  union_from (r ∷ rects) min_x min_y max_x max_y =
      union_from rects (minimum min_x r.x) (minimum min_y r.y) (maximum max_x (add r.x r.w))
        (maximum max_y (add r.y r.h))

  -- unionRects
  unfoldable pub union_rects : List Rect → Option Rect
  unfolding union_from
  union_rects [] = none
  union_rects rects =
      let lowest = subtract (literal 0) infinity in
      some (union_from rects infinity infinity lowest lowest)

  unfoldable pub inflate : Rect → Number → Rect
  inflate r by = record {
    x = subtract r.x by;
    y = subtract r.y by;
    w = add r.w (multiply by (literal 2));
    h = add r.h (multiply by (literal 2));
  }

  -- rectContains
  unfoldable pub rect_contains : Rect → Point → Bool
  rect_contains r p =
      at_most r.x p.x && at_most p.x (add r.x r.w) && at_most r.y p.y && at_most p.y (add r.y r.h)

  -- rectsIntersect
  unfoldable pub rects_intersect : Rect → Rect → Bool
  rects_intersect a b =
      at_most a.x (add b.x b.w)
      && at_most b.x (add a.x a.w)
      && at_most a.y (add b.y b.h)
      && at_most b.y (add a.y a.h)

  -- distanceToSegment
  unfoldable pub distance_to_segment : Point → Point → Point → Number
  distance_to_segment p a b =
      let dx = subtract b.x a.x in
      let dy = subtract b.y a.y in
      let squared = add (multiply dx dx) (multiply dy dy) in
      let along = add (multiply (subtract p.x a.x) dx) (multiply (subtract p.y a.y) dy) in
      let t = maximum (literal 0) (minimum (literal 1) (divide along squared)) in
      if equal squared (literal 0)
      then hypot (subtract p.x a.x) (subtract p.y a.y)
      else hypot (subtract p.x (add a.x (multiply t dx))) (subtract p.y (add a.y (multiply t dy)))

  -- The loop of distanceToPolyline.
  unfoldable pub nearest_segment : Point → List Number → Point → Number → Number
  unfolding distance_to_segment
  nearest_segment p (ax ∷ ay ∷ bx ∷ by ∷ points) origin best =
      nearest_segment p (bx ∷ by ∷ points) origin (
        minimum best (
          distance_to_segment p (point_at (add origin.x ax) (add origin.y ay))
            (point_at (add origin.x bx) (add origin.y by))))
  nearest_segment p _ origin best = best

  -- distanceToPolyline
  unfoldable pub distance_to_polyline : Point → List Number → Point → Number
  unfolding nearest_segment
  distance_to_polyline p [] origin = infinity
  distance_to_polyline p (x ∷ []) origin = infinity
  distance_to_polyline p (x ∷ y ∷ []) origin =
      hypot (subtract p.x (add origin.x x)) (subtract p.y (add origin.y y))
  distance_to_polyline p (x ∷ y ∷ z ∷ points) origin =
      nearest_segment p (x ∷ y ∷ z ∷ points) origin infinity

  -- The radius of a point in an ellipse whose outline has radius 1.
  abbrev pub normalised : Point → Rect → Number
  normalised p r =
      let rx = divide r.w (literal 2) in
      let ry = divide r.h (literal 2) in
      hypot (divide (subtract p.x (add r.x rx)) rx) (divide (subtract p.y (add r.y ry)) ry)

  abbrev pub is_flat : Rect → Bool
  is_flat r =
      at_most (divide r.w (literal 2)) (literal 0) || at_most (divide r.h (literal 2)) (literal 0)

  -- distanceToEllipse
  unfoldable pub distance_to_ellipse : Point → Rect → Number
  distance_to_ellipse p r =
      if is_flat r
      then infinity
      else multiply (absolute (subtract (normalised p r) (literal 1)))
          (minimum (divide r.w (literal 2)) (divide r.h (literal 2)))

  -- distanceToRectOutline
  unfoldable pub distance_to_rect_outline : Point → Rect → Number
  unfolding distance_to_segment
  distance_to_rect_outline p r =
      let a = point_at r.x r.y in
      let b = point_at (add r.x r.w) r.y in
      let c = point_at (add r.x r.w) (add r.y r.h) in
      let e = point_at r.x (add r.y r.h) in
      minimum
        (minimum
          (minimum (minimum infinity (distance_to_segment p a b)) (distance_to_segment p b c))
          (distance_to_segment p c e))
        (distance_to_segment p e a)

  -- toleranceFor
  unfoldable pub tolerance_for : ElementSnapshot → Number → Number
  tolerance_for el scale =
      maximum (divide (literal grab_px) scale) (divide el.stroke_width (literal 2))

  -- The switch of hitTest.
  unfoldable pub ink_hit : ElementKind → ElementSnapshot → Point → Number → List Number → Bool
  unfolding bbox_of distance_to_rect_outline distance_to_ellipse distance_to_segment
      distance_to_polyline
  ink_hit note el p tolerance points = true
  ink_hit text el p tolerance points = true
  ink_hit rect el p tolerance points =
      is_some el.fill || at_most (distance_to_rect_outline p (bbox_of el)) tolerance
  ink_hit ellipse el p tolerance points =
      at_most (distance_to_ellipse p (bbox_of el)) tolerance
      || (is_some el.fill
          && (not (is_flat (bbox_of el)) && at_most (normalised p (bbox_of el)) (literal 1)))
  ink_hit line el p tolerance points =
      at_most
        (distance_to_segment p (point_at el.x el.y) (point_at (add el.x el.w) (add el.y el.h)))
        tolerance
  ink_hit path el p tolerance points =
      at_most (distance_to_polyline p points (point_at el.x el.y)) tolerance

  abbrev pub near : ElementSnapshot → Point → Number → Bool
  near el p scale = rect_contains (inflate (bbox_of el) (tolerance_for el scale)) p

  -- hitTest; without samples a stroke has none.
  unfoldable pub hit_test : ElementSnapshot → Point → Number → Option (List Number) → Bool
  unfolding ink_hit tolerance_for inflate rect_contains bbox_of
  hit_test el p scale points =
      let samples = (elim points as (λ o. List Number) [ none ↦ [] | some l ↦ l ]) in
      near el p scale && ink_hit el.kind el p (tolerance_for el scale) samples

  -- The loop of topmostAt, with the indices below this one still to come.
  unfoldable pub topmost_below :
      ℕ
      → List ElementSnapshot
      → Point
      → Number
      → (Text → Option (List Number))
      → Option ElementSnapshot
  unfolding hit_test
  topmost_below zero ordered p scale points_of = none
  topmost_below (suc i) ordered p scale points_of =
      let rest = topmost_below i ordered p scale points_of in
      elim (get_elem? ordered i) [
        | none ↦ rest
        | some el ↦
            if not (near el p scale)
            then rest
            else if hit_test el p scale (points_of el.id)
            then some el
            else rest
      ]

  -- topmostAt
  unfoldable pub topmost_at :
      List ElementSnapshot → Point → Number → (Text → Option (List Number)) → Option ElementSnapshot
  unfolding topmost_below
  topmost_at ordered p scale points_of = topmost_below (length ordered) ordered p scale points_of

  -- elementsInRect
  unfoldable pub elements_in_rect : List ElementSnapshot → Rect → List ElementSnapshot
  unfolding bbox_of rects_intersect
  elements_in_rect ordered marquee = filter (λ el. rects_intersect (bbox_of el) marquee) ordered
