-- ===== src/Canvas/Viewport.antt =====
-- The camera, front-end/src/lib/board/viewport.ts.
pub mod Limits
use skrivle.Prelude.{
  ℕ, Bool, true, false, not, ◌&&◌, Option, none, some, List, [], ◌∷◌, ◌++◌, if◌then◌else◌,
}
use skrivle.Numbers.{Doubles}
use skrivle.Browser.Cursor.{Point}
use skrivle.Canvas.Geometry.{Rect}

-- Array.prototype.find
unfoldable pub find_first : {A : Type 0} → (A → Bool) → List A → Option A
find_first p [] = none
find_first p (x ∷ l) = let rest = find_first p l in if p x then some x else rest

module _ ⦃d : Doubles⦄ where
  open d use {
    Number, literal, add, subtract, multiply, divide, hypot, minimum, maximum, less, equal, half,
  }

  pub record Viewport : Type 0 where
    pub x : Number
    pub y : Number
    pub scale : Number

  abbrev pub identity : Viewport
  identity = record { x = literal 0; y = literal 0; scale = literal 1 }

  -- 0.1 and 4
  abbrev pub min_scale : Number
  min_scale = divide (literal 1) (literal 10)

  abbrev pub max_scale : Number
  max_scale = literal 4

  abbrev pub max_offset : Number
  max_offset = literal 10000000

  abbrev pub least_offset : Number
  least_offset = subtract (literal 0) max_offset

  -- screenToBoard
  unfoldable pub screen_to_board : Point → Viewport → Point
  screen_to_board p v = record {
    x = divide (subtract p.x v.x) v.scale;
    y = divide (subtract p.y v.y) v.scale;
  }

  -- boardToScreen
  unfoldable pub board_to_screen : Point → Viewport → Point
  board_to_screen p v = record {
    x = add (multiply p.x v.scale) v.x;
    y = add (multiply p.y v.scale) v.y;
  }

  unfoldable pub clamp : Number → Number → Number → Number
  clamp n low high = minimum high (maximum low n)

  -- clampViewport
  unfoldable pub clamp_viewport : Viewport → Viewport
  unfolding clamp
  clamp_viewport v = record {
    x = clamp v.x least_offset max_offset;
    y = clamp v.y least_offset max_offset;
    scale = clamp v.scale min_scale max_scale;
  }

  -- The camera of that scale that has the point of the board under the anchor.
  unfoldable pub held_at : Point → Point → Number → Viewport
  unfolding clamp_viewport
  held_at anchor board scale = clamp_viewport (record {
    x = subtract anchor.x (multiply board.x scale);
    y = subtract anchor.y (multiply board.y scale);
    scale = scale;
  })

  -- zoomAt
  unfoldable pub zoom_at : Viewport → Number → Point → Viewport
  unfolding clamp screen_to_board held_at
  zoom_at v factor anchor =
      let scale = clamp (multiply v.scale factor) min_scale max_scale in
      if equal scale v.scale then v else held_at anchor (screen_to_board anchor v) scale

  -- zoomTo
  unfoldable pub zoom_to : Viewport → Number → Point → Viewport
  unfolding clamp screen_to_board held_at
  zoom_to v scale anchor =
      held_at anchor (screen_to_board anchor v) (clamp scale min_scale max_scale)

  -- panBy
  unfoldable pub pan_by : Viewport → Number → Number → Viewport
  unfolding clamp_viewport
  pan_by v dx dy = clamp_viewport (record v { x = add v.x dx; y = add v.y dy })

  pub record FingerPair : Type 0 where
    pub first : Point
    pub second : Point

  abbrev pub spread : FingerPair → Number
  spread pair = hypot (subtract pair.second.x pair.first.x) (subtract pair.second.y pair.first.y)

  abbrev pub middle : FingerPair → Point
  middle pair = record {
    x = divide (add pair.first.x pair.second.x) (literal 2);
    y = divide (add pair.first.y pair.second.y) (literal 2);
  }

  unfoldable pub pinch : Viewport → FingerPair → FingerPair → Viewport
  unfolding zoom_at pan_by
  pinch v from to =
      let was = middle from in
      let now = middle to in
      let zoomed =
        if less (literal 0) (spread from)
        then zoom_at v (divide (spread to) (spread from)) was
        else v in
      pan_by zoomed (subtract now.x was.x) (subtract now.y was.y)

  pub record Size : Type 0 where
    pub w : Number
    pub h : Number

  -- fitRect
  unfoldable pub fit_rect : Rect → Size → Number → Viewport
  unfolding clamp clamp_viewport
  fit_rect content host padding =
      let one = literal 1 in
      let two = literal 2 in
      let room_w = maximum (subtract host.w (multiply padding two)) one in
      let room_h = maximum (subtract host.h (multiply padding two)) one in
      let wanted =
        minimum
          (minimum (divide room_w (maximum content.w one)) (divide room_h (maximum content.h one)))
          one in
      let scale = clamp wanted min_scale max_scale in
      clamp_viewport (record {
        x = subtract (divide host.w two) (multiply (add content.x (divide content.w two)) scale);
        y = subtract (divide host.h two) (multiply (add content.y (divide content.h two)) scale);
        scale = scale;
      })

  -- visibleRect
  unfoldable pub visible_rect : Viewport → Size → Rect
  unfolding screen_to_board
  visible_rect v host =
      let corner = screen_to_board (record { x = literal 0; y = literal 0 }) v in
      record { x = corner.x; y = corner.y; w = divide host.w v.scale; h = divide host.h v.scale }

  -- ZOOM_STOPS, and the same from the other end.
  abbrev pub zoom_stops : List Number
  zoom_stops =
      divide (literal 1) (literal 10)
      ∷ divide (literal 1) (literal 4)
      ∷ half
      ∷ divide (literal 3) (literal 4)
      ∷ literal 1
      ∷ divide (literal 5) (literal 4)
      ∷ divide (literal 3) (literal 2)
      ∷ literal 2
      ∷ literal 3
      ∷ literal 4
      ∷ []

  unfoldable pub backwards : List Number → List Number
  backwards [] = []
  backwards (x ∷ l) = backwards l ++ (x ∷ [])

  -- EPSILON
  abbrev pub zoom_epsilon : Number
  zoom_epsilon = divide (literal 1) (literal 1000000)

  -- nextZoom, up or down.
  unfoldable pub next_zoom : Number → Bool → Number
  unfolding find_first backwards
  next_zoom scale true = elim (find_first (λ stop. less (add scale zoom_epsilon) stop) zoom_stops) [
    | none ↦ max_scale
    | some stop ↦ stop
  ]
  next_zoom scale false =
      elim (find_first (λ stop. less stop (subtract scale zoom_epsilon)) (backwards zoom_stops)) [
        | none ↦ min_scale
        | some stop ↦ stop
      ]

  -- gridOpacity; 0.4 is 4 / 10 and 0.6 is 6 / 10.
  unfoldable pub grid_opacity : Number → Number
  unfolding clamp
  grid_opacity scale =
      clamp
        (divide (subtract scale (divide (literal 4) (literal 10)))
          (divide (literal 6) (literal 10)))
        (literal 0) (literal 1)

  -- `set` of a store: the camera, and whether its listeners are called.
  unfoldable pub set_viewport : (Viewport → Viewport) → Viewport → Viewport × Bool
  unfolding clamp_viewport
  set_viewport next v =
      let resolved = clamp_viewport (next v) in
      if equal resolved.x v.x && equal resolved.y v.y && equal resolved.scale v.scale
      then (v, false)
      else (resolved, true)

  -- createViewportStore, and then `set` as often as it is called.
  unfoldable pub run_store : List (Viewport → Viewport) → Viewport → Viewport
  unfolding clamp_viewport set_viewport
  run_store [] initial = clamp_viewport initial
  run_store (next ∷ nexts) initial = (set_viewport next (run_store nexts initial)).0
