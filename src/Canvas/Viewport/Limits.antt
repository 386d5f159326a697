-- ===== src/Canvas/Viewport/Limits.antt =====
-- How far the camera of front-end/src/lib/board/viewport.ts goes.
use skrivle.Prelude.{◌≡◌, true, ◌&&◌, Bool-cases, inl, inr, List, [], ◌∷◌, arith}
use skrivle.Numbers.{Doubles}
use skrivle.Browser.Cursor.{Point}
use skrivle.Canvas.Geometry.{Rect}
use skrivle.Canvas.Viewport.{
  Viewport, min_scale, max_scale, max_offset, least_offset, clamp, clamp_viewport, held_at, zoom_at,
  zoom_to, pan_by, FingerPair, pinch, Size, fit_rect, set_viewport, run_store,
}

module _ ⦃d : Doubles⦄ where
  open d use {
    Number, less, literal, at_most, minimum, maximum, equal, at_most-refl, at_most-total,
    minimum-is, maximum-is,
  }

  -- The limits stand in their order, as they do for the numbers of JavaScript.
  pub record InOrder : Type 0 where
    pub scales : at_most min_scale max_scale ≡ true
    pub offsets : at_most least_offset max_offset ≡ true

  pub record Within (v : Viewport) : Type 0 where
    pub least_scale : at_most min_scale v.scale ≡ true
    pub most_scale : at_most v.scale max_scale ≡ true
    pub left : at_most least_offset v.x ≡ true
    pub right : at_most v.x max_offset ≡ true
    pub top : at_most least_offset v.y ≡ true
    pub bottom : at_most v.y max_offset ≡ true

  clamp-low :
      (n low high : Number) → at_most low high ≡ true → at_most low (clamp n low high) ≡ true
  unfolding clamp
  clamp-low n low high h = ground (
    arith,
    minimum-is high (maximum low n),
    maximum-is low n,
    at_most-refl low,
    at_most-total low n,
  )

  clamp-high : (n low high : Number) → at_most (clamp n low high) high ≡ true
  unfolding clamp
  clamp-high n low high = ground (
    arith,
    minimum-is high (maximum low n),
    at_most-refl high,
    at_most-total high (maximum low n),
  )

  clamp-Within : (v : Viewport) → InOrder → Within (clamp_viewport v)
  unfolding clamp_viewport
  clamp-Within v o = record {
    least_scale = clamp-low v.scale min_scale max_scale o.scales;
    most_scale = clamp-high v.scale min_scale max_scale;
    left = clamp-low v.x least_offset max_offset o.offsets;
    right = clamp-high v.x least_offset max_offset;
    top = clamp-low v.y least_offset max_offset o.offsets;
    bottom = clamp-high v.y least_offset max_offset;
  }

  zoom_at-Within :
      (v : Viewport) (factor : Number) (anchor : Point)
      → InOrder
      → Within v
      → Within (zoom_at v factor anchor)
  unfolding zoom_at held_at
  zoom_at-Within v factor anchor o h =
      elim (Bool-cases (equal (clamp (d.multiply v.scale factor) min_scale max_scale) v.scale)) [
        | inl y ↦ rw (zoom_at, y) h
        | inr n ↦ rw (zoom_at, n) (clamp-Within _ o)
      ]

  -- What moves the camera.
  pub data Move : Type 0 where
    zooms : Number → Point → Move
    zooms_to : Number → Point → Move
    pans : Number → Number → Move
    pinches : FingerPair → FingerPair → Move
    fits : Rect → Size → Number → Move

  unfoldable pub moved_by : Move → Viewport → Viewport
  unfolding zoom_at zoom_to pan_by pinch fit_rect
  moved_by (zooms factor anchor) v = zoom_at v factor anchor
  moved_by (zooms_to scale anchor) v = zoom_to v scale anchor
  moved_by (pans dx dy) v = pan_by v dx dy
  moved_by (pinches from to) v = pinch v from to
  moved_by (fits content host padding) v = fit_rect content host padding

  pub moved-Within : (move : Move) (v : Viewport) → InOrder → Within v → Within (moved_by move v)
  unfolding moved_by zoom_to held_at pan_by pinch fit_rect
  moved-Within (zooms factor anchor) v o h = zoom_at-Within v factor anchor o h
  moved-Within (zooms_to scale anchor) v o h = clamp-Within _ o
  moved-Within (pans dx dy) v o h = clamp-Within _ o
  moved-Within (pinches from to) v o h = clamp-Within _ o
  moved-Within (fits content host padding) v o h = clamp-Within _ o

  set-Within :
      (next : Viewport → Viewport) (v : Viewport)
      → InOrder
      → Within v
      → Within (set_viewport next v).0
  unfolding set_viewport
  set-Within next v o h =
      let r = clamp_viewport (next v) in
      elim (Bool-cases (equal r.x v.x && equal r.y v.y && equal r.scale v.scale)) [
        | inl y ↦ rw (set_viewport, y) h
        | inr n ↦ rw (set_viewport, n) (clamp-Within (next v) o)
      ]

  -- Whatever a store is set to, by whatever functions, its camera is within the limits.
  pub store-Within :
      (nexts : List (Viewport → Viewport)) (initial : Viewport)
      → InOrder
      → Within (run_store nexts initial)
  unfolding run_store
  store-Within [] initial o = clamp-Within initial o
  store-Within (next ∷ nexts) initial o =
      set-Within next (run_store nexts initial) o (store-Within nexts initial o)
