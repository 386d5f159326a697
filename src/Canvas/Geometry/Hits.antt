-- ===== src/Canvas/Geometry/Hits.antt =====
-- What front-end/src/lib/board/geometry.ts finds under the pointer, and how it resizes.
use skrivle.Prelude.{
  ℕ, zero, suc, ◌<◌, ◌⊎◌, inl, inr, sym, Bool-cases, Option-cases, length, get_elem?, ◌≡◌, refl,
  Bool, true, false, Option, none, some, List, Text, if◌then◌else◌, arith,
}
use mathlib.Core.Path.{subst}
use skrivle.Numbers.{Doubles}
use skrivle.Browser.Cursor.{Point}
use skrivle.Canvas.Geometry.{
  Rect, ElementSnapshot, bbox_of, is_path, resized_fields, fit_element, hit_test, topmost_below,
  topmost_at,
}
use skrivle.Canvas.Geometry.Handles.{
  min_size, Handle, pulls_west, pulls_east, pulls_north, pulls_south, resize_rect,
}

≤-cases : (k n : ℕ) → k < suc n → (k < n) ⊎ (k ≡ n)
≤-cases k n h = omega (arith, h)

module _ ⦃d : Doubles⦄ where
  open d use {
    Number, literal, add, subtract, at_most, minimum, maximum, at_most-refl, at_most-total,
    minimum-is, maximum-is,
  }

  -- What the search from the top of the paint order has found below an index: an element under the
  -- pointer with none over it that is, or none.
  pub data Topmost (ordered : List ElementSnapshot) (hit : ElementSnapshot → Bool) (below : ℕ)
      : Option ElementSnapshot → Type 0 where
    found :
        (i : ℕ) (el : ElementSnapshot)
        → i < below
        → get_elem? ordered i ≡ some el
        → hit el ≡ true
        → ((k : ℕ) (over : ElementSnapshot)
            → i < k
            → k < below
            → get_elem? ordered k ≡ some over
            → hit over ≡ false)
        → Topmost ordered hit below (some el)
    missed :
        ((k : ℕ) (el : ElementSnapshot)
          → k < below
          → get_elem? ordered k ≡ some el
          → hit el ≡ false)
        → Topmost ordered hit below none

  -- One index further up that is not under the pointer.
  passed :
      (ordered : List ElementSnapshot) (hit : ElementSnapshot → Bool) (below : ℕ)
      (o : Option ElementSnapshot)
      → ((el : ElementSnapshot) → get_elem? ordered below ≡ some el → hit el ≡ false)
      → Topmost ordered hit below o
      → Topmost ordered hit (suc below) o
  passed ordered hit below o clear (found i el low at hits over) =
      found i el (omega (arith, low)) at hits (λ k e up down there. elim (≤-cases k below down) [
        | inl less ↦ over k e up less there
        | inr last ↦ clear e (subst (λ j. get_elem? ordered j ≡ some e) last there)
      ])
  passed ordered hit below o clear (missed none_hit) = missed (λ k e down there.
      elim (≤-cases k below down) [
        | inl less ↦ none_hit k e less there
        | inr last ↦ clear e (subst (λ j. get_elem? ordered j ≡ some e) last there)
      ])

  below-Topmost :
      (n : ℕ) (ordered : List ElementSnapshot) (p : Point) (scale : Number)
      (points_of : Text → Option (List Number))
      → Topmost ordered
          (λ el. hit_test el p scale (points_of el.id))
          n
          (topmost_below n ordered p scale points_of)
  unfolding topmost_below hit_test
  below-Topmost zero ordered p scale points_of =
      missed (λ k e down there. absurd (omega (arith, down)))
  below-Topmost (suc n) ordered p scale points_of =
      let hit : ElementSnapshot → Bool = (λ el. hit_test el p scale (points_of el.id)) in
      let rest = topmost_below n ordered p scale points_of in
      let before = below-Topmost n ordered p scale points_of in
      elim (Option-cases (get_elem? ordered n)) [
        | inl gone ↦
            rw (topmost_below, gone)
              (passed ordered hit n rest (λ e there. ground (arith, gone, there)) before)
        | inr (el, at) ↦ elim (Bool-cases (hit el)) [
          | inl hits ↦
              let e : topmost_below (suc n) ordered p scale points_of ≡ some el =
                ground (arith, at, hits) in
              subst (Topmost ordered hit (suc n)) (sym e) (
                found n el (omega arith) at hits
                  (λ k over up down there. absurd (omega (arith, up, down))))
          | inr misses ↦
              let e : topmost_below (suc n) ordered p scale points_of ≡ rest =
                ground (arith, at, misses) in
              subst (Topmost ordered hit (suc n)) (sym e)
                (passed ordered hit n rest (λ e there. ground (arith, at, misses, there)) before)
        ]
      ]

  -- Of the elements that hitTest says are under the pointer topmostAt finds the one painted last, and
  -- none only when there is none: leaving out, before asking for its samples, an element whose box is
  -- not there loses nothing.
  pub topmost_at-Topmost :
      (ordered : List ElementSnapshot) (p : Point) (scale : Number)
      (points_of : Text → Option (List Number))
      → Topmost ordered
          (λ el. hit_test el p scale (points_of el.id))
          (length ordered)
          (topmost_at ordered p scale points_of)
  unfolding topmost_at
  topmost_at-Topmost ordered p scale points_of =
      below-Topmost (length ordered) ordered p scale points_of

  -- A stroke that is fitted to a rectangle has it as its box, where taking the offset of the samples
  -- away and adding it again does not round.
  pub fit-bbox :
      (el : ElementSnapshot) (r : Rect)
      → is_path el.kind ≡ true
      → add (subtract r.x (resized_fields el r).bx) (resized_fields el r).bx ≡ r.x
      → add (subtract r.y (resized_fields el r).by) (resized_fields el r).by ≡ r.y
      → bbox_of (fit_element el r) ≡ r
  unfolding bbox_of fit_element resized_fields
  fit-bbox el r stroke exact_x exact_y = ground (arith, stroke, exact_x, exact_y)

  min-right : (a b : Number) → at_most (minimum a b) b ≡ true
  min-right a b = ground (arith, minimum-is a b, at_most-refl b)

  max-right : (a b : Number) → at_most b (maximum a b) ≡ true
  max-right a b = ground (arith, maximum-is a b, at_most-refl b, at_most-total a b)

  -- The left edge that a handle moves stays the smallest size short of the right one, and so on
  -- around; the edge that a handle does not move is left.
  pub data Apart (r : Rect) (handle : Handle) (to : Point) : Type 0 where
    apart :
        (x y right bottom : Number)
        → resize_rect r handle to
          ≡ record { x = x; y = y; w = subtract right x; h = subtract bottom y }
        → (if pulls_west handle
            then at_most x (subtract (add r.x r.w) (literal min_size))
            else true)
          ≡ true
        → (if pulls_east handle then at_most (add x (literal min_size)) right else true) ≡ true
        → (if pulls_north handle
            then at_most y (subtract (add r.y r.h) (literal min_size))
            else true)
          ≡ true
        → (if pulls_south handle then at_most (add y (literal min_size)) bottom else true) ≡ true
        → x ≡ (if pulls_west handle then x else r.x)
        → y ≡ (if pulls_north handle then y else r.y)
        → right ≡ (if pulls_east handle then right else add r.x r.w)
        → bottom ≡ (if pulls_south handle then bottom else add r.y r.h)
        → Apart r handle to

  -- However a handle is dragged, past the opposite edge too, the edges that it moves stay the smallest
  -- size from the opposite ones, and the others stay.
  pub resize-Apart : (r : Rect) (handle : Handle) (to : Point) → Apart r handle to
  unfolding resize_rect
  resize-Apart r handle to =
      let size = literal min_size in
      let right = add r.x r.w in
      let bottom = add r.y r.h in
      let x = if pulls_west handle then minimum to.x (subtract right size) else r.x in
      let right' = if pulls_east handle then maximum to.x (add x size) else right in
      let y = if pulls_north handle then minimum to.y (subtract bottom size) else r.y in
      let bottom' = if pulls_south handle then maximum to.y (add y size) else bottom in
      apart x y right' bottom' refl (ground (arith, min-right to.x (subtract right size)))
        (ground (arith, max-right to.x (add x size)))
        (ground (arith, min-right to.y (subtract bottom size)))
        (ground (arith, max-right to.y (add y size))) (ground arith) (ground arith) (ground arith)
        (ground arith)
