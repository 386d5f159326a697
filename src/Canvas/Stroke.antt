-- ===== src/Canvas/Stroke.antt =====
-- The samples of a stroke, front-end/src/lib/board/stroke.ts.
pub mod Thinning
use skrivle.Prelude.{
  ℕ, suc, zero, ◌+◌, ◌-◌, ◌*◌, nat_eq, ◌==◌, ltb, Bool, true, false, ◌&&◌, ◌||◌, Option, none, some,
  List, [], ◌∷◌, length, get_elem?, if◌then◌else◌,
}
use skrivle.Numbers.{Doubles}
use skrivle.Browser.Cursor.{Point}
use skrivle.Canvas.Geometry.{point_at}

-- The segments that are still to be looked at, and the samples that are kept.
pub record Thin : Type 0 where
  pub stack : List (ℕ × ℕ)
  pub keep : ℕ → Bool

module _ ⦃d : Doubles⦄ where
  open d use {Number, literal, add, subtract, multiply, divide, minimum, maximum, less, equal}

  -- SIMPLIFY_TOLERANCE
  abbrev pub simplify_tolerance : Number
  simplify_tolerance = divide (literal 6) (literal 10)

  unfoldable pub pairs_of : List Number → List Point
  pairs_of (x ∷ y ∷ points) = point_at x y ∷ pairs_of points
  pairs_of _ = []

  unfoldable pub flattened : List Point → List Number
  flattened [] = []
  flattened (p ∷ pairs) = p.x ∷ p.y ∷ flattened pairs

  -- A sample by its index, which is never past the last.
  abbrev pub sample : List Point → ℕ → Point
  sample pairs i = elim (get_elem? pairs i) as (λ o. Point) [
    | none ↦ point_at (literal 0) (literal 0)
    | some p ↦ p
  ]

  -- perpendicularSquared
  unfoldable pub perpendicular_squared : Point → Point → Point → Number
  perpendicular_squared p a b =
      let dx = subtract b.x a.x in
      let dy = subtract b.y a.y in
      let length_squared = add (multiply dx dx) (multiply dy dy) in
      let along = add (multiply (subtract p.x a.x) dx) (multiply (subtract p.y a.y) dy) in
      let t = maximum (literal 0) (minimum (literal 1) (divide along length_squared)) in
      let off_x = subtract p.x a.x in
      let off_y = subtract p.y a.y in
      let out_x = subtract p.x (add a.x (multiply t dx)) in
      let out_y = subtract p.y (add a.y (multiply t dy)) in
      if equal length_squared (literal 0)
      then add (multiply off_x off_x) (multiply off_y off_y)
      else add (multiply out_x out_x) (multiply out_y out_y)

  -- The inner loop of simplify, over the `left` samples from `i`; no index is -1.
  unfoldable pub worst_from : List Point → ℕ × ℕ → ℕ → ℕ → Number → Option ℕ → Number × Option ℕ
  unfolding perpendicular_squared
  worst_from pairs ends zero i worst index = (worst, index)
  worst_from pairs ends (suc left) i worst index =
      let far =
        perpendicular_squared (sample pairs i) (sample pairs ends.0) (sample pairs ends.1) in
      let further = less worst far in
      worst_from pairs ends left (i + 1) (if further then far else worst)
        (if further then some i else index)

  abbrev pub marked : ℕ → (ℕ → Bool) → ℕ → Bool
  marked i keep k = k == i || keep k

  -- What becomes of the segment that was popped.
  abbrev pub split_at : ℕ × ℕ → List (ℕ × ℕ) → (ℕ → Bool) → Bool → Option ℕ → Thin
  split_at ends stack keep true (some i) = record {
    stack = (i, ends.1) ∷ (ends.0, i) ∷ stack;
    keep = marked i keep;
  }
  split_at ends stack keep _ _ = record { stack = stack; keep = keep }

  -- The body of the outer loop of simplify.
  unfoldable pub thin_once : List Point → Number → ℕ × ℕ → List (ℕ × ℕ) → (ℕ → Bool) → Thin
  unfolding worst_from
  thin_once pairs tolerance ends stack keep =
      let found = worst_from pairs ends (ends.1 - ends.0 - 1) (ends.0 + 1) (literal 0) none in
      if ltb (ends.0 + 1) ends.1
      then split_at ends stack keep (less (multiply tolerance tolerance) found.0) found.1
      else record { stack = stack; keep = keep }

  -- The outer loop, for so many rounds.
  unfoldable pub thin : ℕ → List Point → Number → Thin → Option (ℕ → Bool)
  unfolding thin_once
  thin zero pairs tolerance t = none
  thin (suc rounds) pairs tolerance t = elim t.stack [
    | [] ↦ some t.keep
    | ends ∷ stack ↦ thin rounds pairs tolerance (thin_once pairs tolerance ends stack t.keep)
  ]

  unfoldable pub picked : (ℕ → Bool) → ℕ → List Point → List Point
  picked keep i [] = []
  picked keep i (p ∷ pairs) =
      let rest = picked keep (i + 1) pairs in if keep i then p ∷ rest else rest

  abbrev pub first_and_last : ℕ → ℕ → Bool
  first_and_last count k = k == 0 || k == count - 1

  -- simplify; two rounds for each sample are enough.
  unfoldable pub simplify : List Number → Number → Option (List Number)
  unfolding pairs_of flattened thin picked
  simplify points tolerance =
      let pairs = pairs_of points in
      let count = length pairs in
      let opening : Thin = record { stack = (0, count - 1) ∷ []; keep = first_and_last count } in
      if ltb count 3
      then some (flattened pairs)
      else elim (thin (count * 2) pairs tolerance opening) [
        | none ↦ none
        | some keep ↦ some (flattened (picked keep 0 pairs))
      ]
