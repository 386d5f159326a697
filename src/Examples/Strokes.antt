-- ===== src/Examples/Strokes.antt =====
-- A stroke with a corner, thinned.
use skrivle.Prelude.{ℕ, ◌≡◌, some, List, [], ◌∷◌, get_elem?}
use skrivle.Examples.Numbers.{halves}
use skrivle.Browser.Cursor.{Point}
use skrivle.Canvas.Stroke.{pairs_of, flattened, simplify, simplify_tolerance}
use skrivle.Canvas.Stroke.Thinning.{Thinned, simplify-Thinned}

abbrev corner : List ℕ
corner = 0 ∷ 0 ∷ 10 ∷ 0 ∷ 20 ∷ 0 ∷ 20 ∷ 10 ∷ 20 ∷ 20 ∷ []

simplify-Thinned_example :
    (kept : List Point) × (simplify corner simplify_tolerance ≡ some (flattened kept))
    × Thinned kept (pairs_of corner)
    × (get_elem? kept 0 ≡ get_elem? (pairs_of corner) 0)
simplify-Thinned_example = simplify-Thinned corner simplify_tolerance
