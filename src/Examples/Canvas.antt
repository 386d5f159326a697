-- ===== src/Examples/Canvas.antt =====
-- Runs of the canvas: an edit of a text, and boards of a few elements.
use skrivle.Canvas.Tools.Selection.{EditsSelected, reducer-EditsSelected}
use skrivle.Prelude.{
  arith, text_beq, ◌≤◌, ◌≡◌, refl, not, ◌&&◌, some, List, [], ◌∷◌, Text, codes, text_eq, has,
  length, filter,
}
use skrivle.Examples.Services.{plain_text, list_board}
use skrivle.Services.{halves_pair}
use skrivle.Canvas.TextEdit.{diff, apply_text_edit}
use skrivle.Canvas.TextEdit.Result.{to_string-apply_text_edit}
use skrivle.Canvas.TextEdit.Smallest.{diff-smallest}
use skrivle.Canvas.Tools.{tool_reducer, gone, ToolState, initial_tool_state}
use skrivle.Canvas.Order.{ordered_ids, restack, forward, ordered_ids, remove_elements, restacked}
use skrivle.Canvas.Order.Removal.{remove-exact}
use skrivle.Canvas.Order.Placed.{restack-paints}

to_string-apply_text_edit_example :
    plain_text.to_string (apply_text_edit (codes "sketch") (codes "stretch")) ≡ codes "stretch"
unfolding halves_pair diff
to_string-apply_text_edit_example =
    to_string-apply_text_edit (codes "sketch") (codes "stretch") (refl, refl)

-- From "sketch" to "stretch" by "k" and "tr", around which the strings agree.
diff-smallest_example :
    ((diff (codes "sketch") (codes "stretch")).removed ≤ 1)
    × (length (diff (codes "sketch") (codes "stretch")).inserted ≤ 2)
diff-smallest_example = diff-smallest (codes "s") (codes "k") (codes "tr") (codes "etch")

abbrev board : List Text × List Text
board = (codes "a" ∷ codes "b" ∷ codes "c" ∷ [], codes "b" ∷ codes "a" ∷ codes "b" ∷ [])

remove-exact_example :
    (list_board.order (remove_elements (codes "b" ∷ []) board)
      ≡ filter (λ id. not (has id (codes "b" ∷ []))) (list_board.order board))
    × (has (codes "a") (list_board.keys (remove_elements (codes "b" ∷ []) board))
        ≡ (not (has (codes "a") (codes "b" ∷ [])) && has (codes "a") (list_board.keys board)))
remove-exact_example = remove-exact (codes "b" ∷ []) (codes "a") board

abbrev painted : List Text
painted = codes "a" ∷ codes "b" ∷ codes "c" ∷ []

restack-paints_example :
    ordered_ids (restack (codes "a" ∷ codes "b" ∷ []) forward (painted, painted))
    ≡ (restacked (ordered_ids (painted, painted)) (codes "a" ∷ codes "b" ∷ []) forward).next
restack-paints_example = restack-paints (codes "a" ∷ codes "b" ∷ []) forward (painted, painted)

abbrev editing : ToolState
editing = record initial_tool_state { selection = codes "a" ∷ []; editing_id = some (codes "a") }

reducer-EditsSelected_example : EditsSelected (tool_reducer editing (gone (codes "a" ∷ [])))
unfolding text_beq
reducer-EditsSelected_example =
    reducer-EditsSelected editing (gone (codes "a" ∷ [])) (λ id e f. ground arith)
      (λ id e n. ground arith)
