-- ===== src/Examples/Clipboard.antt =====
-- A clipboard with a note, a stroke of an odd number of samples, and something else.
use skrivle.Prelude.{◌≤◌, refl, true, false, none, some, List, [], ◌∷◌, codes, text_beq, length}
use skrivle.Examples.Numbers.{halves}
use skrivle.Canvas.Tools.{ElementKind}
use skrivle.Canvas.Pasting.{max_paste, Json, Items, Fields, ElementInit, kind_named, parse_payload}
use skrivle.Canvas.Pasting.Caps.{Each, parse-Each}

abbrev boxed : Fields → Fields
boxed rest = Fields.field (codes "x") (Json.number 0) (
    Fields.field (codes "y") (Json.number 2)
      (Fields.field (codes "w") (Json.number 4) (Fields.field (codes "h") (Json.number 6) rest)))

abbrev note : Json
note =
    Json.object (Fields.field (codes "kind") (Json.string (codes "note")) (boxed Fields.no_fields))

abbrev stroke : Json
stroke = Json.object (
    Fields.field (codes "kind") (Json.string (codes "path")) (
      boxed (
        Fields.field (codes "points")
          (Json.array (
            Items.item (Json.number 2) (
              Items.item Json.null
                (Items.item (Json.number 4) (Items.item (Json.number 6) Items.no_items)))))
          Fields.no_fields)))

abbrev payload : Json
payload = Json.object (
    Fields.field (codes "skrivle") (Json.number 2) (
      Fields.field (codes "elements")
        (Json.array
          (Items.item note (Items.item (Json.number 2) (Items.item stroke Items.no_items))))
        Fields.no_fields))

abbrev bare : ElementKind → ElementInit
bare kind = record {
  kind = kind;
  x = 0;
  y = 2;
  w = 4;
  h = 6;
  bx = none;
  by = none;
  fill = none;
  stroke = none;
  stroke_width = none;
  font_size = none;
  arrow = false;
  with_text = true;
  text = none;
  points = none;
}

abbrev pasted : List ElementInit
pasted =
    bare ElementKind.note
    ∷ record (bare ElementKind.path) { with_text = false; points = some (2 ∷ 4 ∷ []) }
    ∷ []

parse-Each_example : Each pasted × (length pasted ≤ max_paste)
unfolding parse_payload kind_named text_beq
parse-Each_example = parse-Each (λ _. some payload) [] pasted refl
