-- ===== src/Canvas/Tools.antt =====
-- front-end/src/lib/board/tools.ts: the tools, the selection and its reducer, and the style fields.
pub mod Selection
pub mod Styles
use skrivle.Prelude.{
  ℕ, Bool, true, false, not, ◌&&◌, ◌||◌, Option, none, some, List, [], ◌∷◌, ◌++◌, Text, codes,
  text_eq, ◌==◌, filter, any, is_some, has, find, nat_eq, if◌then◌else◌,
}

pub data ToolId : Type 0 where
  select pan note text rect ellipse line pen : ToolId

pub data ElementKind : Type 0 where
  note text rect ellipse line path : ElementKind

pub data StrokeColor : Type 0 where
  ink accent : StrokeColor

-- kindFor
unfoldable pub kind_for : ToolId → Option ElementKind
kind_for ToolId.note = some ElementKind.note
kind_for ToolId.text = some ElementKind.text
kind_for ToolId.rect = some ElementKind.rect
kind_for ToolId.ellipse = some ElementKind.ellipse
kind_for ToolId.line = some ElementKind.line
kind_for ToolId.pen = some ElementKind.path
kind_for ToolId.select = none
kind_for ToolId.pan = none

-- isDragToDraw
unfoldable pub is_drag_to_draw : ToolId → Bool
is_drag_to_draw ToolId.rect = true
is_drag_to_draw ToolId.ellipse = true
is_drag_to_draw ToolId.line = true
is_drag_to_draw ToolId.text = true
is_drag_to_draw ToolId.select = false
is_drag_to_draw ToolId.pan = false
is_drag_to_draw ToolId.note = false
is_drag_to_draw ToolId.pen = false

-- TOOLS: each tool's shortcut, an upper-case letter.
abbrev pub shortcuts : List (ℕ × ToolId)
shortcuts =
    (b'V', ToolId.select)
    ∷ (b'H', ToolId.pan)
    ∷ (b'N', ToolId.note)
    ∷ (b'T', ToolId.text)
    ∷ (b'R', ToolId.rect)
    ∷ (b'O', ToolId.ellipse)
    ∷ (b'L', ToolId.line)
    ∷ (b'P', ToolId.pen)
    ∷ []

-- toolForKey, of the units of `key.toUpperCase()`.
unfoldable pub tool_for_key : Text → Option ToolId
unfolding find
tool_for_key (c ∷ []) = find c shortcuts
tool_for_key _ = none

pub record BoardStyle : Type 0 where
  pub fill : Text
  pub stroke : StrokeColor
  pub stroke_width : ℕ
  pub font_size : ℕ
  pub arrow : Bool
  pub shape_filled : Bool

abbrev pub default_style : BoardStyle
default_style = record {
  fill = codes "gray";
  stroke = ink;
  stroke_width = 2;
  font_size = 14;
  arrow = false;
  shape_filled = false;
}

-- Partial<BoardStyle>
pub record StylePatch : Type 0 where
  pub fill : Option Text
  pub stroke : Option StrokeColor
  pub stroke_width : Option ℕ
  pub font_size : Option ℕ
  pub arrow : Option Bool
  pub shape_filled : Option Bool

abbrev pub get_or {ℓ} : {A : Type ℓ} → Option A → A → A
get_or none d = d
get_or (some a) d = a

-- { ...style, ...patch }
unfoldable pub merge_style : BoardStyle → StylePatch → BoardStyle
merge_style style patch = record {
  fill = get_or patch.fill style.fill;
  stroke = get_or patch.stroke style.stroke;
  stroke_width = get_or patch.stroke_width style.stroke_width;
  font_size = get_or patch.font_size style.font_size;
  arrow = get_or patch.arrow style.arrow;
  shape_filled = get_or patch.shape_filled style.shape_filled;
}

pub record ToolState : Type 0 where
  pub tool : ToolId
  pub selection : List Text
  pub editing_id : Option Text
  pub style : BoardStyle

abbrev pub initial_tool_state : ToolState
initial_tool_state = record {
  tool = ToolId.select;
  selection = [];
  editing_id = none;
  style = default_style;
}

pub data ToolAction : Type 0 where
  pick : ToolId → ToolAction
  selects : List Text → ToolAction
  add_to_selection : Text → ToolAction
  clear : ToolAction
  edit : Option Text → ToolAction
  restyle : StylePatch → ToolAction
  created : Text → ToolAction
  gone : List Text → ToolAction

unfoldable pub same_tool : ToolId → ToolId → Bool
same_tool ToolId.select ToolId.select = true
same_tool ToolId.pan ToolId.pan = true
same_tool ToolId.note ToolId.note = true
same_tool ToolId.text ToolId.text = true
same_tool ToolId.rect ToolId.rect = true
same_tool ToolId.ellipse ToolId.ellipse = true
same_tool ToolId.line ToolId.line = true
same_tool ToolId.pen ToolId.pen = true
same_tool _ _ = false

abbrev is_empty : List Text → Bool
is_empty [] = true
is_empty (x ∷ xs) = false

-- state.editingId && gone.has(state.editingId): the empty string is falsy.
unfoldable pub editing_gone : List Text → Option Text → Bool
editing_gone ids none = false
editing_gone ids (some []) = false
editing_gone ids (some (c ∷ id)) = has (c ∷ id) ids

-- action.id ? [action.id] : state.selection
unfoldable pub edit_selection : Option Text → List Text → List Text
edit_selection none selection = selection
edit_selection (some []) selection = selection
edit_selection (some (c ∷ id)) selection = (c ∷ id) ∷ []

unfoldable pub forget : List Text → ToolState → ToolState
unfolding editing_gone
forget ids state =
    if not (any (λ id. has id ids) state.selection)
    then (if editing_gone ids state.editing_id then record state { editing_id = none } else state)
    else record state {
      selection = filter (λ id. not (has id ids)) state.selection;
      editing_id = if editing_gone ids state.editing_id then none else state.editing_id;
    }

-- toolReducer
unfoldable pub tool_reducer : ToolState → ToolAction → ToolState
unfolding same_tool forget edit_selection merge_style
tool_reducer state (pick tool) =
    if same_tool tool state.tool
    then state
    else record state { tool = tool; selection = []; editing_id = none }
tool_reducer state (selects ids) = record state { selection = ids; editing_id = none }
tool_reducer state (add_to_selection id) =
    if has id state.selection
    then record state { selection = filter (λ x. not (x == id)) state.selection }
    else record state { selection = state.selection ++ id ∷ []; editing_id = none }
tool_reducer state clear =
    if is_empty state.selection && not (is_some state.editing_id)
    then state
    else record state { selection = []; editing_id = none }
tool_reducer state (edit id) = record state {
  editing_id = id;
  selection = edit_selection id state.selection;
}
tool_reducer state (restyle patch) = record state { style = merge_style state.style patch }
tool_reducer state (created id) =
    if same_tool state.tool ToolId.pen
    then state
    else record state { tool = ToolId.select; selection = id ∷ []; editing_id = none }
tool_reducer state (gone ids) = forget ids state

pub data StyleKey : Type 0 where
  fill stroke stroke_width font_size arrow shape_filled : StyleKey

-- APPLIES
unfoldable pub applies : ElementKind → StyleKey → Bool
applies ElementKind.note StyleKey.fill = true
applies ElementKind.note StyleKey.font_size = true
applies ElementKind.text StyleKey.stroke = true
applies ElementKind.text StyleKey.font_size = true
applies ElementKind.rect StyleKey.fill = true
applies ElementKind.rect StyleKey.shape_filled = true
applies ElementKind.rect StyleKey.stroke = true
applies ElementKind.rect StyleKey.stroke_width = true
applies ElementKind.ellipse StyleKey.fill = true
applies ElementKind.ellipse StyleKey.shape_filled = true
applies ElementKind.ellipse StyleKey.stroke = true
applies ElementKind.ellipse StyleKey.stroke_width = true
applies ElementKind.line StyleKey.stroke = true
applies ElementKind.line StyleKey.stroke_width = true
applies ElementKind.line StyleKey.arrow = true
applies ElementKind.path StyleKey.stroke = true
applies ElementKind.path StyleKey.stroke_width = true
applies _ _ = false

-- The fields to write: `none` leaves a field alone, and a fill may be written as null.
pub record StyleFields : Type 0 where
  pub stroke : Option StrokeColor
  pub stroke_width : Option ℕ
  pub font_size : Option ℕ
  pub arrow : Option Bool
  pub fill : Option (Option Text)

abbrev pub when {ℓ} : {A : Type ℓ} → Bool → Option A → Option A
when b o = if b then o else none

unfoldable pub is_note : ElementKind → Bool
is_note ElementKind.note = true
is_note _ = false

-- styleFieldsFor
unfoldable pub style_fields_for : ElementKind → StylePatch → BoardStyle → StyleFields
unfolding applies is_note
style_fields_for kind patch resolved = record {
  stroke = when (applies kind StyleKey.stroke) patch.stroke;
  stroke_width = when (applies kind StyleKey.stroke_width) patch.stroke_width;
  font_size = when (applies kind StyleKey.font_size) patch.font_size;
  arrow = when (applies kind StyleKey.arrow) patch.arrow;
  fill = when ((is_some patch.fill || is_some patch.shape_filled) && applies kind StyleKey.fill) (
      some (
        if is_note kind
        then some resolved.fill
        else (if resolved.shape_filled then some resolved.fill else none)));
}
