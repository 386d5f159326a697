-- ===== src/Canvas/Tools/Selection.antt =====
-- front-end/src/lib/board/tools.ts: what the reducer keeps of the selection and the edited element.
use skrivle.Prelude.{
  ◌≡◌, ◌≢◌, refl, true, false, not, ◌&&◌, Option, none, some, List, [], ◌∷◌, inl, inr, arith, Text,
  text_eq, ◌==◌, ==_iff, ==_refl, filter, any, has, has-append, if◌then◌else◌, Bool-cases, ap,
}
use skrivle.Canvas.Tools.{
  ToolState, ToolAction, pick, selects, add_to_selection, clear, edit, restyle, created, gone,
  editing_gone, edit_selection, forget, tool_reducer,
}

-- An element that is being edited is the one that is selected.
abbrev pub EditsSelected : ToolState → Type 0
EditsSelected s = (id : Text) → s.editing_id ≡ some id → id ≢ [] → s.selection ≡ id ∷ []

has-filter-not :
    (k : Text) (ids l : List Text)
    → has k (filter (λ id. not (has id ids)) l) ≡ (has k l && not (has k ids))
unfolding has
has-filter-not k ids [] = ground arith
has-filter-not k ids (x ∷ l) = ground (arith, ==_iff x k, has-filter-not k ids l)

has-any :
    (k : Text) (ids l : List Text)
    → has k l ≡ true
    → has k ids ≡ true
    → any (λ id. has id ids) l ≡ true
unfolding has
has-any k ids [] h g = cc
has-any k ids (x ∷ l) h g = ground (arith, ==_iff x k, has-any k ids l)

editing_gone-hit :
    (ids : List Text) (o : Option Text) (id : Text)
    → id ≢ []
    → has id ids ≡ true
    → o ≡ some id
    → editing_gone ids o ≡ true
unfolding editing_gone
editing_gone-hit ids none id named h e = cc
editing_gone-hit ids (some []) id named h e = absurd (named (cc))
editing_gone-hit ids (some (c ∷ x)) id named h e = let same : c ∷ x ≡ id = cc in rw same h

editing_gone-miss :
    (ids : List Text) (o : Option Text) (id : Text)
    → has id ids ≡ false
    → o ≡ some id
    → editing_gone ids o ≡ false
unfolding editing_gone
editing_gone-miss ids none id h e = refl
editing_gone-miss ids (some []) id h e = refl
editing_gone-miss ids (some (c ∷ x)) id h e = let same : c ∷ x ≡ id = cc in rw same h

selection-forget :
    (s : ToolState) (ids : List Text) (id : Text)
    → has id (forget ids s).selection ≡ (has id s.selection && not (has id ids))
unfolding forget
selection-forget s ids id =
    ground (arith, has-filter-not id ids s.selection, has-any id ids s.selection)

editing-forget :
    (s : ToolState) (ids : List Text) (id : Text)
    → id ≢ []
    → has id ids ≡ true
    → (forget ids s).editing_id ≢ some id
unfolding forget
editing-forget s ids id named h e = ground (arith, editing_gone-hit ids s.editing_id id named h)

-- Elements that have gone are no longer selected nor edited, and every other one is selected exactly
-- if it was.
pub forget-gone :
    (s : ToolState) (ids : List Text) (id : Text)
    → id ≢ []
    → (has id (tool_reducer s (gone ids)).selection ≡ (has id s.selection && not (has id ids)))
      × (has id ids ≡ true → (tool_reducer s (gone ids)).editing_id ≢ some id)
unfolding tool_reducer
forget-gone s ids id named = (selection-forget s ids id, editing-forget s ids id named)

has-filter_ne :
    (k j : Text) (l : List Text) → has j (filter (λ x. not (x == k)) l) ≡ (has j l && not (k == j))
unfolding has
has-filter_ne k j [] = ground arith
has-filter_ne k j (x ∷ l) = ground (arith, ==_iff x j, ==_iff x k, ==_iff k j, has-filter_ne k j l)

-- Adding to the selection turns one element's place in it on or off, and nobody else's.
pub add_to_selection-toggles :
    (s : ToolState) (id j : Text)
    → has j (tool_reducer s (add_to_selection id)).selection
      ≡ (if id == j then not (has j s.selection) else has j s.selection)
unfolding tool_reducer has
add_to_selection-toggles s id j =
    ground (arith, ==_iff id j, has-filter_ne id j s.selection, has-append j s.selection (id ∷ []))

editing-forget_was :
    (s : ToolState) (ids : List Text) (id : Text)
    → (forget ids s).editing_id ≡ some id
    → s.editing_id ≡ some id
unfolding forget
editing-forget_was s ids id e = ground arith

forget-EditsSelected :
    (s : ToolState) (ids : List Text) → EditsSelected s → EditsSelected (forget ids s)
forget-EditsSelected s ids v id e named =
    let was = editing-forget_was s ids id e in
    let alone = v id was named in
    elim (Bool-cases (has id ids)) [
      | inl hit ↦ absurd (editing-forget s ids id named hit e)
      | inr miss ↦
          let quiet : any (λ x. has x ids) s.selection ≡ false = rw alone (rw miss) in
          unfold forget in ground (arith, editing_gone-miss ids s.editing_id id miss was)
    ]

edit_selection-some :
    (o : Option Text) (selection : List Text) (id : Text)
    → o ≡ some id
    → id ≢ []
    → edit_selection o selection ≡ id ∷ []
unfolding edit_selection
edit_selection-some none selection id e named = cc
edit_selection-some (some []) selection id e named = absurd (named (cc))
edit_selection-some (some (c ∷ x)) selection id e named = cc

add-EditsSelected :
    (s : ToolState) (x : Text)
    → EditsSelected s
    → (id : Text) → s.editing_id ≢ some x
    → (tool_reducer s (add_to_selection x)).editing_id ≡ some id
    → id ≢ []
    → (tool_reducer s (add_to_selection x)).selection ≡ id ∷ []
unfolding tool_reducer has
add-EditsSelected s x v id other e named = elim (Bool-cases (has x s.selection)) [
  | inl inside ↦
      let was : s.editing_id ≡ some id = ground arith in
      absurd (ground (arith, ap (has x) (v id was named), ==_iff id x))
  | inr outside ↦ ground arith
]

-- Every action keeps the edited element the only selected one, but for one that takes the edited
-- element itself out of the selection.
pub reducer-EditsSelected :
    (s : ToolState) (a : ToolAction)
    → ((id : Text) → a ≡ add_to_selection id → s.editing_id ≢ some id)
    → EditsSelected s
    → EditsSelected (tool_reducer s a)
unfolding tool_reducer
reducer-EditsSelected s (pick tool) ok v id e named = ground (arith, v id)
reducer-EditsSelected s (selects ids) ok v id e named = cc
reducer-EditsSelected s (add_to_selection x) ok v id e named =
    add-EditsSelected s x v id (ok x refl) e named
reducer-EditsSelected s clear ok v id e named = ground (arith, v id)
reducer-EditsSelected s (edit x) ok v id e named = edit_selection-some x s.selection id e named
reducer-EditsSelected s (restyle patch) ok v id e named = v id e named
reducer-EditsSelected s (created x) ok v id e named = ground (arith, v id)
reducer-EditsSelected s (gone ids) ok v id e named = forget-EditsSelected s ids v id e named

-- Taking the edited element out of the selection leaves it edited with nothing selected.
pub deselect-edits_on :
    (s : ToolState) (id : Text)
    → s.selection ≡ id ∷ []
    → s.editing_id ≡ some id
    → ((tool_reducer s (add_to_selection id)).selection ≡ [])
      × ((tool_reducer s (add_to_selection id)).editing_id ≡ some id)
unfolding tool_reducer has
deselect-edits_on s id only edited =
    ground (arith, ==_refl id, ap (has id) only, ap (filter (λ x. not (x == id))) only)
