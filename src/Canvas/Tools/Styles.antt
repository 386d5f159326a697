-- ===== src/Canvas/Tools/Styles.antt =====
-- front-end/src/lib/board/tools.ts: the fields that a change of style writes.
use skrivle.Prelude.{◌≡◌, ◌≢◌, true, none, some, arith, ◌⊎◌}
use skrivle.Canvas.Tools.{ElementKind, BoardStyle, StylePatch, StyleKey, applies, style_fields_for}

-- A change of style writes a field only if the change names it and it means something to the kind;
-- what is written is what the change named, but for a fill, which is the resolved one, null for a
-- shape that is not filled, and never null for a note.
pub style-writes :
    (kind : ElementKind) (patch : StylePatch) (resolved : BoardStyle)
    → ((style_fields_for kind patch resolved).stroke ≢ none
        → (applies kind StyleKey.stroke ≡ true)
          × ((style_fields_for kind patch resolved).stroke ≡ patch.stroke))
      × ((style_fields_for kind patch resolved).stroke_width ≢ none
          → (applies kind StyleKey.stroke_width ≡ true)
            × ((style_fields_for kind patch resolved).stroke_width ≡ patch.stroke_width))
      × ((style_fields_for kind patch resolved).font_size ≢ none
          → (applies kind StyleKey.font_size ≡ true)
            × ((style_fields_for kind patch resolved).font_size ≡ patch.font_size))
      × (kind ≡ ElementKind.note → (style_fields_for kind patch resolved).fill ≢ some none)
      × ((style_fields_for kind patch resolved).fill ≢ none
          → (patch.fill ≢ none) ⊎ (patch.shape_filled ≢ none))
unfolding style_fields_for
style-writes kind patch resolved =
    (ground arith, ground arith, ground arith, ground arith, ground arith)
