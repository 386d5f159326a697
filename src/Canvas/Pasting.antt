-- ===== src/Canvas/Pasting.antt =====
-- What a paste accepts, front-end/src/lib/board/clipboard.ts.
pub mod Caps
pub mod Placing
use skrivle.Prelude.{
  ℕ, suc, ◌*◌, ◌/◌, min, nat_eq, Bool, true, false, not, ◌&&◌, ◌||◌, Option, none, some, List, [],
  ◌∷◌, ◌++◌, Text, codes, text_beq, map, length, take, filter, if◌then◌else◌, ◌==◌,
}
use skrivle.Numbers.{Doubles}
use skrivle.Browser.Cursor.{Point}
use skrivle.Canvas.Tools.{ElementKind, StrokeColor}
use skrivle.Canvas.Geometry.{Rect, point_at, is_path, normalize_rect, union_rects}

infixl 15 ◌>>=◌
abbrev pub ◌>>=◌ : {A B : Type 0} → Option A → (A → Option B) → Option B
none >>= f = none
some a >>= f = f a

abbrev pub version : ℕ
version = 1

abbrev pub max_paste : ℕ
max_paste = 500

abbrev pub max_text : ℕ
max_text = 10000

abbrev pub max_points : ℕ
max_points = 5000

-- isKind
unfoldable pub kind_named : Text → Option ElementKind
kind_named t =
    if text_beq t (codes "note")
    then some ElementKind.note
    else if text_beq t (codes "text")
    then some ElementKind.text
    else if text_beq t (codes "rect")
    then some ElementKind.rect
    else if text_beq t (codes "ellipse")
    then some ElementKind.ellipse
    else if text_beq t (codes "line")
    then some ElementKind.line
    else if text_beq t (codes "path")
    then some ElementKind.path
    else none

-- STROKES
unfoldable pub stroke_named : Text → Option StrokeColor
stroke_named t =
    if text_beq t (codes "ink")
    then some StrokeColor.ink
    else if text_beq t (codes "accent")
    then some StrokeColor.accent
    else none

abbrev pub is_written : ElementKind → Bool
is_written ElementKind.note = true
is_written ElementKind.text = true
is_written _ = false

module _ ⦃d : Doubles⦄ where
  open d use {Number, literal, add, subtract, divide, less, equal, round, is_finite}

  -- What JSON.parse returns; an object has each key once.
  mutual
    pub data Json : Type 0 where
      null : Json
      boolean : Bool → Json
      number : Number → Json
      string : Text → Json
      array : Items → Json
      object : Fields → Json

    pub data Items : Type 0 where
      no_items : Items
      item : Json → Items → Items

    pub data Fields : Type 0 where
      no_fields : Fields
      field : Text → Json → Fields → Fields

  -- ElementInit
  pub record ElementInit : Type 0 where
    pub kind : ElementKind
    pub x : Number
    pub y : Number
    pub w : Number
    pub h : Number
    pub bx : Option Number
    pub by : Option Number
    pub fill : Option (Option Text)
    pub stroke : Option StrokeColor
    pub stroke_width : Option Number
    pub font_size : Option Number
    pub arrow : Bool
    pub with_text : Bool
    pub text : Option Text
    pub points : Option (List Number)

  unfoldable pub get_field : Fields → Text → Option Json
  get_field no_fields key = none
  get_field (field k v fields) key =
      let rest = get_field fields key in if text_beq k key then some v else rest

  -- `finite` of one value, or of those of an array.
  unfoldable pub finite : Json → Option Number
  finite (number n) = if is_finite n then some n else none
  finite _ = none

  unfoldable pub finite_items : Items → List Number
  unfolding finite
  finite_items no_items = []
  finite_items (item j items) =
      let rest = finite_items items in elim (finite j) [ none ↦ rest | some n ↦ n ∷ rest ]

  unfoldable pub finite_field : Fields → Text → Option Number
  unfolding get_field finite
  finite_field fields key = elim (get_field fields key) [ none ↦ none | some j ↦ finite j ]

  abbrev pub kind_of : Option Json → Option ElementKind
  kind_of (some (string t)) = kind_named t
  kind_of _ = none

  abbrev pub fill_of : Option Json → Option (Option Text)
  fill_of (some (string t)) = some (some t)
  fill_of (some null) = some none
  fill_of _ = none

  abbrev pub stroke_of : Option Json → Option StrokeColor
  stroke_of (some (string t)) = stroke_named t
  stroke_of _ = none

  -- STROKE_WIDTHS
  abbrev pub stroke_width_of : Option Json → Option Number
  stroke_width_of (some (number n)) =
      if equal n (literal 1) || equal n (literal 2) || equal n (literal 4) || equal n (literal 8)
      then some n
      else none
  stroke_width_of _ = none

  abbrev pub font_size_of : Option Number → Option Number
  font_size_of (some n) = if less (literal 0) n then some n else none
  font_size_of none = none

  abbrev pub arrow_of : Option Json → Bool
  arrow_of (some (boolean b)) = b
  arrow_of _ = false

  abbrev pub text_of : Option Json → Option Text
  text_of (some (string t)) = some (take max_text t)
  text_of _ = none

  unfoldable pub samples_of : Option Json → List Number
  unfolding finite_items
  samples_of (some (array items)) = finite_items items
  samples_of _ = []

  -- The samples of a stroke: none of them is a dot.
  unfoldable pub inked : List Number → List Number
  inked points =
      let pairs = min (length points / 2) max_points in
      if pairs == 0 then literal 0 ∷ literal 0 ∷ [] else take (pairs * 2) points

  abbrev pub is_none : {A : Type 0} → Option A → Bool
  is_none none = true
  is_none (some a) = false

  -- toInit, once the kind and the box have been read.
  unfoldable pub init_from : ElementKind → Number → Number → Number → Number → Fields → ElementInit
  unfolding finite_field get_field inked samples_of
  init_from kind x y w h raw = record {
    kind = kind;
    x = x;
    y = y;
    w = w;
    h = h;
    bx = finite_field raw (codes "bx");
    by = finite_field raw (codes "by");
    fill = fill_of (get_field raw (codes "fill"));
    stroke = stroke_of (get_field raw (codes "stroke"));
    stroke_width = stroke_width_of (get_field raw (codes "strokeWidth"));
    font_size = font_size_of (finite_field raw (codes "fontSize"));
    arrow = arrow_of (get_field raw (codes "arrow"));
    with_text = is_none (text_of (get_field raw (codes "text"))) && is_written kind;
    text = text_of (get_field raw (codes "text"));
    points =
        if is_path kind then some (inked (samples_of (get_field raw (codes "points")))) else none;
  }

  -- toInit
  unfoldable pub to_init : Json → Option ElementInit
  unfolding init_from finite_field get_field
  to_init (object raw) = do
    kind ← kind_of (get_field raw (codes "kind"))
    x ← finite_field raw (codes "x")
    y ← finite_field raw (codes "y")
    w ← finite_field raw (codes "w")
    h ← finite_field raw (codes "h")
    some (init_from kind x y w h raw)
  to_init _ = none

  -- The slice and the flatMap of parsePayload.
  unfoldable pub to_inits : ℕ → Items → List ElementInit
  unfolding to_init
  to_inits (suc left) (item j items) =
      let rest = to_inits left items in elim (to_init j) [ none ↦ rest | some init ↦ init ∷ rest ]
  to_inits _ _ = []

  abbrev pub is_version : Option Json → Bool
  is_version (some (number n)) = equal n (literal version)
  is_version _ = false

  -- The elements of a payload, which the version must fit.
  unfoldable pub elements_of : Bool → Option Json → Option (List ElementInit)
  unfolding to_inits
  elements_of true (some (array items)) = some (to_inits max_paste items)
  elements_of _ _ = none

  unfoldable pub from_payload : Json → Option (List ElementInit)
  unfolding get_field elements_of
  from_payload (object raw) =
      elements_of (is_version (get_field raw (codes "skrivle"))) (get_field raw (codes "elements"))
  from_payload _ = none

  -- parsePayload; JSON.parse throws or returns a value.
  unfoldable pub parse_payload : (Text → Option Json) → Text → Option (List ElementInit)
  unfolding from_payload
  parse_payload parse text = parse text >>= from_payload
