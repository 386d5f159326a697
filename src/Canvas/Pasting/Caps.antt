-- ===== src/Canvas/Pasting/Caps.antt =====
-- What a paste can bring, front-end/src/lib/board/clipboard.ts.
use skrivle.Prelude.{
  ℕ, ◌*◌, ◌/◌, ◌≤◌, suc, zero, ◌≡◌, ◌≢◌, inl, inr, refl, min, nat_eq, ◌==◌, Bool, true, false,
  Bool-cases, Option, none, some, Option-cases, List, [], ◌∷◌, Text, codes, length, take,
  length-take, if◌then◌else◌, every, arith,
}
use mathlib.Core.Path.{subst}
use mathlib.Core.Option.{some-injective}
use skrivle.Numbers.{Doubles}
use skrivle.Canvas.Tools.{ElementKind}
use skrivle.Canvas.Geometry.{is_path}
use skrivle.Canvas.Pasting.{
  ◌>>=◌, max_paste, max_text, max_points, is_written, is_none, Json, Items, Fields, ElementInit,
  get_field, finite, finite_items, finite_field, kind_of, text_of, samples_of, inked, init_from,
  to_init, to_inits, elements_of, from_payload, parse_payload,
}

module _ ⦃d : Doubles⦄ where
  open d use {Number, literal, is_finite, finite-zero}

  -- Whole pairs of coordinates, at least one and no more than a stroke may have.
  pub Ink : List Number → Type 0
  Ink samples =
      (pairs : ℕ) × (length samples ≡ pairs * 2)
      × (1 ≤ pairs)
      × (pairs ≤ max_points)
      × (every is_finite samples ≡ true)

  -- What an element may be made of.
  pub record Drawable (init : ElementInit) : Type 0 where
    pub x : is_finite init.x ≡ true
    pub y : is_finite init.y ≡ true
    pub w : is_finite init.w ≡ true
    pub h : is_finite init.h ≡ true
    pub short : (t : Text) → init.text ≡ some t → length t ≤ max_text
    pub written : is_written init.kind ≡ true → init.with_text ≡ is_none init.text
    pub drawn : is_path init.kind ≡ true → init.points ≢ none
    pub inky : (samples : List Number) → init.points ≡ some samples → Ink samples

  take-finite :
      (n : ℕ) (l : List Number) → every is_finite l ≡ true → every is_finite (take n l) ≡ true
  take-finite zero l h = refl
  take-finite (suc n) [] h = refl
  take-finite (suc n) (a ∷ l) h = ground (arith, h, take-finite n l)

  finite-case :
      (j : Json) (l : List Number)
      → every is_finite l ≡ true
      → every is_finite (elim (finite j) [ none ↦ l | some n ↦ n ∷ l ]) ≡ true
  unfolding finite
  finite-case (Json.number n) l h = ground (arith, h)
  finite-case Json.null l h = h
  finite-case (Json.string s) l h = h
  finite-case (Json.boolean b) l h = h
  finite-case (Json.array items) l h = h
  finite-case (Json.object _) l h = h

  finite_items-finite : (items : Items) → every is_finite (finite_items items) ≡ true
  unfolding finite_items finite
  finite_items-finite Items.no_items = refl
  finite_items-finite (Items.item j items) =
      finite-case j (finite_items items) (finite_items-finite items)

  text_of-short : (o : Option Json) (t : Text) → text_of o ≡ some t → length t ≤ max_text
  text_of-short (some (Json.string s)) t e = ground (arith, e, length-take max_text s)
  text_of-short none t e = ground (arith, e)
  text_of-short (some Json.null) t e = ground (arith, e)
  text_of-short (some (Json.boolean b)) t e = ground (arith, e)
  text_of-short (some (Json.number n)) t e = ground (arith, e)
  text_of-short (some (Json.array items)) t e = ground (arith, e)
  text_of-short (some (Json.object _)) t e = ground (arith, e)

  samples_of-finite : (o : Option Json) → every is_finite (samples_of o) ≡ true
  unfolding samples_of
  samples_of-finite (some (Json.array items)) = finite_items-finite items
  samples_of-finite none = refl
  samples_of-finite (some (Json.string s)) = refl
  samples_of-finite (some Json.null) = refl
  samples_of-finite (some (Json.boolean b)) = refl
  samples_of-finite (some (Json.number n)) = refl
  samples_of-finite (some (Json.object _)) = refl

  inked-Ink : (points : List Number) → every is_finite points ≡ true → Ink (inked points)
  unfolding inked Ink
  inked-Ink points h =
      let pairs = min (length points / 2) max_points in
      elim (Bool-cases (pairs == 0)) [
        | inl y ↦ rw (inked, y) (1, refl, omega arith, omega arith, ground (arith, finite-zero))
        | inr n ↦
            rw (inked, n)
              (
                pairs,
                omega (arith, length-take (pairs * 2) points),
                ground (arith, n),
                omega arith,
                take-finite (pairs * 2) points h,
              )
      ]

  finite-finite : (j : Json) (n : Number) → finite j ≡ some n → is_finite n ≡ true
  unfolding finite
  finite-finite (Json.number k) n e = ground (arith, e)
  finite-finite Json.null n e = ground (arith, e)
  finite-finite (Json.string _) n e = ground (arith, e)
  finite-finite (Json.boolean _) n e = ground (arith, e)
  finite-finite (Json.array _) n e = ground (arith, e)
  finite-finite (Json.object _) n e = ground (arith, e)

  finite_field-finite :
      (raw : Fields) (key : Text) (n : Number) → finite_field raw key ≡ some n → is_finite n ≡ true
  unfolding finite_field finite
  finite_field-finite raw key n e = elim (Option-cases (get_field raw key)) [
    | inl missing ↦ ground (arith, e, missing)
    | inr (j, found) ↦ finite-finite j n (ground (arith, e, found))
  ]

  Ink-case :
      (stroke : Bool) (l samples : List Number)
      → Ink l
      → (if stroke then some l else none) ≡ some samples
      → Ink samples
  Ink-case true l samples ink e = subst Ink (some-injective _ _ e) ink
  Ink-case false l samples ink e = ground (arith, e)

  init_from-Drawable :
      (kind : ElementKind) (x y w h : Number) (raw : Fields)
      → is_finite x ≡ true
      → is_finite y ≡ true
      → is_finite w ≡ true
      → is_finite h ≡ true
      → Drawable (init_from kind x y w h raw)
  unfolding init_from
  init_from-Drawable kind x y w h raw fx fy fw fh = record {
    x = fx;
    y = fy;
    w = fw;
    h = fh;
    short = λ t e. text_of-short (get_field raw (codes "text")) t e;
    written = λ e. ground (arith, e);
    drawn = λ e. ground (arith, e);
    inky = λ samples e.
        Ink-case (is_path kind) _ samples
          (inked-Ink _ (samples_of-finite (get_field raw (codes "points")))) e;
  }

  Finite : Option Number → Type 0
  Finite o = (n : Number) → o ≡ some n → is_finite n ≡ true

  boxed-Drawable :
      (kind : Option ElementKind) (x y w h : Option Number) (raw : Fields) (init : ElementInit)
      → Finite x
      → Finite y
      → Finite w
      → Finite h
      → (kind >>= λ kind.
          x >>= λ x. y >>= λ y. w >>= λ w. h >>= λ h. some (init_from kind x y w h raw))
        ≡ some init
      → Drawable init
  unfolding Finite
  boxed-Drawable (some kind) (some x) (some y) (some w) (some h) raw init fx fy fw fh e =
      subst Drawable (some-injective _ _ e)
        (init_from-Drawable kind x y w h raw (fx x refl) (fy y refl) (fw w refl) (fh h refl))
  boxed-Drawable none x y w h raw init fx fy fw fh e = ground (arith, e)
  boxed-Drawable (some kind) none y w h raw init fx fy fw fh e = ground (arith, e)
  boxed-Drawable (some kind) (some x) none w h raw init fx fy fw fh e = ground (arith, e)
  boxed-Drawable (some kind) (some x) (some y) none h raw init fx fy fw fh e = ground (arith, e)
  boxed-Drawable (some kind) (some x) (some y) (some w) none raw init fx fy fw fh e =
      ground (arith, e)

  to_init-Drawable : (j : Json) (init : ElementInit) → to_init j ≡ some init → Drawable init
  unfolding to_init Finite
  to_init-Drawable (Json.object raw) init e =
      boxed-Drawable (kind_of (get_field raw (codes "kind"))) (finite_field raw (codes "x"))
        (finite_field raw (codes "y")) (finite_field raw (codes "w")) (finite_field raw (codes "h"))
        raw init (finite_field-finite raw (codes "x")) (finite_field-finite raw (codes "y"))
        (finite_field-finite raw (codes "w")) (finite_field-finite raw (codes "h")) e
  to_init-Drawable Json.null init e = ground (arith, e)
  to_init-Drawable (Json.string _) init e = ground (arith, e)
  to_init-Drawable (Json.boolean _) init e = ground (arith, e)
  to_init-Drawable (Json.number _) init e = ground (arith, e)
  to_init-Drawable (Json.array _) init e = ground (arith, e)

  pub data Each : List ElementInit → Type 0 where
    nothing : Each []
    each :
        (init : ElementInit) (inits : List ElementInit)
        → Drawable init
        → Each inits
        → Each (init ∷ inits)

  to_inits-Each :
      (left : ℕ) (items : Items)
      → Each (to_inits left items) × (length (to_inits left items) ≤ left)
  unfolding to_inits
  to_inits-Each zero items = (Each.nothing, omega arith)
  to_inits-Each (suc left) Items.no_items = (Each.nothing, omega arith)
  to_inits-Each (suc left) (Items.item j items) =
      let (rest, few) = to_inits-Each left items in
      elim (Option-cases (to_init j)) [
        | inl bad ↦ rw (to_inits, bad) (rest, omega (arith, few))
        | inr (init, good) ↦
            rw (to_inits, good)
              (Each.each init _ (to_init-Drawable j init good) rest, omega (arith, few))
      ]

  elements_of-Each :
      (right : Bool) (o : Option Json) (inits : List ElementInit)
      → elements_of right o ≡ some inits
      → Each inits × (length inits ≤ max_paste)
  unfolding elements_of
  elements_of-Each true (some (Json.array items)) inits e =
      subst (λ l. Each l × (length l ≤ max_paste)) (some-injective _ _ e)
        (to_inits-Each max_paste items)
  elements_of-Each false o inits e = ground (arith, e)
  elements_of-Each true none inits e = ground (arith, e)
  elements_of-Each true (some Json.null) inits e = ground (arith, e)
  elements_of-Each true (some (Json.string _)) inits e = ground (arith, e)
  elements_of-Each true (some (Json.boolean _)) inits e = ground (arith, e)
  elements_of-Each true (some (Json.number _)) inits e = ground (arith, e)
  elements_of-Each true (some (Json.object _)) inits e = ground (arith, e)

  from_payload-Each :
      (j : Json) (inits : List ElementInit)
      → from_payload j ≡ some inits
      → Each inits × (length inits ≤ max_paste)
  unfolding from_payload
  from_payload-Each (Json.object raw) inits e = elements_of-Each _ _ inits e
  from_payload-Each Json.null inits e = ground (arith, e)
  from_payload-Each (Json.string _) inits e = ground (arith, e)
  from_payload-Each (Json.boolean _) inits e = ground (arith, e)
  from_payload-Each (Json.number _) inits e = ground (arith, e)
  from_payload-Each (Json.array _) inits e = ground (arith, e)

  -- Whatever text is pasted, at most five hundred elements come of it; each has a finite box, at most
  -- ten thousand characters of text, a text to bind to when it is a note or a text box, and, when it is
  -- a stroke, between one and five thousand whole pairs of finite coordinates.
  pub parse-Each :
      (parse : Text → Option Json) (pasted : Text) (inits : List ElementInit)
      → parse_payload parse pasted ≡ some inits
      → Each inits × (length inits ≤ max_paste)
  unfolding parse_payload
  parse-Each parse pasted inits e = elim (Option-cases (parse pasted)) [
    | inl broken ↦ ground (arith, e, broken)
    | inr (j, read) ↦ from_payload-Each j inits (ground (arith, e, read))
  ]
