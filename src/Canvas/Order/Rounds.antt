-- ===== src/Canvas/Order/Rounds.antt =====
-- One round of the loop of restack, front-end/src/lib/board/elements.ts, on the lists that it works on.
use skrivle.Prelude.{
  ◌≡◌, refl, sym, ap, ◌∙◌, Bool, true, false, not, ◌&&◌, List, [], ◌∷◌, ◌++◌, Text, text_eq, ==_iff,
  ◌==◌, filter, has, add, has-append, arith,
}
use skrivle.Canvas.Order.{paint}
use skrivle.Canvas.Order.Painted.{has-filter, has-paint}
use skrivle.Canvas.Order.Placing.{
  insert_after, filter-insert_after, insert_after-append, paint-seen, paint-insert_after,
}

-- The order without the ids that are still to be placed.
abbrev pub settled : List Text → List Text → List Text → List Text
settled moved rest order = filter (λ j. not (has j moved && has j rest)) order

abbrev pub others : Text → List Text → List Text
others id order = filter (λ j. not (j == id)) order

settled-others :
    (moved rest : List Text) (id : Text) (order : List Text)
    → has id moved ≡ true
    → settled moved rest (others id order) ≡ settled moved (id ∷ rest) order
unfolding has
settled-others moved rest id [] h = refl
settled-others moved rest id (x ∷ order) h =
    ground (arith, settled-others moved rest id order h, ==_iff x id, ==_iff id x)

pub settled-unmoved :
    (moved rest : List Text) (id : Text) (order : List Text)
    → has id moved ≡ false
    → settled moved (id ∷ rest) order ≡ settled moved rest order
unfolding has
settled-unmoved moved rest id [] h = refl
settled-unmoved moved rest id (x ∷ order) h =
    ground (arith, settled-unmoved moved rest id order h, ==_iff id x)

pub settled-nothing : (moved order : List Text) → settled moved [] order ≡ order
unfolding has
settled-nothing moved [] = refl
settled-nothing moved (x ∷ order) = ground (arith, settled-nothing moved order)

-- The first id goes to the bottom.
pub bottom-painted :
    (keys moved rest order : List Text) (id : Text)
    → has id keys ≡ true
    → has id moved ≡ true
    → has id rest ≡ false
    → paint keys [] (settled moved rest (id ∷ others id order))
      ≡ id ∷ paint keys [] (settled moved (id ∷ rest) order)
unfolding paint has add
bottom-painted keys moved rest order id known goes absent =
    let x = settled moved rest (others id order) in
    let without_id : has id x ≡ false =
      has-filter id (λ j. not (has j moved && has j rest)) (others id order)
      ∙ ground (arith, has-filter id (λ j. not (j == id)) order, ==_iff id id) in
    let unseen = paint-seen keys (id ∷ []) [] x (λ j h. ground (arith, ==_iff id j, without_id)) in
    let kept : settled moved rest (id ∷ others id order) ≡ id ∷ x = ground (arith, absent) in
    let top : paint keys [] (id ∷ x) ≡ id ∷ paint keys (id ∷ []) x = ground (arith, known) in
    ap (paint keys []) kept
    ∙ top
    ∙ ap (◌∷◌ id) unseen
    ∙ ap (λ l. id ∷ paint keys [] l) (settled-others moved rest id order goes)

-- A later one goes just above the one before it.
pub above-painted :
    (keys moved rest order pre post : List Text) (b id : Text)
    → has id keys ≡ true
    → has id moved ≡ true
    → has id rest ≡ false
    → has b rest ≡ false
    → (b == id) ≡ false
    → has b pre ≡ false
    → paint keys [] (settled moved (id ∷ rest) order) ≡ pre ++ (b ∷ post)
    → (has b (others id order) ≡ true)
      × (paint keys [] (settled moved rest (insert_after b id (others id order)))
          ≡ pre ++ (b ∷ id ∷ post))
unfolding has
above-painted keys moved rest order pre post b id known goes absent gone differ first painted =
    let p : Text → Bool = (λ j. not (has j moved && has j rest)) in
    let o = others id order in
    let x = settled moved rest o in
    let now : paint keys [] x ≡ pre ++ (b ∷ post) =
      ap (paint keys []) (settled-others moved rest id order goes) ∙ painted in
    let shown : has b (paint keys [] x) ≡ true =
      ap (has b) now ∙ has-append b pre (b ∷ post) ∙ ground (arith, ==_iff b b, first) in
    let seen : (has b keys && (true && has b x)) ≡ true = sym (has-paint b keys [] x) ∙ shown in
    let there : has b x ≡ true = ground arith in
    let known_b : has b keys ≡ true = ground arith in
    let filtered = has-filter b p o in
    let here : has b o ≡ true = ground (arith, filtered, there) in
    let without_id : has id x ≡ false =
      has-filter id p o ∙ ground (arith, has-filter id (λ j. not (j == id)) order, ==_iff id id) in
    let p_b : p b ≡ true = ground (arith, gone) in
    let p_id : p id ≡ true = ground (arith, absent) in
    (
      here,
      ap (paint keys []) (filter-insert_after p b id o p_b p_id)
          ∙ paint-insert_after keys [] x b id known refl without_id known_b refl there differ
          ∙ ap (insert_after b id) now
          ∙ insert_after-append b id pre post first,
    )
