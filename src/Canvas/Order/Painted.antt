-- ===== src/Canvas/Order/Painted.antt =====
-- What orderedIds, repairOrder and createElement of front-end/src/lib/board/elements.ts paint.
use skrivle.Prelude.{
  ◌≡◌, refl, Bool, true, false, not, ◌&&◌, List, [], ◌∷◌, ◌++◌, Text, text_eq, ==_iff, filter, has,
  add, has-add, has-append, if◌then◌else◌, arith, inl, inr, Bool-cases,
}
use skrivle.Services.{SharedBoard}
use skrivle.Realtime.DocManager.{is_empty}
use skrivle.Canvas.Order.{paint, ordered_ids, repair_order, create_element}

pub has-paint :
    (j : Text) (keys seen order : List Text)
    → has j (paint keys seen order) ≡ (has j keys && (not (has j seen) && has j order))
unfolding paint has
has-paint j keys seen [] = ground arith
has-paint j keys seen (id ∷ order) =
    let left =
      has-paint j keys (if has id keys && not (has id seen) then add id seen else seen) order in
    ground (arith, left, ==_iff id j, has-add id j seen)

pub has-filter :
    (j : Text) (p : Text → Bool) (xs : List Text) → has j (filter p xs) ≡ (p j && has j xs)
unfolding has
has-filter j p [] = ground arith
has-filter j p (x ∷ xs) = ground (arith, has-filter j p xs, ==_iff x j)

has-empty : (j : Text) (xs : List Text) → is_empty xs ≡ true → has j xs ≡ false
unfolding has
has-empty j [] h = refl
has-empty j (x ∷ xs) h = ground arith

paint-end :
    (id : Text) (keys seen order : List Text)
    → has id keys ≡ true
    → has id seen ≡ false
    → has id order ≡ false
    → paint keys seen (order ++ (id ∷ [])) ≡ paint keys seen order ++ (id ∷ [])
unfolding paint has
paint-end id keys seen [] known unseen absent = ground arith
paint-end id keys seen (j ∷ order) known unseen absent =
    let left =
      paint-end id keys (if has j keys && not (has j seen) then add j seen else seen) order in
    ground (arith, left, ==_iff j id, has-add j id seen)

paint-more :
    (more keys seen order : List Text)
    → ((j : Text) → has j order ≡ true → has j more ≡ has j keys)
    → paint more seen order ≡ paint keys seen order
unfolding paint has
paint-more more keys seen [] same = refl
paint-more more keys seen (id ∷ order) same =
    let next = (if has id keys && not (has id seen) then add id seen else seen) in
    let left = paint-more more keys next order (λ j h. same j (ground arith)) in
    let here : has id more ≡ has id keys = same id (ground (arith, ==_iff id id)) in
    ground (arith, left, here)

module _ ⦃y : SharedBoard⦄ where
  open y use {
    Doc, Element, keys, order, set_element, push_order, keys-push, keys-set, order-set, order-push,
  }

  -- After repairOrder every element of the board is painted, and nothing that is not an element.
  pub repair-paints : (d : Doc) (j : Text) → has j (ordered_ids (repair_order d)) ≡ has j (keys d)
  unfolding ordered_ids repair_order has
  repair-paints d j =
      let orphans = filter (λ id. not (has id (order d))) (keys d) in
      let orphan = has-filter j (λ id. not (has id (order d))) (keys d) in
      elim (Bool-cases (is_empty orphans)) [
        | inl e ↦ ground (arith, has-paint j (keys d) [] (order d), orphan, has-empty j orphans e)
        | inr e ↦
            let painted =
              has-paint j (keys (push_order orphans d)) [] (order (push_order orphans d)) in
            ground (
              arith,
              painted,
              orphan,
              keys-push orphans d,
              order-push orphans d,
              has-append j (order d) orphans,
            )
      ]

  -- An element created under an id that the board has never used is painted on top of all the
  -- others, which keep their order.
  pub create-paints_last :
      (id : Text) (e : Element) (d : Doc)
      → has id (order d) ≡ false
      → ordered_ids (create_element id e d) ≡ ordered_ids d ++ (id ∷ [])
  unfolding ordered_ids create_element has
  create-paints_last id e d absent =
      let set = set_element id e d in
      let known : has id (keys set) ≡ true = ground (arith, keys-set id id e d, ==_iff id id) in
      let others : (j : Text) → has j (order d) ≡ true → has j (keys set) ≡ has j (keys d) =
        λ j h. ground (arith, keys-set id j e d, ==_iff id j) in
      rw (keys-push (id ∷ []) set, order-push (id ∷ []) set, order-set id e d) rw
        (paint-end id (keys set) [] (order d) known refl absent) rw
        (paint-more (keys set) (keys d) [] (order d) others) refl
