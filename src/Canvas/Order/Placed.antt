-- ===== src/Canvas/Order/Placed.antt =====
-- restack of front-end/src/lib/board/elements.ts against the order that restacked computes.
use skrivle.Prelude.{
  ℕ, ◌+◌, ◌≤◌, ◌≡◌, refl, sym, ap, ◌∙◌, Bool, true, false, not, ◌&&◌, Option, none, some, List, [],
  ◌∷◌, ◌++◌, Text, text_eq, ==_iff, ◌==◌, length, take, drop, has, arith, inl, inr, Bool-cases,
  append-nil, append_assoc,
}
use skrivle.Services.{SharedBoard, index_of}
use skrivle.Canvas.Order.{
  paint, Restack, restacked, ordered_ids, delete_backwards, place_after, move_one, place_each,
  same_ids, restack,
}
use skrivle.Canvas.Order.Painted.{has-paint}
use skrivle.Canvas.Order.Removal.{order-delete_backwards, keys-delete_backwards}
use skrivle.Canvas.Order.Restacking.{restacked-KeepsBoth}
use skrivle.Canvas.Order.Placing.{insert_after, insert-index, index-has, paint-filter, filter-same}
use skrivle.Canvas.Order.Copies.{
  copies, copies-append, copies-has, copies-paint, KeepsBoth-copies, KeepsBoth-length, same_ids-eq,
}
use skrivle.Canvas.Order.Unmoved.{unmoved, restacked-unmoved}
use skrivle.Canvas.Order.Rounds.{
  settled, others, settled-unmoved, settled-nothing, bottom-painted, above-painted,
}

module _ ⦃y : SharedBoard⦄ where
  open y use {Doc, keys, order, insert_order, keys-insert, order-insert}

  lifted : Text → Doc → Doc
  lifted id d = delete_backwards (length (order d)) (λ x. x == id) d

  order-lifted : (id : Text) (d : Doc) → order (lifted id d) ≡ others id (order d)
  unfolding lifted
  order-lifted id d =
      order-delete_backwards (length (order d)) (λ x. x == id) d (order d) []
        (sym (append-nil (order d))) refl
      ∙ append-nil (others id (order d))

  keys-move_one :
      (id : Text) (before : Option Text) (d : Doc) → keys (move_one id before d) ≡ keys d
  unfolding move_one lifted
  keys-move_one id before d =
      keys-insert (place_after before (lifted id d)) id (lifted id d)
      ∙ keys-delete_backwards (length (order d)) (λ x. x == id) d

  order-move_bottom : (id : Text) (d : Doc) → order (move_one id none d) ≡ id ∷ others id (order d)
  unfolding move_one lifted place_after
  order-move_bottom id d = order-insert 0 id (lifted id d) ∙ ap (◌∷◌ id) (order-lifted id d)

  order-move_above :
      (id b : Text) (d : Doc)
      → has b (others id (order d)) ≡ true
      → order (move_one id (some b) d) ≡ insert_after b id (others id (order d))
  unfolding move_one lifted place_after
  order-move_above id b d there =
      let o = others id (order d) in
      let (i, at) = index-has b o there in
      let found : index_of b (order (lifted id d)) ≡ some i =
        ap (index_of b) (order-lifted id d) ∙ at in
      let place : place_after (some b) (lifted id d) ≡ i + 1 =
        ap (λ r. elim r as (λ s. ℕ) [ none ↦ 0 | some k ↦ k + 1 ]) found in
      ap (λ k. order (insert_order k id (lifted id d))) place
      ∙ order-insert (i + 1) id (lifted id d)
      ∙ ap (λ l. take (i + 1) l ++ (id ∷ drop (i + 1) l)) (order-lifted id d)
      ∙ insert-index b id o i at

  -- What has been placed: up to the id after which the next one goes.
  abbrev placed : List Text → Option Text → List Text
  placed pre none = []
  placed pre (some b) = pre ++ (b ∷ [])

  -- Before each round: what does not wait to be placed is painted as it is to be.
  abbrev Placing : List Text → List Text → Option Text → List Text → Doc → Type 0
  Placing moved pre before rest d =
      paint (keys d) [] (settled moved rest (order d)) ≡ placed pre before ++ unmoved moved rest

  move_one-Placing :
      (moved pre : List Text) (before : Option Text) (id : Text) (rest : List Text) (d : Doc)
      → has id (keys d) ≡ true
      → has id moved ≡ true
      → ((j : Text) → copies j (placed pre before ++ (id ∷ rest)) ≤ 1)
      → Placing moved pre before (id ∷ rest) d
      → Placing moved (placed pre before) (some id) rest (move_one id before d)
  move_one-Placing moved pre none id rest d known goes single h =
      let absent : has id rest ≡ false =
        (copies-has id rest).1 (ground (arith, single id, ==_iff id id)) in
      let skip : unmoved moved (id ∷ rest) ≡ unmoved moved rest = ground (arith, goes) in
      ap (λ k. paint k [] (settled moved rest (order (move_one id none d))))
        (keys-move_one id none d)
      ∙ ap (λ o. paint (keys d) [] (settled moved rest o)) (order-move_bottom id d)
      ∙ bottom-painted (keys d) moved rest (order d) id known goes absent
      ∙ ap (◌∷◌ id) (h ∙ skip)
  move_one-Placing moved pre (some b) id rest d known goes single h =
      let at_b = single b in
      let sum_b = copies-append b (pre ++ (b ∷ [])) (id ∷ rest) in
      let sum_b' = copies-append b pre (b ∷ []) in
      let sum_id = copies-append id (pre ++ (b ∷ [])) (id ∷ rest) in
      let sum_id' = copies-append id pre (b ∷ []) in
      let b_b = ==_iff b b in
      let id_id = ==_iff id id in
      let absent : has id rest ≡ false = (copies-has id rest).1 (ground (arith, single id)) in
      let gone : has b rest ≡ false = (copies-has b rest).1 (ground arith) in
      let first : has b pre ≡ false = (copies-has b pre).1 (ground arith) in
      let differ : (b == id) ≡ false = ground (arith, ==_iff b id, ==_iff id b) in
      let skip : unmoved moved (id ∷ rest) ≡ unmoved moved rest = ground (arith, goes) in
      let painted =
        h
        ∙ ap (λ l. (pre ++ (b ∷ [])) ++ l) skip
        ∙ append_assoc pre (b ∷ []) (unmoved moved rest) in
      let (there, now) =
        above-painted (keys d) moved rest (order d) pre (unmoved moved rest) b id known goes absent
          gone differ first painted in
      ap (λ k. paint k [] (settled moved rest (order (move_one id (some b) d))))
        (keys-move_one id (some b) d)
      ∙ ap (λ o. paint (keys d) [] (settled moved rest o)) (order-move_above id b d there)
      ∙ now
      ∙ sym (append_assoc pre (b ∷ []) (id ∷ unmoved moved rest))
      ∙ sym (append_assoc (pre ++ (b ∷ [])) (id ∷ []) (unmoved moved rest))

  place_each-paints :
      (moved pre : List Text) (before : Option Text) (rest : List Text) (d : Doc)
      → ((j : Text) → has j rest ≡ true → has j (keys d) ≡ true)
      → ((j : Text) → copies j (placed pre before ++ rest) ≤ 1)
      → Placing moved pre before rest d
      → ordered_ids (place_each moved before rest d) ≡ placed pre before ++ rest
  unfolding place_each ordered_ids has
  place_each-paints moved pre before [] d known single h =
      ap (paint (keys d) []) (sym (settled-nothing moved (order d))) ∙ h
  place_each-paints moved pre before (id ∷ rest) d known single h =
      let assoc = append_assoc (placed pre before) (id ∷ []) rest in
      let single' : (j : Text) → copies j ((placed pre before ++ (id ∷ [])) ++ rest) ≤ 1 =
        (λ j. ground (arith, single j, ap (copies j) assoc)) in
      elim (Bool-cases (has id moved)) [
        | inl goes ↦
            let moved_doc = move_one id before d in
            let same = keys-move_one id before d in
            let left =
              place_each-paints moved (placed pre before) (some id) rest moved_doc
                (λ j e. ap (has j) same ∙ known j (ground arith)) single'
                (move_one-Placing moved pre before id rest d
                  (known id (ground (arith, ==_iff id id))) goes single h) in
            rw (place_each, goes) (left ∙ assoc)
        | inr stays ↦
            let skip : unmoved moved (id ∷ rest) ≡ id ∷ unmoved moved rest =
              ground (arith, stays) in
            let now =
              ap (paint (keys d) []) (sym (settled-unmoved moved rest id (order d) stays))
              ∙ h
              ∙ ap (λ l. placed pre before ++ l) skip
              ∙ sym (append_assoc (placed pre before) (id ∷ []) (unmoved moved rest)) in
            let left =
              place_each-paints moved (placed pre before) (some id) rest d
                (λ j e. known j (ground arith)) single' now in
            rw (place_each, stays) (left ∙ assoc)
      ]

  same-has :
      (ids : List Text) (to : Restack) (d : Doc) (j : Text)
      → has j (restacked (ordered_ids d) ids to).next ≡ has j (ordered_ids d)
  same-has ids to d j =
      let painted = ordered_ids d in
      let next = (restacked painted ids to).next in
      ground (
        arith,
        KeepsBoth-copies ids painted next j (restacked-KeepsBoth painted ids to),
        copies-has j painted,
        copies-has j next,
      )

  next-known :
      (ids : List Text) (to : Restack) (d : Doc) (j : Text)
      → has j (restacked (ordered_ids d) ids to).next ≡ true
      → has j (keys d) ≡ true
  unfolding ordered_ids
  next-known ids to d j h = ground (arith, same-has ids to d j, has-paint j (keys d) [] (order d))

  next-single :
      (ids : List Text) (to : Restack) (d : Doc) (j : Text)
      → copies j (restacked (ordered_ids d) ids to).next ≤ 1
  unfolding ordered_ids
  next-single ids to d j =
      let painted = ordered_ids d in
      let next = (restacked painted ids to).next in
      let once = copies-paint j (keys d) [] (order d) in
      ground (arith, once, KeepsBoth-copies ids painted next j (restacked-KeepsBoth painted ids to))

  next-Placing :
      (ids : List Text) (to : Restack) (d : Doc)
      → let r = restacked (ordered_ids d) ids to in Placing r.moved [] none r.next d
  unfolding ordered_ids
  next-Placing ids to d =
      let r = restacked (ordered_ids d) ids to in
      let p : Text → Bool = (λ j. not (has j r.moved && has j r.next)) in
      paint-filter p (keys d) [] (order d)
      ∙ filter-same p (λ j. not (has j r.moved)) (ordered_ids d)
          (λ j h. ground (arith, same-has ids to d j, h))
      ∙ sym (restacked-unmoved (ordered_ids d) ids to)

  -- After restack, in any of its four directions and whatever the document's two root types held, the
  -- order in which the board is painted is the one that restacked computes from the one before.
  pub restack-paints :
      (ids : List Text) (to : Restack) (d : Doc)
      → ordered_ids (restack ids to d) ≡ (restacked (ordered_ids d) ids to).next
  unfolding restack
  restack-paints ids to d =
      let painted = ordered_ids d in
      let next = (restacked painted ids to).next in
      let moved = (restacked painted ids to).moved in
      let keeps = restacked-KeepsBoth painted ids to in
      elim (Bool-cases (same_ids next painted)) [
        | inl e ↦
            rw (restack, e)
              (sym (same_ids-eq next painted (KeepsBoth-length ids painted next keeps) e))
        | inr e ↦
            rw (restack, e)
              (place_each-paints moved [] none next d (next-known ids to d) (next-single ids to d)
                (next-Placing ids to d))
      ]
