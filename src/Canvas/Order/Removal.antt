-- ===== src/Canvas/Order/Removal.antt =====
-- Taking elements off a board: deleteFromOrder and removeElements of
-- front-end/src/lib/board/elements.ts.
use skrivle.Prelude.{
  ℕ, zero, suc, ◌+◌, ◌≡◌, refl, sym, ap, ◌∙◌, Bool, not, ◌&&◌, some, List, [], ◌∷◌, ◌++◌, Text,
  text_eq, ==_iff, length, get_elem?, take, drop, filter, has, arith, inl, inr, Bool-cases,
  Option-cases, append-nil, append_assoc, filter-append,
}
use native.Mathlib.Numerals.{unary_clauses}
use skrivle.Services.{SharedBoard}
use skrivle.Canvas.Order.{delete_backwards, delete_each, remove_elements}

snoc :
    (i : ℕ) (xs : List Text)
    → length xs ≡ suc i
    → (pre : List Text) × (x : Text) × (xs ≡ pre ++ (x ∷ [])) × (length pre ≡ i)
snoc i [] h = ground arith
snoc zero (x ∷ []) h = ([], x, refl, refl)
snoc zero (x ∷ y ∷ xs) h = ground arith
snoc (suc i) (x ∷ xs) h =
    let (pre, z, same, size) = snoc i xs (ground arith) in
    (x ∷ pre, z, ap (◌∷◌ x) same, ground arith)

get-middle : (pre ys : List Text) (x : Text) → get_elem? (pre ++ (x ∷ ys)) (length pre) ≡ some x
get-middle [] ys x = refl
get-middle (p ∷ pre) ys x = get-middle pre ys x

cut-middle :
    (pre ys : List Text) (x : Text)
    → take (length pre) (pre ++ (x ∷ ys)) ++ drop (suc (length pre)) (pre ++ (x ∷ ys)) ≡ pre ++ ys
cut-middle [] ys x = refl
cut-middle (p ∷ pre) ys x = ap (◌∷◌ p) (cut-middle pre ys x)

module _ ⦃y : SharedBoard⦄ where
  open y use {
    Doc, keys, order, delete_element, delete_order, keys-delete, keys-delete_order, order-delete,
    order-delete_order,
  }

  pub order-delete_backwards :
      (i : ℕ) (doomed : Text → Bool) (d : Doc) (xs ys : List Text)
      → order d ≡ xs ++ ys
      → length xs ≡ i
      → order (delete_backwards i doomed d) ≡ filter (λ id. not (doomed id)) xs ++ ys
  unfolding delete_backwards
  order-delete_backwards zero doomed d [] ys same size = same
  order-delete_backwards zero doomed d (x ∷ xs) ys same size = ground arith
  order-delete_backwards (suc i) doomed d xs ys same size =
      let (pre, x, split, here) = snoc i xs size in
      let now : order d ≡ pre ++ (x ∷ ys) =
        same ∙ ap (λ l. l ++ ys) split ∙ append_assoc pre (x ∷ []) ys in
      let found : get_elem? (order d) i ≡ some x = rw (now, sym here) (get-middle pre ys x) in
      let cut-here : take i (order d) ++ drop (i + 1) (order d) ≡ pre ++ ys =
        rw (now, sym here) (simp unary_clauses (cut-middle pre ys x)) in
      let cut : order (delete_order i d) ≡ pre ++ ys = order-delete_order i d ∙ (cut-here) in
      let kept = filter-append (λ id. not (doomed id)) pre (x ∷ []) in
      let gone = order-delete_backwards i doomed (delete_order i d) pre ys cut here in
      let stays = order-delete_backwards i doomed d pre (x ∷ ys) now here in
      rw (found, split, kept)
        (elim (Bool-cases (doomed x)) [
          | inl e ↦ rw (e, append-nil (filter (λ id. not (doomed id)) pre)) gone
          | inr e ↦ rw (e, append_assoc (filter (λ id. not (doomed id)) pre) (x ∷ []) ys) stays
        ])

  pub keys-delete_backwards :
      (i : ℕ) (doomed : Text → Bool) (d : Doc) → keys (delete_backwards i doomed d) ≡ keys d
  unfolding delete_backwards
  keys-delete_backwards zero doomed d = refl
  keys-delete_backwards (suc i) doomed d = elim (Option-cases (get_elem? (order d) i)) [
    | inl e ↦ rw e (keys-delete_backwards i doomed d)
    | inr (x, e) ↦ elim (Bool-cases (doomed x)) [
      | inl t ↦
          rw (e, t) (keys-delete_backwards i doomed (delete_order i d) ∙ keys-delete_order i d)
      | inr f ↦ rw (e, f) (keys-delete_backwards i doomed d)
    ]
  ]

  order-delete_each : (ids : List Text) (d : Doc) → order (delete_each ids d) ≡ order d
  unfolding delete_each
  order-delete_each [] d = refl
  order-delete_each (id ∷ ids) d = order-delete_each ids (delete_element id d) ∙ order-delete id d

  keys-delete_each :
      (j : Text) (ids : List Text) (d : Doc)
      → has j (keys (delete_each ids d)) ≡ (not (has j ids) && has j (keys d))
  unfolding delete_each has
  keys-delete_each j [] d = ground arith
  keys-delete_each j (id ∷ ids) d =
      ground (arith, keys-delete_each j ids (delete_element id d), keys-delete id j d, ==_iff id j)

  filter-all : (xs : List Text) → xs ≡ filter (λ x. not (has x [])) xs
  unfolding has
  filter-all [] = refl
  filter-all (x ∷ xs) = ap (◌∷◌ x) (filter-all xs)

  -- removeElements takes exactly the given ids out of the paint order, every copy of each, the rest
  -- keeping its order, and exactly their elements off the board.
  pub remove-exact :
      (ids : List Text) (j : Text) (d : Doc)
      → (order (remove_elements ids d) ≡ filter (λ id. not (has id ids)) (order d))
        × (has j (keys (remove_elements ids d)) ≡ (not (has j ids) && has j (keys d)))
  unfolding remove_elements
  remove-exact [] j d = (filter-all (order d), keys-delete_each j [] d)
  remove-exact (id ∷ ids) j d =
      let doomed : Text → Bool = (λ x. has x (id ∷ ids)) in
      let size = length (order d) in
      let ordered =
        order-delete_backwards size doomed d (order d) [] (sym (append-nil (order d))) refl in
      (
        order-delete_each (id ∷ ids) (delete_backwards size doomed d)
            ∙ ordered
            ∙ append-nil (filter (λ x. not (has x (id ∷ ids))) (order d)),
        keys-delete_each j (id ∷ ids) (delete_backwards size doomed d)
            ∙ ap (λ l. not (has j (id ∷ ids)) && has j l) (keys-delete_backwards size doomed d),
      )
