-- ===== src/Canvas/Order/Placing.antt =====
-- Where the loop of restack, front-end/src/lib/board/elements.ts, puts an element, and what is painted
-- then.
use skrivle.Prelude.{
  ℕ, zero, suc, ◌+◌, ◌≡◌, refl, ap, Bool, true, false, not, ◌&&◌, some, List, [], ◌∷◌, ◌++◌, Text,
  text_eq, ==_iff, ◌==◌, take, drop, filter, has, add, has-add, if◌then◌else◌, arith, inl, inr,
  Bool-cases,
}
use native.Mathlib.Numerals.{unary_clauses}
use skrivle.Services.{index_of}
use skrivle.Canvas.Order.{paint}
use skrivle.Canvas.Order.Painted.{has-filter}

-- The id just after the first copy of the other, which is there.
abbrev pub insert_after : Text → Text → List Text → List Text
insert_after b id [] = id ∷ []
insert_after b id (x ∷ l) = if x == b then x ∷ id ∷ l else x ∷ insert_after b id l

pub insert-index :
    (b id : Text) (l : List Text) (i : ℕ)
    → index_of b l ≡ some i
    → take (i + 1) l ++ (id ∷ drop (i + 1) l) ≡ insert_after b id l
unfolding index_of
insert-index b id [] i h = ground arith
insert-index b id (x ∷ l) zero h = let this : (x == b) ≡ true = ground arith in rw this refl
insert-index b id (x ∷ l) (suc i) h =
    let this : (x == b) ≡ false = ground arith in
    let next : index_of b l ≡ some i = ground arith in
    rw this (simp unary_clauses (simp unary_clauses at (ap (◌∷◌ x) (insert-index b id l i next))))

pub index-has : (b : Text) (l : List Text) → has b l ≡ true → (i : ℕ) × (index_of b l ≡ some i)
unfolding index_of has
index-has b [] h = ground arith
index-has b (x ∷ l) h = elim (Bool-cases (x == b)) [
  | inl y ↦ (0, ground arith)
  | inr n ↦ (let (i, e) = index-has b l (ground arith) in (i + 1, ground arith))
]

pub filter-insert_after :
    (p : Text → Bool) (b id : Text) (l : List Text)
    → p b ≡ true
    → p id ≡ true
    → filter p (insert_after b id l) ≡ insert_after b id (filter p l)
filter-insert_after p b id [] hb hid = ground arith
filter-insert_after p b id (x ∷ l) hb hid =
    ground (arith, ==_iff x b, filter-insert_after p b id l hb hid)

pub insert_after-append :
    (b id : Text) (pre post : List Text)
    → has b pre ≡ false
    → insert_after b id (pre ++ (b ∷ post)) ≡ pre ++ (b ∷ id ∷ post)
unfolding has
insert_after-append b id [] post h = ground (arith, ==_iff b b)
insert_after-append b id (x ∷ pre) post h = ground (arith, insert_after-append b id pre post)

-- Only what is in the order is looked up among the seen.
pub paint-seen :
    (keys seen other order : List Text)
    → ((j : Text) → has j order ≡ true → has j seen ≡ has j other)
    → paint keys seen order ≡ paint keys other order
unfolding paint has
paint-seen keys seen other [] same = refl
paint-seen keys seen other (id ∷ order) same =
    let here : has id seen ≡ has id other = same id (ground (arith, ==_iff id id)) in
    let fresh = has id keys && not (has id seen) in
    let next = (if fresh then add id seen else seen) in
    let next' = (if fresh then add id other else other) in
    let left =
      paint-seen keys next next' order
        (λ j h. ground (arith, same j (ground arith), has-add id j seen, has-add id j other)) in
    ground (arith, left, here)

pub paint-insert_after :
    (keys seen order : List Text) (b id : Text)
    → has id keys ≡ true
    → has id seen ≡ false
    → has id order ≡ false
    → has b keys ≡ true
    → has b seen ≡ false
    → has b order ≡ true
    → (b == id) ≡ false
    → paint keys seen (insert_after b id order) ≡ insert_after b id (paint keys seen order)
unfolding paint has
paint-insert_after keys seen [] b id kid sid oid kb sb ob differ = ground arith
paint-insert_after keys seen (x ∷ order) b id kid sid oid kb sb ob differ =
    elim (Bool-cases (x == b)) [
      | inl y ↦
          let this : x ≡ b = (==_iff x b).0 y in
          let unseen =
            paint-seen keys (add id (add x seen)) (add x seen) order
              (λ j h. ground (arith, has-add id j (add x seen), ==_iff id j)) in
          ground (arith, y, this, unseen, has-add x id seen)
      | inr n ↦
          let fresh = has x keys && not (has x seen) in
          let left =
            paint-insert_after keys (if fresh then add x seen else seen) order b id kid
              (ground (arith, has-add x id seen)) (ground arith) kb
              (ground (arith, has-add x b seen)) (ground arith) differ in
          ground (arith, n, left)
    ]

pub paint-filter :
    (p : Text → Bool) (keys seen order : List Text)
    → paint keys seen (filter p order) ≡ filter p (paint keys seen order)
unfolding paint has
paint-filter p keys seen [] = refl
paint-filter p keys seen (x ∷ order) =
    let next = (if has x keys && not (has x seen) then add x seen else seen) in
    let left = paint-filter p keys next order in
    elim (Bool-cases (p x)) [
      | inl y ↦ ground (arith, left, y)
      | inr n ↦
          let gone : (j : Text) → has j (filter p order) ≡ true → has j seen ≡ has j next =
            (λ j h. ground (arith, n, has-filter j p order, has-add x j seen, ==_iff x j)) in
          let skip = paint-seen keys seen next (filter p order) gone in
          ground (arith, left, n, skip)
    ]

pub filter-same :
    (p q : Text → Bool) (l : List Text)
    → ((j : Text) → has j l ≡ true → p j ≡ q j)
    → filter p l ≡ filter q l
unfolding has
filter-same p q [] h = refl
filter-same p q (x ∷ l) h =
    let here : p x ≡ q x = h x (ground (arith, ==_iff x x)) in
    ground (arith, here, filter-same p q l (λ j e. h j (ground arith)))
