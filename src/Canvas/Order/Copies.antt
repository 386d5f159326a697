-- ===== src/Canvas/Order/Copies.antt =====
-- How often an id stands in the lists of restack, front-end/src/lib/board/elements.ts.
use skrivle.Prelude.{
  ℕ, ◌+◌, ◌≤◌, ◌≡◌, ◌↔◌, refl, ap, Bool, true, false, not, ◌&&◌, List, [], ◌∷◌, ◌++◌, Text, text_eq,
  ==_iff, ◌==◌, filter, has, add, has-add, length, if◌then◌else◌, arith,
}
use skrivle.Canvas.Order.{paint, same_ids}
use skrivle.Canvas.Order.Restacking.{KeepsBoth}

abbrev pub copies : Text → List Text → ℕ
copies j [] = 0
copies j (x ∷ l) = if x == j then copies j l + 1 else copies j l

pub copies-append : (j : Text) (a b : List Text) → copies j (a ++ b) ≡ copies j a + copies j b
copies-append j [] b = ground arith
copies-append j (x ∷ a) b = ground (arith, copies-append j a b)

pub copies-has : (j : Text) (l : List Text) → (has j l ≡ false) ↔ (copies j l ≡ 0)
unfolding has
copies-has j [] = ground arith
copies-has j (x ∷ l) = ground (arith, copies-has j l)

copies-filter :
    (j : Text) (p : Text → Bool) (l : List Text)
    → copies j (filter p l) ≡ (if p j then copies j l else 0)
copies-filter j p [] = ground arith
copies-filter j p (x ∷ l) = ground (arith, copies-filter j p l, ==_iff x j)

-- A list is painted without doubles.
pub copies-paint :
    (j : Text) (keys seen order : List Text)
    → copies j (paint keys seen order) ≤ (if has j seen then 0 else 1)
unfolding paint has
copies-paint j keys seen [] = ground arith
copies-paint j keys seen (id ∷ order) =
    let next = (if has id keys && not (has id seen) then add id seen else seen) in
    ground (arith, copies-paint j keys next order, has-add id j seen, ==_iff id j)

pub KeepsBoth-copies :
    (chosen before after : List Text) (j : Text)
    → KeepsBoth chosen before after
    → copies j after ≡ copies j before
unfolding KeepsBoth
KeepsBoth-copies chosen before after j (ours, others) =
    let p : Text → Bool = (λ id. has id chosen) in
    let q : Text → Bool = (λ id. not (has id chosen)) in
    ground (
      arith,
      copies-filter j p after,
      copies-filter j p before,
      copies-filter j q after,
      copies-filter j q before,
      ap (copies j) ours,
      ap (copies j) others,
    )

length-filters :
    (p : Text → Bool) (l : List Text)
    → length l ≡ length (filter p l) + length (filter (λ id. not (p id)) l)
length-filters p [] = ground arith
length-filters p (x ∷ l) = ground (arith, length-filters p l)

pub KeepsBoth-length :
    (chosen before after : List Text) → KeepsBoth chosen before after → length after ≡ length before
unfolding KeepsBoth
KeepsBoth-length chosen before after (ours, others) =
    let p : Text → Bool = (λ id. has id chosen) in
    ground
      (arith, length-filters p after, length-filters p before, ap length ours, ap length others)

pub same_ids-eq : (xs ys : List Text) → length xs ≡ length ys → same_ids xs ys ≡ true → xs ≡ ys
unfolding same_ids
same_ids-eq [] [] size h = refl
same_ids-eq [] (y ∷ ys) size h = ground arith
same_ids-eq (x ∷ xs) [] size h = ground arith
same_ids-eq (x ∷ xs) (y ∷ ys) size h = ground (arith, same_ids-eq xs ys (ground arith), ==_iff x y)
