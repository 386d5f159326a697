-- ===== src/Canvas/Stroke/Thinning.antt =====
-- What simplify of front-end/src/lib/board/stroke.ts leaves of a stroke.
use skrivle.Prelude.{
  ℕ, suc, zero, ◌+◌, ◌-◌, ◌*◌, ◌≤◌, ◌<◌, ◌≡◌, ◌⊎◌, inl, inr, refl, nat_eq, ltb, Bool, true, false,
  Bool-cases, Option, none, some, List, [], ◌∷◌, length, get_elem?, if◌then◌else◌, arith,
}
use mathlib.Core.Path.{subst}
use skrivle.Numbers.{Doubles}
use skrivle.Browser.Cursor.{Point}
use skrivle.Canvas.Stroke.{
  Thin, sample, perpendicular_squared, pairs_of, flattened, worst_from, split_at, thin_once, thin,
  picked, first_and_last, simplify,
}

at_last : (i : ℕ) → i + 1 - 1 ≡ i
at_last i = omega arith

at_more : (i n : ℕ) → i + suc (suc n) - 1 ≡ i + 1 + suc n - 1
at_more i n = omega arith

module _ ⦃d : Doubles⦄ where
  open d use {Number, literal, less, multiply}

  -- Some of the samples in their order, the last of them included.
  pub data Thinned : List Point → List Point → Type 0 where
    nothing : Thinned [] []
    keeps :
        (p : Point) (kept pairs : List Point) → Thinned kept pairs → Thinned (p ∷ kept) (p ∷ pairs)
    drops :
        (p q : Point) (kept pairs : List Point)
        → Thinned kept (q ∷ pairs)
        → Thinned kept (p ∷ q ∷ pairs)

  all-Thinned : (pairs : List Point) → Thinned pairs pairs
  all-Thinned [] = Thinned.nothing
  all-Thinned (p ∷ pairs) = Thinned.keeps p pairs pairs (all-Thinned pairs)

  if-Thinned :
      (kept : Bool) (p q : Point) (rest pairs : List Point)
      → Thinned rest (q ∷ pairs)
      → Thinned (if kept then p ∷ rest else rest) (p ∷ q ∷ pairs)
  if-Thinned true p q rest pairs t = Thinned.keeps p rest (q ∷ pairs) t
  if-Thinned false p q rest pairs t = Thinned.drops p q rest pairs t

  picked-Thinned :
      (keep : ℕ → Bool) (i : ℕ) (pairs : List Point)
      → keep (i + length pairs - 1) ≡ true
      → Thinned (picked keep i pairs) pairs
  unfolding picked
  picked-Thinned keep i [] h = Thinned.nothing
  picked-Thinned keep i (p ∷ []) h =
      let last : keep i ≡ true = subst (λ k. keep k ≡ true) (at_last i) h in
      rw last (all-Thinned (p ∷ []))
  picked-Thinned keep i (p ∷ q ∷ pairs) h = if-Thinned (keep i) p q _ pairs (
      picked-Thinned keep (i + 1) (q ∷ pairs)
        (subst (λ k. keep k ≡ true) (at_more i (length pairs)) h))

  -- The index found lies among those that were looked at.
  worst-inside :
      (pairs : List Point) (ends : ℕ × ℕ) (left i : ℕ) (worst : Number) (index : Option ℕ) (k : ℕ)
      → (worst_from pairs ends left i worst index).1 ≡ some k
      → (index ≡ some k) ⊎ ((i ≤ k) × (k < i + left))
  unfolding worst_from perpendicular_squared
  worst-inside pairs ends zero i worst index k e = inl e
  worst-inside pairs ends (suc left) i worst index k e =
      let far =
        perpendicular_squared (sample pairs i) (sample pairs ends.0) (sample pairs ends.1) in
      elim (Bool-cases (less worst far)) [
        | inl y ↦ ground (arith, y, worst-inside pairs ends left (i + 1) far (some i) k, e)
        | inr n ↦ ground (arith, n, worst-inside pairs ends left (i + 1) worst index k, e)
      ]

  -- How many rounds a stack of segments takes at most.
  pub rounds_of : List (ℕ × ℕ) → ℕ
  rounds_of [] = 1
  rounds_of (ends ∷ stack) = (ends.1 - ends.0 - 1) * 2 + 1 + rounds_of stack

  -- A round that leaves less to do and forgets no sample.
  pub record Progress (before : ℕ) (keep : ℕ → Bool) (t : Thin) : Type 0 where
    pub fewer : rounds_of t.stack < before
    pub kept : (k : ℕ) → keep k ≡ true → t.keep k ≡ true

  split-Progress :
      (ends : ℕ × ℕ) (stack : List (ℕ × ℕ)) (keep : ℕ → Bool) (far : Bool) (index : Option ℕ)
      → ((k : ℕ) → index ≡ some k → (ends.0 < k) × (k < ends.1))
      → Progress (rounds_of (ends ∷ stack)) keep (split_at ends stack keep far index)
  unfolding rounds_of
  split-Progress ends stack keep true (some i) inside =
      let (low, high) = inside i refl in
      record { fewer = omega (arith, low, high); kept = λ k h. ground (arith, h) }
  split-Progress ends stack keep true none inside = record { fewer = omega arith; kept = λ k h. h }
  split-Progress ends stack keep false index inside = record {
    fewer = omega arith;
    kept = λ k h. h;
  }

  once-Progress :
      (pairs : List Point) (tolerance : Number) (ends : ℕ × ℕ) (stack : List (ℕ × ℕ))
      (keep : ℕ → Bool)
      → Progress (rounds_of (ends ∷ stack)) keep (thin_once pairs tolerance ends stack keep)
  unfolding thin_once rounds_of
  once-Progress pairs tolerance ends stack keep = elim (Bool-cases (ltb (ends.0 + 1) ends.1)) [
    | inl y ↦
        rw (thin_once, y)
          (split-Progress ends stack keep _ _ (λ k e. ground (
            arith,
            y,
            worst-inside pairs ends (ends.1 - ends.0 - 1) (ends.0 + 1) (literal 0) none k e,
          )))
    | inr n ↦ rw (thin_once, n) (record { fewer = omega arith; kept = λ k h. h })
  ]

  thin-ends :
      (rounds : ℕ) (pairs : List Point) (tolerance : Number) (stack : List (ℕ × ℕ))
      (keep : ℕ → Bool)
      → rounds_of stack ≤ rounds
      → (kept : ℕ → Bool) × (thin rounds pairs tolerance (record { stack = stack; keep = keep })
          ≡ some kept)
        × ((k : ℕ) → keep k ≡ true → kept k ≡ true)
  unfolding thin rounds_of
  thin-ends zero pairs tolerance [] keep h = ground (arith, h)
  thin-ends zero pairs tolerance (ends ∷ stack) keep h = ground (arith, h)
  thin-ends (suc rounds) pairs tolerance [] keep h = (keep, refl, λ k y. y)
  thin-ends (suc rounds) pairs tolerance (ends ∷ stack) keep h =
      let next = thin_once pairs tolerance ends stack keep in
      let progress = once-Progress pairs tolerance ends stack keep in
      let (kept, e, all) =
        thin-ends rounds pairs tolerance next.stack next.keep (omega (arith, progress.fewer, h)) in
      (kept, e, λ k y. all k (progress.kept k y))

  picked-first :
      (keep : ℕ → Bool) (pairs : List Point)
      → keep 0 ≡ true
      → get_elem? (picked keep 0 pairs) 0 ≡ get_elem? pairs 0
  unfolding picked
  picked-first keep [] h = refl
  picked-first keep (p ∷ pairs) h = rw h refl

  -- A stroke is always thinned to some of its samples in their order, the first and the last among
  -- them, by at most two rounds for each sample.
  pub simplify-Thinned :
      (points : List Number) (tolerance : Number)
      → (kept : List Point) × (simplify points tolerance ≡ some (flattened kept))
        × Thinned kept (pairs_of points)
        × (get_elem? kept 0 ≡ get_elem? (pairs_of points) 0)
  unfolding simplify rounds_of
  simplify-Thinned points tolerance =
      let pairs = pairs_of points in
      let count = length pairs in
      elim (Bool-cases (ltb count 3)) [
        | inl few ↦ (pairs, rw (simplify, few) refl, all-Thinned pairs, refl)
        | inr many ↦
            let (keep, e, all) =
              thin-ends (count * 2) pairs tolerance ((0, count - 1) ∷ []) (first_and_last count)
                (ground (arith, many)) in
            (
              picked keep 0 pairs,
              rw (simplify, many, e) refl,
              picked-Thinned keep 0 pairs (all (0 + count - 1) (ground arith)),
              picked-first keep pairs (all 0 (ground arith)),
            )
      ]
