-- ===== src/Numbers.antt =====
-- JavaScript numbers where they are coordinates: a record of the operations that the sources use, with
-- the order of the numbers that are not NaN. Nothing is said of how arithmetic rounds.
use skrivle.Prelude.{ℕ, ◌≡◌, Bool, true, not, ◌||◌, if◌then◌else◌}

pub record Doubles : Type 1 where
  pub Number : Type 0
  pub literal : ℕ → Number
  pub add : Number → Number → Number
  pub subtract : Number → Number → Number
  pub multiply : Number → Number → Number
  pub divide : Number → Number → Number
  -- Math.abs, Math.hypot, Math.min, Math.max
  pub absolute : Number → Number
  pub hypot : Number → Number → Number
  pub minimum : Number → Number → Number
  pub maximum : Number → Number → Number
  pub infinity : Number
  pub half : Number
  -- Math.round, Number.isFinite
  pub round : Number → Number
  pub is_finite : Number → Bool
  -- <, <= and ===
  pub less : Number → Number → Bool
  pub at_most : Number → Number → Bool
  pub equal : Number → Number → Bool
  pub at_most-refl : (a : Number) → at_most a a ≡ true
  pub at_most-total : (a b : Number) → (at_most a b || at_most b a) ≡ true
  pub less-is : (a b : Number) → less a b ≡ not (at_most b a)
  pub minimum-is : (a b : Number) → minimum a b ≡ (if at_most a b then a else b)
  pub maximum-is : (a b : Number) → maximum a b ≡ (if at_most a b then b else a)
  pub finite-zero : is_finite (literal 0) ≡ true
