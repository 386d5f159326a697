-- ===== src/Examples/Numbers.antt =====
-- Coordinates in halves, as natural numbers: a form of the numbers that computes.
use skrivle.Prelude.{
  ℕ, ◌+◌, ◌-◌, ◌*◌, ◌/◌, ◌≡◌, refl, true, not, ◌||◌, nat_eq, ◌==◌, ltb, leb, if◌then◌else◌, arith,
}
use skrivle.Numbers.{Doubles}

pub less-leb : (a b : ℕ) → ltb a b ≡ not (leb b a)
less-leb a b = ground arith

pub total-leb : (a b : ℕ) → (leb a b || leb b a) ≡ true
total-leb a b = ground arith

pub leb_refl : (a : ℕ) → leb a a ≡ true
leb_refl a = ground arith

instance abbrev pub halves : Doubles
halves = record {
  Number = ℕ;
  literal = λ k. k * 2;
  add = λ a b. a + b;
  subtract = λ a b. (a - b) + (b - a);
  multiply = λ a b. a * b / 2;
  divide = λ a b. a * 2 / b;
  absolute = λ a. a;
  hypot = λ a b. a + b;
  minimum = λ a b. if leb a b then a else b;
  maximum = λ a b. if leb a b then b else a;
  infinity = 9999999;
  half = 1;
  round = λ a. (a + 1) / 2 * 2;
  is_finite = λ a. ltb a 9999999;
  less = ltb;
  at_most = leb;
  equal = λ a b. a == b;
  at_most-refl = leb_refl;
  at_most-total = total-leb;
  less-is = less-leb;
  minimum-is = λ a b. refl;
  maximum-is = λ a b. refl;
  finite-zero = refl;
}
