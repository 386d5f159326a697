-- ===== src/Browser/Cursor/Arrival.antt =====
-- Where the published cursor of front-end/src/lib/realtime/board-session.ts ends up.
use skrivle.Prelude.{
  ℕ, ◌≡◌, true, false, Bool-cases, inl, inr, Option, some, List, [], ◌∷◌, if◌then◌else◌, arith,
}
use skrivle.Numbers.{Doubles}
use skrivle.Browser.Cursor.{Point, Throttle, negligible, publish, flush, set_cursor}

module _ ⦃n : Doubles⦄ where
  -- What happens to a throttle: the pointer moves, or its timer fires.
  pub data Input : Type 0 where
    pointer : ℕ → Option Point → Input
    timer : ℕ → Input

  -- A timer that is not set does not fire.
  unfoldable pub follow : List Input → Throttle → Throttle
  unfolding set_cursor flush
  follow [] th = th
  follow (pointer now p ∷ inputs) th = follow inputs (set_cursor now p th).throttle
  follow (timer now ∷ inputs) th =
      follow inputs (if th.flush_timer then (flush now th).throttle else th)

  -- A move that is not negligible next to what is published is published by the time the pointer has
  -- been still for two windows, and then nothing is pending and no timer is set.
  pub follow-arrives :
      (now one two : ℕ) (p : Option Point) (th : Throttle)
      → negligible p th.published ≡ false
      → follow (pointer now p ∷ timer one ∷ timer two ∷ []) th
        ≡ record { pending = p; has_pending = false; published = p; flush_timer = false }
  unfolding follow set_cursor flush publish
  follow-arrives now one two p th far = elim (Bool-cases th.flush_timer) [
    | inl y ↦ ground (arith, y, far)
    | inr n ↦ ground (arith, n, far)
  ]

  -- A pointer that goes away and comes back within one window leaves what is pending in place: the
  -- timer then publishes the place it has left.
  pub flush-stale :
      (now after later : ℕ) (p away back : Point) (th : Throttle)
      → th.published ≡ some p
      → th.flush_timer ≡ true
      → negligible (some away) (some p) ≡ false
      → negligible (some back) (some p) ≡ true
      → (flush later
          (set_cursor after
            (some back)
            (set_cursor now (some away) th).throttle).throttle).throttle.published
        ≡ some away
  unfolding set_cursor flush publish
  flush-stale now after later p away back th shown window far near = ground arith
