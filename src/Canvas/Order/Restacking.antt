-- ===== src/Canvas/Order/Restacking.antt =====
-- The order that `restacked` of front-end/src/lib/board/elements.ts computes.
use skrivle.Prelude.{
  ℕ, zero, suc, ◌+◌, ◌-◌, ◌≡◌, refl, ◌∙◌, Bool, not, ◌&&◌, List, [], ◌∷◌, Text, text_eq, length,
  get_elem?, filter, has, arith, inl, inr, Bool-cases, append-nil, filter-append,
}
use native.Mathlib.Numerals.{unary_clauses}
use skrivle.Canvas.Order.{
  Restack, Restacked, front, back, forward, backward, swap_at, chosen_at, note_at, forward_loop,
  backward_loop, restacked,
}

-- The chosen elements keep their order among themselves, and so do the others.
unfoldable pub KeepsBoth : List Text → List Text → List Text → Type 0
KeepsBoth chosen before after =
    (filter (λ id. has id chosen) after ≡ filter (λ id. has id chosen) before)
    × (filter (λ id. not (has id chosen)) after ≡ filter (λ id. not (has id chosen)) before)

pub get-shift :
    (i : ℕ) (x : Text) (l : List Text) → get_elem? (x ∷ l) (suc i + 1) ≡ get_elem? l (i + 1)
get-shift i x l = simp unary_clauses refl

swap-KeepsBoth :
    (i : ℕ) (chosen l : List Text)
    → chosen_at chosen l i ≡ not (chosen_at chosen l (i + 1))
    → KeepsBoth chosen l (swap_at i l)
unfolding swap_at KeepsBoth
swap-KeepsBoth i chosen [] h = (refl, refl)
swap-KeepsBoth i chosen (x ∷ []) h = (refl, refl)
swap-KeepsBoth zero chosen (x ∷ y ∷ l) h = ground arith
swap-KeepsBoth (suc i) chosen (x ∷ y ∷ l) h =
    let (ours, others) =
      swap-KeepsBoth i chosen (y ∷ l) (rw (chosen_at, get-shift i x (y ∷ l)) at h) in
    ground arith

KeepsBoth-trans :
    (chosen a b c : List Text) → KeepsBoth chosen a b → KeepsBoth chosen b c → KeepsBoth chosen a c
unfolding KeepsBoth
KeepsBoth-trans chosen a b c (p, q) (r, s) = (r ∙ p, s ∙ q)

forward-KeepsBoth :
    (i : ℕ) (chosen : List Text) (r : Restacked)
    → KeepsBoth chosen r.next (forward_loop i chosen r).next
unfolding forward_loop KeepsBoth
forward-KeepsBoth zero chosen r = (refl, refl)
forward-KeepsBoth (suc i) chosen r =
    elim (Bool-cases (chosen_at chosen r.next i && not (chosen_at chosen r.next (i + 1)))) [
      | inl e ↦
          let stepped : Restacked = record {
            next = swap_at i r.next;
            moved = note_at r.next (i + 1) r.moved;
          } in
          let swapped = swap-KeepsBoth i chosen r.next (ground arith) in
          rw (forward_loop, e)
            (KeepsBoth-trans chosen r.next (swap_at i r.next) (forward_loop i chosen stepped).next
              swapped (forward-KeepsBoth i chosen stepped))
      | inr e ↦ rw (forward_loop, e) (forward-KeepsBoth i chosen r)
    ]

backward-KeepsBoth :
    (rounds at : ℕ) (chosen : List Text) (r : Restacked)
    → KeepsBoth chosen r.next (backward_loop rounds at chosen r).next
unfolding backward_loop KeepsBoth
backward-KeepsBoth zero at chosen r = (refl, refl)
backward-KeepsBoth (suc rounds) at chosen r =
    elim (Bool-cases (chosen_at chosen r.next (at + 1) && not (chosen_at chosen r.next at))) [
      | inl e ↦
          let stepped : Restacked = record {
            next = swap_at at r.next;
            moved = note_at r.next at r.moved;
          } in
          let swapped = swap-KeepsBoth at chosen r.next (ground arith) in
          rw (backward_loop, e)
            (KeepsBoth-trans chosen r.next (swap_at at r.next)
              (backward_loop rounds (at + 1) chosen stepped).next swapped
              (backward-KeepsBoth rounds (at + 1) chosen stepped))
      | inr e ↦ rw (backward_loop, e) (backward-KeepsBoth rounds (at + 1) chosen r)
    ]

filter-twice : (p : Text → Bool) (l : List Text) → filter p (filter p l) ≡ filter p l
filter-twice p [] = refl
filter-twice p (x ∷ l) = ground (arith, filter-twice p l)

filter-none :
    (p q : Text → Bool) (l : List Text)
    → ((x : Text) → p x ≡ not (q x))
    → filter p (filter q l) ≡ []
filter-none p q [] h = refl
filter-none p q (x ∷ l) h = ground (arith, filter-none p q l h, h x)

-- Restacking in each of the four directions keeps the order of the chosen elements among themselves
-- and the order of the others among themselves, so it neither loses nor doubles an element.
pub restacked-KeepsBoth :
    (painted chosen : List Text) (to : Restack)
    → KeepsBoth chosen painted (restacked painted chosen to).next
unfolding restacked KeepsBoth
restacked-KeepsBoth painted chosen front =
    let ours : Text → Bool = (λ id. has id chosen) in
    let others : Text → Bool = (λ id. not (has id chosen)) in
    (
      filter-append ours (filter others painted) (filter ours painted)
          ∙ rw (filter-none ours others painted (λ x. ground arith)) (filter-twice ours painted),
      filter-append others (filter others painted) (filter ours painted)
          ∙ rw
              (
                filter-none others ours painted (λ x. refl),
                append-nil (filter others (filter others painted)),
              )
              (filter-twice others painted),
    )
restacked-KeepsBoth painted chosen back =
    let ours : Text → Bool = (λ id. has id chosen) in
    let others : Text → Bool = (λ id. not (has id chosen)) in
    (
      filter-append ours (filter ours painted) (filter others painted)
          ∙ rw
              (
                filter-none ours others painted (λ x. ground arith),
                append-nil (filter ours (filter ours painted)),
              )
              (filter-twice ours painted),
      filter-append others (filter ours painted) (filter others painted)
          ∙ rw (filter-none others ours painted (λ x. refl)) (filter-twice others painted),
    )
restacked-KeepsBoth painted chosen forward =
    forward-KeepsBoth (length painted - 1) chosen (record { next = painted; moved = [] })
restacked-KeepsBoth painted chosen backward =
    backward-KeepsBoth (length painted - 1) 0 chosen (record { next = painted; moved = [] })
