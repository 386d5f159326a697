-- ===== src/Canvas/Order/Unmoved.antt =====
-- The ids that restacked of front-end/src/lib/board/elements.ts does not move.
use skrivle.Prelude.{
  ℕ, zero, suc, ◌+◌, ◌-◌, ◌≡◌, refl, ◌∙◌, true, not, ◌&&◌, some, List, [], ◌∷◌, Text, text_eq,
  ==_iff, filter, has, has-add, length, get_elem?, arith, inl, inr, Bool-cases, Option-cases,
}
use skrivle.Canvas.Order.{
  Restack, front, back, forward, backward, Restacked, restacked, swap_at, chosen_at, note_at,
  forward_loop, backward_loop,
}
use skrivle.Canvas.Order.Restacking.{KeepsBoth, get-shift, restacked-KeepsBoth}

abbrev pub unmoved : List Text → List Text → List Text
unmoved moved l = filter (λ id. not (has id moved)) l

swap-upper :
    (i : ℕ) (m l : List Text)
    → ((y : Text) → get_elem? l (i + 1) ≡ some y → has y m ≡ true)
    → unmoved m (swap_at i l) ≡ unmoved m l
unfolding swap_at
swap-upper i m [] h = refl
swap-upper i m (x ∷ []) h = refl
swap-upper zero m (x ∷ y ∷ l) h = let up : has y m ≡ true = h y refl in ground (arith, up)
swap-upper (suc i) m (x ∷ y ∷ l) h =
    let left = swap-upper i m (y ∷ l) (λ z e. h z (get-shift i x (y ∷ l) ∙ e)) in
    ground (arith, left)

swap-lower :
    (i : ℕ) (m l : List Text)
    → ((y : Text) → get_elem? l i ≡ some y → has y m ≡ true)
    → unmoved m (swap_at i l) ≡ unmoved m l
unfolding swap_at
swap-lower i m [] h = refl
swap-lower i m (x ∷ []) h = refl
swap-lower zero m (x ∷ y ∷ l) h = let low : has x m ≡ true = h x refl in ground (arith, low)
swap-lower (suc i) m (x ∷ y ∷ l) h = let left = swap-lower i m (y ∷ l) h in ground (arith, left)

noted :
    (l : List Text) (i : ℕ) (m : List Text) (y : Text)
    → get_elem? l i ≡ some y
    → has y (note_at l i m) ≡ true
noted l i m y e = ground (arith, has-add y y m, ==_iff y y)

note-keeps :
    (l : List Text) (i : ℕ) (m : List Text) (y : Text)
    → has y m ≡ true
    → has y (note_at l i m) ≡ true
note-keeps l i m y h = elim (Option-cases (get_elem? l i)) [
  | inl e ↦ ground arith
  | inr (x, e) ↦ ground (arith, has-add x y m)
]

-- A loop only adds to what moves, and leaves the others in their order.
Loops : Restacked → Restacked → Type 0
Loops before after =
    ((y : Text) → has y before.moved ≡ true → has y after.moved ≡ true)
    × (unmoved after.moved after.next ≡ unmoved after.moved before.next)

forward-Loops : (i : ℕ) (chosen : List Text) (r : Restacked) → Loops r (forward_loop i chosen r)
unfolding forward_loop Loops
forward-Loops zero chosen r = (λ y h. h, refl)
forward-Loops (suc i) chosen r =
    elim (Bool-cases (chosen_at chosen r.next i && not (chosen_at chosen r.next (i + 1)))) [
      | inl e ↦
          let stepped : Restacked = record {
            next = swap_at i r.next;
            moved = note_at r.next (i + 1) r.moved;
          } in
          let (more, same) = forward-Loops i chosen stepped in
          let m = (forward_loop i chosen stepped).moved in
          rw (forward_loop, e)
            (
              λ y h. more y (note-keeps r.next (i + 1) r.moved y h),
              same ∙ swap-upper i m r.next (λ y g. more y (noted r.next (i + 1) r.moved y g)),
            )
      | inr e ↦ rw (forward_loop, e) (forward-Loops i chosen r)
    ]

backward-Loops :
    (rounds at : ℕ) (chosen : List Text) (r : Restacked)
    → Loops r (backward_loop rounds at chosen r)
unfolding backward_loop Loops
backward-Loops zero at chosen r = (λ y h. h, refl)
backward-Loops (suc rounds) at chosen r =
    elim (Bool-cases (chosen_at chosen r.next (at + 1) && not (chosen_at chosen r.next at))) [
      | inl e ↦
          let stepped : Restacked = record {
            next = swap_at at r.next;
            moved = note_at r.next at r.moved;
          } in
          let (more, same) = backward-Loops rounds (at + 1) chosen stepped in
          let m = (backward_loop rounds (at + 1) chosen stepped).moved in
          rw (backward_loop, e)
            (
              λ y h. more y (note-keeps r.next at r.moved y h),
              same ∙ swap-lower at m r.next (λ y g. more y (noted r.next at r.moved y g)),
            )
      | inr e ↦ rw (backward_loop, e) (backward-Loops rounds (at + 1) chosen r)
    ]

pub restacked-unmoved :
    (painted chosen : List Text) (to : Restack)
    → let r = restacked painted chosen to in unmoved r.moved r.next ≡ unmoved r.moved painted
unfolding restacked Loops KeepsBoth
restacked-unmoved painted chosen front = (restacked-KeepsBoth painted chosen front).1
restacked-unmoved painted chosen back = (restacked-KeepsBoth painted chosen back).1
restacked-unmoved painted chosen forward =
    (forward-Loops (length painted - 1) chosen (record { next = painted; moved = [] })).1
restacked-unmoved painted chosen backward =
    (backward-Loops (length painted - 1) 0 chosen (record { next = painted; moved = [] })).1
