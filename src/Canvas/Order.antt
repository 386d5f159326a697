-- ===== src/Canvas/Order.antt =====
-- The paint order, front-end/src/lib/board/elements.ts: the elements of a board and the order in which
-- they are painted are two root types of its Y.Doc, which can disagree. Entries of the order are
-- strings; a transaction is one call here, since nothing reads between its parts.
pub mod Painted
pub mod Removal
pub mod Restacking
pub mod Placing
pub mod Copies
pub mod Unmoved
pub mod Rounds
pub mod Placed
use skrivle.Prelude.{
  ℕ, zero, suc, ◌+◌, ◌-◌, Bool, true, false, not, ◌&&◌, ◌||◌, Option, none, some, List, [], ◌∷◌,
  ◌++◌, Text, text_eq, ◌==◌, length, get_elem?, take, drop, filter, every, has, add, if◌then◌else◌,
}
use skrivle.Services.{SharedBoard, index_of}
use skrivle.Realtime.DocManager.{is_empty}

-- The loop of orderedIds.
unfoldable pub paint : List Text → List Text → List Text → List Text
paint keys seen [] = []
paint keys seen (id ∷ order) =
    let fresh = has id keys && not (has id seen) in
    let rest = paint keys (if fresh then add id seen else seen) order in
    if fresh then id ∷ rest else rest

pub data Restack : Type 0 where
  front back forward backward : Restack

-- swap(i, i + 1), with the element that is stepped past noted by the caller.
unfoldable pub swap_at : {A : Type 0} → ℕ → List A → List A
swap_at i [] = []
swap_at i (x ∷ []) = x ∷ []
swap_at zero (x ∷ y ∷ l) = y ∷ x ∷ l
swap_at (suc i) (x ∷ y ∷ l) = x ∷ swap_at i (y ∷ l)

abbrev chosen_at : List Text → List Text → ℕ → Bool
chosen_at chosen next i = elim (get_elem? next i) [ none ↦ false | some id ↦ has id chosen ]

abbrev note_at : List Text → ℕ → List Text → List Text
note_at next i moved = elim (get_elem? next i) [ none ↦ moved | some id ↦ add id moved ]

pub record Restacked : Type 0 where
  pub next : List Text
  pub moved : List Text

-- for (let i = next.length - 2; i >= 0; i--), with the rounds left: at i, one past the other.
unfoldable pub forward_loop : ℕ → List Text → Restacked → Restacked
unfolding swap_at
forward_loop zero chosen r = r
forward_loop (suc i) chosen r = forward_loop i chosen (
    if chosen_at chosen r.next i && not (chosen_at chosen r.next (i + 1))
    then record { next = swap_at i r.next; moved = note_at r.next (i + 1) r.moved }
    else r)

-- for (let i = 1; i < next.length; i++), with the rounds left; `at` is i - 1.
unfoldable pub backward_loop : ℕ → ℕ → List Text → Restacked → Restacked
unfolding swap_at
backward_loop zero at chosen r = r
backward_loop (suc rounds) at chosen r = backward_loop rounds (at + 1) chosen (
    if chosen_at chosen r.next (at + 1) && not (chosen_at chosen r.next at)
    then record { next = swap_at at r.next; moved = note_at r.next at r.moved }
    else r)

-- restacked
unfoldable pub restacked : List Text → List Text → Restack → Restacked
unfolding forward_loop backward_loop
restacked painted chosen front = record {
  next = filter (λ id. not (has id chosen)) painted ++ filter (λ id. has id chosen) painted;
  moved = chosen;
}
restacked painted chosen back = record {
  next = filter (λ id. has id chosen) painted ++ filter (λ id. not (has id chosen)) painted;
  moved = chosen;
}
restacked painted chosen forward =
    forward_loop (length painted - 1) chosen (record { next = painted; moved = [] })
restacked painted chosen backward =
    backward_loop (length painted - 1) 0 chosen (record { next = painted; moved = [] })

-- next.every((id, i) => id === painted[i])
unfoldable pub same_ids : List Text → List Text → Bool
same_ids [] [] = true
same_ids [] (y ∷ ys) = true
same_ids (x ∷ xs) [] = false
same_ids (x ∷ xs) (y ∷ ys) = x == y && same_ids xs ys

module _ ⦃y : SharedBoard⦄ where
  open y use {
    Doc, Element, keys, order, set_element, delete_element, push_order, delete_order, insert_order,
  }

  unfoldable pub ordered_ids : Doc → List Text
  unfolding paint
  ordered_ids doc = paint (keys doc) [] (order doc)

  -- repairOrder
  unfoldable pub repair_order : Doc → Doc
  repair_order doc =
      let orphans = filter (λ id. not (has id (order doc))) (keys doc) in
      if is_empty orphans then doc else push_order orphans doc

  -- createElement, of the new id and the Y.Map that `init` makes.
  unfoldable pub create_element : Text → Element → Doc → Doc
  create_element id map doc = push_order (id ∷ []) (set_element id map doc)

  -- insertElements
  unfoldable pub insert_elements : List (Text × Element) → Doc → Doc
  unfolding create_element
  insert_elements [] doc = doc
  insert_elements ((id, map) ∷ inits) doc = insert_elements inits (create_element id map doc)

  -- for (let i = list.length - 1; i >= 0; i--) if (doomed(list.get(i))) list.delete(i, 1)
  unfoldable pub delete_backwards : ℕ → (Text → Bool) → Doc → Doc
  delete_backwards zero doomed doc = doc
  delete_backwards (suc i) doomed doc = delete_backwards i doomed (elim (get_elem? (order doc) i) [
    | none ↦ doc
    | some id ↦ if doomed id then delete_order i doc else doc
  ])

  unfoldable pub delete_each : List Text → Doc → Doc
  delete_each [] doc = doc
  delete_each (id ∷ ids) doc = delete_each ids (delete_element id doc)

  -- removeElements
  unfoldable pub remove_elements : List Text → Doc → Doc
  unfolding delete_backwards delete_each
  remove_elements [] doc = doc
  remove_elements (id ∷ ids) doc =
      delete_each (id ∷ ids) (delete_backwards (length (order doc)) (λ x. has x (id ∷ ids)) doc)

  -- Where the i-th id of the new order goes: to the bottom, or just above the one before it
  -- (`indexOf` gives -1 for one that is not there).
  unfoldable pub place_after : Option Text → Doc → ℕ
  unfolding index_of
  place_after none doc = 0
  place_after (some before) doc = elim (index_of before (order doc)) [ none ↦ 0 | some i ↦ i + 1 ]

  unfoldable pub move_one : Text → Option Text → Doc → Doc
  unfolding delete_backwards place_after
  move_one id before doc =
      let without_it = delete_backwards (length (order doc)) (λ x. x == id) doc in
      insert_order (place_after before without_it) id without_it

  -- next.forEach
  unfoldable pub place_each : List Text → Option Text → List Text → Doc → Doc
  unfolding move_one
  place_each moved before [] doc = doc
  place_each moved before (id ∷ next) doc =
      place_each moved (some id) next (if has id moved then move_one id before doc else doc)

  -- restack
  unfoldable pub restack : List Text → Restack → Doc → Doc
  unfolding restacked same_ids place_each ordered_ids
  restack ids to doc =
      let painted = ordered_ids doc in
      let r = restacked painted ids to in
      if same_ids r.next painted then doc else place_each r.moved none r.next doc
