-- ===== src/Boards/Id/Normal.antt =====
-- normalizeBoardId of back-end/src/boards/board-id.ts: what is written and what is looked up.
use skrivle.Prelude.{◌≡◌, refl, ap, ◌∙◌, Bool-cases, inl, inr, [], ◌∷◌, Text, arith}
use skrivle.Services.{CaseMap, is_space, trim_start, trim_end, trim}
use skrivle.Boards.Id.{normalize_board_id}

trim_start-twice : (s : Text) → trim_start (trim_start s) ≡ trim_start s
unfolding trim_start
trim_start-twice [] = refl
trim_start-twice (c ∷ s) = elim (Bool-cases (is_space c)) [
  | inl e ↦ rw (trim_start, e) (trim_start-twice s)
  | inr e ↦ rw (trim_start, e) rw (trim_start, e) refl
]

trim_end-twice : (s : Text) → trim_end (trim_end s) ≡ trim_end s
unfolding trim_end
trim_end-twice [] = refl
trim_end-twice (c ∷ s) = ground (arith, trim_end-twice s)

trim_start-trim_end : (s : Text) → trim_start (trim_end s) ≡ trim_end (trim_start s)
unfolding trim_start trim_end
trim_start-trim_end [] = refl
trim_start-trim_end (c ∷ s) = ground (arith, trim_start-trim_end s)

pub trim-twice : (s : Text) → trim (trim s) ≡ trim s
unfolding trim
trim-twice s =
    ap trim_end (trim_start-trim_end (trim_start s))
    ∙ trim_end-twice (trim_start (trim_start s))
    ∙ ap trim_end (trim_start-twice s)

-- Normalising a board's id again changes nothing, so the id that a board is written under is found
-- by a lookup, which normalises it once more.
pub normalize-twice :
    ⦃c : CaseMap⦄ (id : Text) → normalize_board_id (normalize_board_id id) ≡ normalize_board_id id
unfolding normalize_board_id
normalize-twice ⦃c⦄ id =
    ap c.lower (c.lower-trim (trim id) ∙ ap c.lower (trim-twice id)) ∙ c.lower-lower (trim id)
