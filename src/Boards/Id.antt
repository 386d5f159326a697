-- ===== src/Boards/Id.antt =====
-- back-end/src/boards/board-id.ts: the ids of boards.
pub mod Normal
pub mod Generated
use skrivle.Prelude.{
  ℕ, zero, suc, ◌-◌, ◌*◌, ◌%◌, Bool, true, false, ◌&&◌, ◌||◌, Option, none, some, List, [], ◌∷◌,
  ◌++◌, Text, codes, nat_eq, ◌==◌, ltb, leb, length, get_elem?, every, if◌then◌else◌,
}
use skrivle.Services.{CaseMap, trim}

abbrev pub default_id_length : ℕ
default_id_length = 5

abbrev pub id_alphabet : Text
id_alphabet = codes "bcdfghjkmnpqrstvwxyz23456789"

abbrev between : ℕ → ℕ → ℕ → Bool
between low high c = leb low c && leb c high

-- [a-zA-Z0-9-]
unfoldable pub is_id_char : ℕ → Bool
is_id_char c = between 97 122 c || between 65 90 c || between 48 57 c || c == 45

-- Math.floor(256 / ID_ALPHABET.length) * ID_ALPHABET.length
abbrev pub rejection_ceiling : ℕ
rejection_ceiling = 9 * 28

-- The loop over one batch of random bytes, with the characters that are still wanted.
unfoldable pub read_batch : ℕ → List ℕ → Text
read_batch zero bytes = []
read_batch (suc wanted) [] = []
read_batch (suc wanted) (byte ∷ bytes) =
    let skipped = read_batch (suc wanted) bytes in
    let rest = read_batch wanted bytes in
    if leb rejection_ceiling byte
    then skipped
    else elim (get_elem? id_alphabet (byte % 28)) [ none ↦ rest | some c ↦ c ∷ rest ]

-- generateBoardId, of the batches that `randomBytes` gives; `none` when they run out.
unfoldable pub generate_board_id : ℕ → List (List ℕ) → Option Text
unfolding read_batch
generate_board_id zero batches = some []
generate_board_id (suc wanted) [] = none
generate_board_id (suc wanted) (batch ∷ batches) =
    let got = read_batch (suc wanted) batch in
    elim (generate_board_id (suc wanted - length got) batches) [
      | none ↦ none
      | some rest ↦ some (got ++ rest)
    ]

-- isValidCustomId
unfoldable pub is_valid_custom_id : Text → Bool
unfolding is_id_char
is_valid_custom_id id =
    let s = trim id in leb 3 (length s) && leb (length s) 32 && every is_id_char s

-- normalizeBoardId
unfoldable pub normalize_board_id : ⦃c : CaseMap⦄ → Text → Text
normalize_board_id ⦃c⦄ id = c.lower (trim id)

-- The loop of mintUniqueBoardId, over the ids that it generates; `none` is the Error thrown.
unfoldable pub mint : (Text → Bool) → List Text → Option Text
mint exists [] = none
mint exists (id ∷ ids) = let rest = mint exists ids in if exists id then rest else some id
