-- ===== src/Examples/Boards.antt =====
-- A guest board, its creator, and the codes and tokens around it.
use skrivle.Prelude.{
  ℕ, ◌≤◌, ◌≡◌, refl, sym, ap, ◌∙◌, Bool-cases, inl, inr, ==_iff, is_some, true, false, ◌&&◌, Option,
  none, some, List, [], ◌∷◌, Text, codes, text_eq, nat_eq, text_beq, ◌==◌, has, find, length,
  if◌then◌else◌, arith,
}
use mathlib.Core.Path.{subst}
use skrivle.Services.{trim, trim_start, trim_end, is_space}
use skrivle.Examples.Tables.{ascii_case, list_table, names_user, list_codes, TableRows}
use skrivle.Boards.Id.{normalize_board_id, generate_board_id}
use skrivle.Boards.Id.Generated.{generate-ends}
use skrivle.Boards.Service.{
  delete_board, rename_board, claimed, extended, owner, BoardRow, CreateBoardInput, find_board,
  proves, create_board, is_available, extend_board, claim_board, role_of, is_expired, copy_title,
  max_title,
}
use skrivle.Boards.Service.Titles.{copy_title-fits}
use skrivle.Boards.Service.Races.{claim-between}
use skrivle.Boards.Service.Tenure.{Tenure, guest, Kept}
use skrivle.Boards.Service.Claims.{outsider-changes_nothing, claim-settles}
use skrivle.Boards.Service.Creation.{is_created, create-iff_available}
use skrivle.Auth.Otp.{expired, ok, otp_key, issue_code, verify_code, verify_each, finish_guess}
use skrivle.Auth.Otp.Guesses.{five_wrong-burn}
use skrivle.Auth.Otp.Races.{burnt-opens}
use skrivle.Browser.Tokens.{TokenEntry, normalize, creator_token_for, prune_creator_tokens}
use skrivle.Browser.Tokens.Lifetimes.{only, prune-too_soon}

abbrev pub name : Text
name = codes "plan"

abbrev pub token : Text
token = codes "t"

abbrev pub row : BoardRow
row = record {
  id = name;
  title = none;
  owner_id = none;
  is_ephemeral = true;
  expires_at = some 86400000;
  creator_token_hash = some (104 ∷ token);
  thumbnail_id = none;
}

abbrev pub rows : TableRows
rows = ((name, row) ∷ [], λ j u. none)

pub rows-Kept : Kept 0 rows
unfolding Kept find
rows-Kept k b found = elim (Bool-cases (name == k)) [
  | inl y ↦
      let same : row ≡ b = ground arith in
      (
        ap (λ r. r.id) (sym same) ∙ (==_iff name k).0 y,
        subst (Tenure 0) same (guest 86400000 refl refl refl (omega arith) refl),
      )
  | inr n ↦ ground arith
]

abbrev claimed_rows : TableRows
claimed_rows = (claim_board name (codes "u") token rows).1

claim-settles_example :
    (role_of name (codes "u") claimed_rows ≡ some owner)
    × ((b : BoardRow) × (find_board name claimed_rows ≡ some b)
        × (b.owner_id ≡ some (codes "u"))
        × (b.expires_at ≡ none))
    × (claim_board name (codes "v") token claimed_rows ≡ (false, claimed_rows))
    × (extend_board name token 9 claimed_rows ≡ (none, claimed_rows))
unfolding claim_board find_board normalize_board_id proves find text_beq trim has
claim-settles_example =
    claim-settles 0 name (codes "u") token rows claimed_rows (codes "v") token 9 rows-Kept refl

abbrev custom : CreateBoardInput
custom = record { custom_id = some (codes " Retro"); title = none; user_id = none }

create-iff_available_example :
    is_created (create_board custom [] token 0 rows) ≡ is_available (codes " Retro") rows
create-iff_available_example = create-iff_available custom (codes " Retro") token [] 0 rows refl

abbrev retro : BoardRow
retro = record {
  id = codes "retro";
  title = none;
  owner_id = none;
  is_ephemeral = true;
  expires_at = some 86400000;
  creator_token_hash = some (104 ∷ token);
  thumbnail_id = none;
}

abbrev more_rows : TableRows
more_rows = (
  (name, row) ∷ (codes "retro", retro) ∷ [],
  λ j u. if codes "retro" == j && names_user none u then some owner else none,
)

generate-ends_example : is_some (generate_board_id 3 ((255 ∷ 1 ∷ 2 ∷ []) ∷ (30 ∷ []) ∷ [])) ≡ true
generate-ends_example = generate-ends 3 ((255 ∷ 1 ∷ 2 ∷ []) ∷ (30 ∷ []) ∷ []) (omega arith)

copy_title-fits_example : length (copy_title (codes "Sprint")) ≤ max_title
copy_title-fits_example = copy_title-fits (codes "Sprint")

abbrev email : Text
email = codes "a@b.c"

abbrev wrong : List Text
wrong = codes "1" ∷ codes "2" ∷ codes "3" ∷ codes "4" ∷ codes "5" ∷ []

five_wrong-burn_example :
    (verify_code email (codes "9") (verify_each email wrong (issue_code email (codes "9") []))).0
    ≡ expired
unfolding text_beq
five_wrong-burn_example =
    five_wrong-burn email (codes "9") wrong (codes "9") [] refl refl (omega arith)

burnt-opens_example :
    ((verify_code email (codes "9") (list_codes.del (otp_key email) [])).0 ≡ expired)
    × ((finish_guess
          (otp_key email)
          (list_codes.hash_token (codes "9"))
          (codes "9")
          (list_codes.del (otp_key email) [])).0
        ≡ ok)
burnt-opens_example = burnt-opens email (codes "9") []

abbrev kept_token : TokenEntry
kept_token = record { token = token; created_at = 0; title = none }

-- A board extended in its 71st hour, looked for in the 73rd.
prune-too_soon_example :
    (creator_token_for name (prune_creator_tokens true 262800000 ((name, kept_token) ∷ [])) ≡ none)
    × ((until : Option ℕ) × ((extend_board name token 255600000 rows).0 ≡ some until)
        × (is_expired until 262800000 ≡ false))
unfolding only find_board normalize_board_id normalize proves find text_beq trim trim_start trim_end
    is_space has
prune-too_soon_example =
    prune-too_soon name token kept_token ((name, kept_token) ∷ []) 255600000 262800000 row rows refl
      refl refl refl (omega arith) (omega arith)

-- The board is extended and claimed at once.
claim-between_example :
    ((extend_board name token 5 rows).0 ≡ some (some 172800005))
    × ((claim_board name (codes "u") token rows).0 ≡ true)
    × (list_table.find_board name (extended 5 row claimed_rows)
        ≡ some (record (claimed (codes "u") row) { expires_at = some 172800005 }))
unfolding proves find_board find text_beq normalize_board_id trim has
claim-between_example =
    claim-between name (codes "u") token 5 row rows refl refl refl refl refl refl

outsider-changes_nothing_example :
    (rename_board name (codes "v") (codes "mine") rows ≡ (false, rows))
    × (delete_board name (codes "v") rows ≡ (false, none, rows))
    × (extend_board name (codes "x") 5 rows ≡ (none, rows))
    × (claim_board name (codes "v") (codes "x") rows ≡ (false, rows))
unfolding find_board find text_beq normalize_board_id trim has role_of
outsider-changes_nothing_example =
    outsider-changes_nothing name (codes "v") (codes "x") (codes "mine") 5 row rows refl refl
      (λ e. ground (arith, e))
