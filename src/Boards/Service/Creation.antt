-- ===== src/Boards/Service/Creation.antt =====
-- createBoard and isAvailable of back-end/src/boards/service.ts.
use skrivle.Prelude.{
  ℕ, ◌≡◌, Bool, true, false, Bool-cases, Option-cases, inl, inr, Option, some, List, Text, text_eq,
  ◌==◌, if◌then◌else◌, arith,
}
use skrivle.Services.{CaseMap}
use skrivle.Boards.Id.{normalize_board_id, is_valid_custom_id}
use skrivle.Boards.Id.Normal.{normalize-twice}
use skrivle.Boards.Service.{
  BoardRow, BoardTable, CreateBoardInput, Created, created, invalid_board_id, board_id_taken,
  not_allocated, base, insert, board_exists, create_board, is_available, find_board,
}

abbrev pub is_created : {Rows : Type 0} → Created Rows → Bool
is_created (created row given rows) = true
is_created invalid_board_id = false
is_created board_id_taken = false
is_created not_allocated = false

module _ ⦃c : CaseMap⦄ ⦃t : BoardTable⦄ where
  open t use {Rows, create_row, create-taken, create-absent, create-new}

  -- A board with an id of one's own is made exactly when the availability check says that the id is
  -- free.
  pub create-iff_available :
      (input : CreateBoardInput) (custom token : Text) (attempts : List (List Text)) (now : ℕ)
      (rows : Rows)
      → input.custom_id ≡ some custom
      → is_created (create_board input attempts token now rows) ≡ is_available custom rows
  unfolding create_board insert is_available board_exists base
  create-iff_available input custom token attempts now rows h =
      let id = normalize_board_id custom in
      let row = base id input token now in
      let same : normalize_board_id id ≡ id = normalize-twice custom in
      elim (Bool-cases (is_valid_custom_id id)) [
        | inr n ↦ ground arith
        | inl y ↦ elim (Option-cases (t.find_board id rows)) [
          | inl e ↦ ground (arith, create-absent row input.user_id rows)
          | inr (b, e) ↦ ground (arith, create-taken row input.user_id rows)
        ]
      ]

  -- A board that was made under an id of one's own is found under that id, however it is spelled
  -- the next time up to what normalising changes, and no other board is touched.
  pub create-found :
      (input : CreateBoardInput) (custom token : Text) (attempts : List (List Text)) (now : ℕ)
      (rows rows' : Rows) (row : BoardRow) (given : Option Text) (spelled : Text)
      → input.custom_id ≡ some custom
      → create_board input attempts token now rows ≡ created row given rows'
      → find_board spelled rows' ≡ (
          if normalize_board_id custom == normalize_board_id spelled
          then some row
          else find_board spelled rows)
  unfolding create_board insert find_board base
  create-found input custom token attempts now rows rows' row given spelled h made =
      let id = normalize_board_id custom in
      let new = base id input token now in
      elim (Bool-cases (is_valid_custom_id id)) [
        | inr n ↦ ground arith
        | inl y ↦ elim (Option-cases (create_row new input.user_id rows)) [
          | inl e ↦ ground arith
          | inr (after, e) ↦
              ground (arith, create-new new input.user_id rows after (normalize_board_id spelled) e)
        ]
      ]
