-- ===== src/Boards/Service.antt =====
-- back-end/src/boards/service.ts. A call that throws at the database leaves the rest of its handler
-- undone and is not followed further; dates are milliseconds. Of dropLogs a call
-- gives the ids; what comes of them is in Redis.
pub mod Races
pub mod Tenure
pub mod Claims
pub mod Creation
pub mod Titles
use skrivle.Prelude.{
  ℕ, ◌+◌, ◌-◌, ◌*◌, ◌≡◌, ◌||◌, Bool, true, false, not, ◌&&◌, Option, none, some, List, [], ◌∷◌,
  ◌++◌, Text, text_eq, codes, ◌==◌, take, leb, is_some, length, if◌then◌else◌,
}
use skrivle.Services.{CaseMap, trim, trim_end}
use skrivle.Boards.Id.{normalize_board_id, is_valid_custom_id, mint}

abbrev pub guest_ttl_hours : ℕ
guest_ttl_hours = 24

abbrev pub extension_hours : ℕ
extension_hours = 48

abbrev pub max_title : ℕ
max_title = 120

pub data Role : Type 0 where
  owner editor : Role

-- The columns of `boards`; a title that is not given is the schema's default.
pub record BoardRow : Type 0 where
  pub id : Text
  pub title : Option Text
  pub owner_id : Option Text
  pub is_ephemeral : Bool
  pub expires_at : Option ℕ
  pub creator_token_hash : Option Text
  pub thumbnail_id : Option Text

-- Prisma on the tables of boards and collaborators, and the HMAC of auth/hash.ts.
pub record BoardTable : Type 1 where
  pub Rows : Type 0
  -- createHmac("sha256", config.sessionSecret)
  pub hash_token : Text → Text
  pub find_board : Text → Rows → Option BoardRow
  -- The insert of a row, with the collaborator that it creates; `none` is a P2002.
  pub create_row : BoardRow → Option Text → Rows → Option Rows
  pub update_row : Text → (BoardRow → BoardRow) → Rows → Rows
  pub delete_row : Text → Rows → Rows
  pub find_role : Text → Text → Rows → Option Role
  pub upsert_role : Text → Text → Role → Rows → Rows
  -- A unique key admits no second row.
  pub create-taken :
      (b : BoardRow) (c : Option Text) (d : Rows)
      → is_some (find_board b.id d) ≡ true
      → create_row b c d ≡ none
  pub create-absent :
      (b : BoardRow) (c : Option Text) (d : Rows)
      → find_board b.id d ≡ none
      → is_some (create_row b c d) ≡ true
  pub create-new :
      (b : BoardRow) (c : Option Text) (d d' : Rows) (j : Text)
      → create_row b c d ≡ some d'
      → find_board j d' ≡ (if b.id == j then some b else find_board j d)
  pub find-update :
      (k j : Text) (f : BoardRow → BoardRow) (d : Rows)
      → find_board j (update_row k f d) ≡ (
          if k == j
          then elim (find_board j d) [ none ↦ none | some b ↦ some (f b) ]
          else find_board j d)
  pub find-delete :
      (k j : Text) (d : Rows)
      → find_board j (delete_row k d) ≡ (if k == j then none else find_board j d)
  pub find-upsert :
      (k u j : Text) (role : Role) (d : Rows)
      → find_board j (upsert_role k u role d) ≡ find_board j d
  pub role-upsert :
      (k u : Text) (role : Role) (d : Rows) → find_role k u (upsert_role k u role d) ≡ some role
  pub role-update :
      (k j u : Text) (f : BoardRow → BoardRow) (d : Rows)
      → find_role j u (update_row k f d) ≡ find_role j u d

-- expiryFrom
abbrev pub expiry_from : ℕ → ℕ → ℕ
expiry_from hours from = from + hours * 3600000

pub record CreateBoardInput : Type 0 where
  pub custom_id : Option Text
  pub title : Option Text
  pub user_id : Option Text

pub data Created (Rows : Type 0) : Type 0 where
  created : BoardRow → Option Text → Rows → Created Rows
  invalid_board_id board_id_taken not_allocated : Created Rows

-- `input.title?.trim() || undefined`
unfoldable pub given_title : Option Text → Option Text
unfolding trim
given_title none = none
given_title (some t) = elim (trim t) [ [] ↦ none | c ∷ s ↦ some (c ∷ s) ]

-- isExpired
unfoldable pub is_expired : Option ℕ → ℕ → Bool
is_expired none now = false
is_expired (some at) now = leb at now

abbrev pub copy_suffix : Text
copy_suffix = codes " (copy)"

unfoldable pub copy_title : Text → Text
unfolding trim_end
copy_title title = trim_end (take (max_title - length copy_suffix) title) ++ copy_suffix

module _ ⦃c : CaseMap⦄ ⦃t : BoardTable⦄ where
  open t use {Rows, hash_token, create_row, update_row, delete_row, find_role, upsert_role}

  -- `base`, with the id; `token` is what randomToken gives.
  unfoldable pub base : Text → CreateBoardInput → Text → ℕ → BoardRow
  unfolding given_title
  base id input token now = record {
    id = id;
    title = given_title input.title;
    owner_id = input.user_id;
    is_ephemeral = not (is_some input.user_id);
    expires_at = elim input.user_id [
      | none ↦ some (expiry_from guest_ttl_hours now)
      | some u ↦ none
    ];
    creator_token_hash = elim input.user_id [ none ↦ some (hash_token token) | some u ↦ none ];
    thumbnail_id = none;
  }

  -- The row goes in, with the owner as its collaborator.
  unfoldable pub insert : Text → CreateBoardInput → Text → ℕ → Rows → Created Rows
  unfolding base
  insert id input token now rows =
      let row = base id input token now in
      let given : Option Text = elim input.user_id [ none ↦ some token | some u ↦ none ] in
      elim (create_row row input.user_id rows) [
        | none ↦ board_id_taken
        | some rows' ↦ created row given rows'
      ]

  -- boardExists
  unfoldable pub board_exists : Rows → Text → Bool
  board_exists rows id = is_some (t.find_board (normalize_board_id id) rows)

  -- The attempts at a generated id, each with the ids that it generates.
  unfoldable pub allocate : List (List Text) → CreateBoardInput → Text → ℕ → Rows → Created Rows
  unfolding insert board_exists
  allocate [] input token now rows = not_allocated
  allocate (ids ∷ attempts) input token now rows =
      let again = allocate attempts input token now rows in
      elim (mint (board_exists rows) ids) [
        | none ↦ not_allocated
        | some id ↦ elim (insert id input token now rows) [
          | created row given rows' ↦ created row given rows'
          | invalid_board_id ↦ again
          | board_id_taken ↦ again
          | not_allocated ↦ again
        ]
      ]

  -- createBoard
  unfoldable pub create_board : CreateBoardInput → List (List Text) → Text → ℕ → Rows → Created Rows
  unfolding allocate
  create_board input attempts token now rows = elim input.custom_id [
    | none ↦ allocate attempts input token now rows
    | some custom ↦
        let id = normalize_board_id custom in
        if is_valid_custom_id id then insert id input token now rows else invalid_board_id
  ]

  -- dropLogs: the boards whose update logs a creation drops.
  abbrev pub logs_dropped : Created Rows → List Text
  logs_dropped (created row given rows') = row.id ∷ []
  logs_dropped _ = []

  -- isAvailable
  unfoldable pub is_available : Text → Rows → Bool
  unfolding board_exists
  is_available id rows =
      let normalized = normalize_board_id id in
      is_valid_custom_id normalized && not (board_exists rows normalized)

  -- findBoard
  unfoldable pub find_board : Text → Rows → Option BoardRow
  find_board id rows = t.find_board (normalize_board_id id) rows

  -- verifyToken of a board's creator token; a board without a hash admits none.
  unfoldable pub proves : BoardRow → Text → Bool
  proves board token = elim board.creator_token_hash [
    | none ↦ false
    | some [] ↦ false
    | some (d ∷ digest) ↦ hash_token token == (d ∷ digest)
  ]

  -- The update at the end of extendBoard, of the board that was read at its start.
  abbrev pub extended : ℕ → BoardRow → Rows → Rows
  extended now board rows =
      update_row board.id (λ b. record b { expires_at = some (expiry_from extension_hours now) })
        rows

  -- extendBoard: the expiry that the caller reads back (`none` is null), and the rows, when no other
  -- call comes between its two.
  unfoldable pub extend_board : Text → Text → ℕ → Rows → Option (Option ℕ) × Rows
  unfolding find_board proves
  extend_board id token now rows = elim (find_board id rows) [
    | none ↦ (none, rows)
    | some board ↦
        if not (proves board token)
        then (none, rows)
        else (if not board.is_ephemeral
            then (some board.expires_at, rows)
            else (some (some (expiry_from extension_hours now)), extended now board rows))
  ]

  abbrev pub claimed : Text → BoardRow → BoardRow
  claimed user b = record b {
    owner_id = some user;
    is_ephemeral = false;
    expires_at = none;
    creator_token_hash = none;
  }

  -- The update at the end of claimBoard, of the board that was read at its start.
  abbrev pub taken_over : Text → BoardRow → Rows → Rows
  taken_over user board rows =
      upsert_role board.id user owner (update_row board.id (claimed user) rows)

  -- claimBoard: whether the board is the caller's now, when no other call comes between its two. An
  -- empty token is as good as none.
  unfoldable pub claim_board : Text → Text → Text → Rows → Bool × Rows
  unfolding find_board proves
  claim_board id user [] rows = (false, rows)
  claim_board id user (x ∷ token) rows = elim (find_board id rows) [
    | none ↦ (false, rows)
    | some board ↦
        if is_some board.owner_id || not (proves board (x ∷ token))
        then (false, rows)
        else (true, taken_over user board rows)
  ]

  -- roleOf
  unfoldable pub role_of : Text → Text → Rows → Option Role
  role_of id user rows = find_role (normalize_board_id id) user rows

  abbrev pub is_owner : Option Role → Bool
  is_owner none = false
  is_owner (some owner) = true
  is_owner (some editor) = false

  -- renameBoard
  unfoldable pub rename_board : Text → Text → Text → Rows → Bool × Rows
  unfolding role_of
  rename_board id user title rows =
      if is_owner (role_of id user rows)
      then (
        true,
        update_row (normalize_board_id id) (λ b. record b { title = some (trim title) }) rows,
      )
      else (false, rows)

  -- deleteBoard: whether the board is gone, the thumbnail to delete first, and the rows.
  unfoldable pub delete_board : Text → Text → Rows → Bool × Option Text × Rows
  unfolding find_board role_of
  delete_board id user rows = elim (find_board id rows) [
    | none ↦ (false, none, rows)
    | some board ↦
        if is_owner (role_of id user rows)
        then (true, board.thumbnail_id, delete_row board.id rows)
        else (false, none, rows)
  ]

  -- duplicateBoard: whoever asks owns a new board under the title of a copy.
  unfoldable pub duplicate_board : Text → Text → List (List Text) → Text → ℕ → Rows → Created Rows
  unfolding create_board copy_title
  duplicate_board title user attempts token now rows =
      create_board
        (record { custom_id = none; title = some (copy_title title); user_id = some user }) attempts
        token now rows

  -- touchCollaborator: a new collaborator is an editor, and an old one keeps the role.
  unfoldable pub touch_collaborator : Text → Text → Rows → Rows
  unfolding role_of
  touch_collaborator id user rows = elim (role_of id user rows) [
    | none ↦ upsert_role (normalize_board_id id) user editor rows
    | some role ↦ rows
  ]
