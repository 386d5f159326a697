-- ===== src/Boards/Service/Tenure.antt =====
-- Whose a board is and how long it lives, over all the operations of back-end/src/boards/service.ts.
use skrivle.Prelude.{
  ℕ, ◌≡◌, ◌≤◌, refl, sym, ap, ◌∙◌, true, false, Bool-cases, Option-cases, inl, inr, not, Option,
  none, some, List, [], ◌∷◌, Text, text_eq, ==_iff, ◌==◌, is_some, ◌||◌, arith,
}
use mathlib.Core.Path.{subst}
use skrivle.Services.{CaseMap, trim}
use skrivle.Boards.Id.{normalize_board_id, mint}
use skrivle.Boards.Service.{
  Role, owner, BoardRow, BoardTable, CreateBoardInput, Created, created, invalid_board_id,
  board_id_taken, not_allocated, role_of, is_owner, base, insert, allocate, board_exists,
  create_board, find_board, proves, extend_board, claimed, claim_board, rename_board, delete_board,
  expiry_from, extension_hours, guest_ttl_hours,
}

-- A guest board has no owner, a creator token and at most two days to live; any other has an owner,
-- no end and no token.
pub data Tenure (now : ℕ) (b : BoardRow) : Type 0 where
  guest :
      (until : ℕ)
      → b.is_ephemeral ≡ true
      → b.owner_id ≡ none
      → b.expires_at ≡ some until
      → until ≤ expiry_from extension_hours now
      → is_some b.creator_token_hash ≡ true
      → Tenure now b
  owned :
      b.is_ephemeral ≡ false
      → is_some b.owner_id ≡ true
      → b.expires_at ≡ none
      → b.creator_token_hash ≡ none
      → Tenure now b

later : (now now' : ℕ) (b : BoardRow) → now ≤ now' → Tenure now b → Tenure now' b
later now now' b h (guest until e o x l t) = guest until e o x (omega arith) t
later now now' b h (owned e o x t) = owned e o x t

module _ ⦃c : CaseMap⦄ ⦃t : BoardTable⦄ where
  open t use {
    Rows, create_row, update_row, delete_row, upsert_role, create-new, find-update, find-delete,
    find-upsert,
  }

  -- Every row is filed under its id and keeps its tenure.
  unfoldable pub Kept : ℕ → Rows → Type 0
  Kept now rows =
      (k : Text) (b : BoardRow) → t.find_board k rows ≡ some b → (b.id ≡ k) × Tenure now b

  pub data Request : Type 0 where
    creation : CreateBoardInput → List (List Text) → Text → Request
    extension : Text → Text → Request
    claiming : Text → Text → Text → Request
    renaming : Text → Text → Text → Request
    deletion : Text → Text → Request

  -- The rows after a creation, made or refused.
  unfoldable pub rows_after : Created Rows → Rows → Rows
  rows_after (created row given rows') rows = rows'
  rows_after invalid_board_id rows = rows
  rows_after board_id_taken rows = rows
  rows_after not_allocated rows = rows

  -- The rows after a request.
  unfoldable pub serve : ℕ → Request → Rows → Rows
  unfolding rows_after create_board extend_board claim_board rename_board delete_board
  serve now (creation input attempts token) rows =
      rows_after (create_board input attempts token now rows) rows
  serve now (extension id token) rows = (extend_board id token now rows).1
  serve now (claiming id user token) rows = (claim_board id user token rows).1
  serve now (renaming id user title) rows = (rename_board id user title rows).1
  serve now (deletion id user) rows = (delete_board id user rows).2

  pub update-Kept :
      (now : ℕ) (k : Text) (f : BoardRow → BoardRow) (rows : Rows)
      → Kept now rows
      → ((b : BoardRow)
          → t.find_board k rows ≡ some b
          → Tenure now b
          → ((f b).id ≡ b.id) × Tenure now (f b))
      → Kept now (update_row k f rows)
  unfolding Kept
  update-Kept now k f rows kept keeps j b found = elim (Option-cases (t.find_board j rows)) [
    | inl e ↦ ground (arith, find-update k j f rows)
    | inr (x, e) ↦
        let (filed, tenure) = kept j x e in
        elim (Bool-cases (k == j)) [
          | inl y ↦
              let here : t.find_board k rows ≡ some x =
                ap (λ i. t.find_board i rows) ((==_iff k j).0 y) ∙ e in
              let (same, tenure') = keeps x here tenure in
              let this : f x ≡ b = ground (arith, find-update k j f rows) in
              (ap (λ r. r.id) (sym this) ∙ same ∙ filed, subst (Tenure now) this tenure')
          | inr n ↦
              let this : x ≡ b = ground (arith, find-update k j f rows) in
              (ap (λ r. r.id) (sym this) ∙ filed, subst (Tenure now) this tenure)
        ]
  ]

  base-Tenure :
      (id : Text) (input : CreateBoardInput) (token : Text) (now : ℕ)
      → Tenure now (base id input token now)
  unfolding base
  base-Tenure id input token now = elim (Option-cases input.user_id) [
    | inl e ↦
        guest (expiry_from guest_ttl_hours now) (rw (base, e) refl) (rw (base, e) refl)
          (rw (base, e) refl) (omega arith) (rw (base, e) refl)
    | inr (u, e) ↦
        owned (rw (base, e) refl) (rw (base, e) refl) (rw (base, e) refl) (rw (base, e) refl)
  ]

  create-Kept :
      (now : ℕ) (id : Text) (input : CreateBoardInput) (token : Text) (rows rows' : Rows)
      → Kept now rows
      → create_row (base id input token now) input.user_id rows ≡ some rows'
      → Kept now rows'
  unfolding Kept base
  create-Kept now id input token rows rows' kept made j b found =
      let row = base id input token now in
      let new = create-new row input.user_id rows rows' j made in
      elim (Bool-cases (id == j)) [
        | inl y ↦
            let this : row ≡ b = ground (arith, new) in
            (
              ap (λ r. r.id) (sym this) ∙ (==_iff id j).0 y,
              subst (Tenure now) this (base-Tenure id input token now),
            )
        | inr n ↦ kept j b (ground (arith, new))
      ]

  insert-Kept :
      (now : ℕ) (id : Text) (input : CreateBoardInput) (token : Text) (rows rows' : Rows)
      (b : BoardRow) (given : Option Text)
      → Kept now rows
      → insert id input token now rows ≡ created b given rows'
      → Kept now rows'
  unfolding insert
  insert-Kept now id input token rows rows' b given kept made =
      elim (Option-cases (create_row (base id input token now) input.user_id rows)) [
        | inl e ↦ ground arith
        | inr (rows'', e) ↦
            let same : rows'' ≡ rows' = ground arith in
            create-Kept now id input token rows rows' kept (e ∙ ap some same)
      ]

  allocate-Kept :
      (now : ℕ) (attempts : List (List Text)) (input : CreateBoardInput) (token : Text)
      (rows rows' : Rows) (b : BoardRow) (given : Option Text)
      → Kept now rows
      → allocate attempts input token now rows ≡ created b given rows'
      → Kept now rows'
  unfolding allocate
  allocate-Kept now [] input token rows rows' b given kept made = ground arith
  allocate-Kept now (ids ∷ attempts) input token rows rows' b given kept made =
      let again = allocate-Kept now attempts input token rows rows' b given kept in
      elim (Option-cases (mint (board_exists rows) ids)) [
        | inl e ↦ ground arith
        | inr (id, e) ↦
            let first = insert-Kept now id input token rows rows' b given kept in
            ground (arith, again, first)
      ]

  pub created-Kept :
      (now : ℕ) (rows : Rows) (o : Created Rows)
      → Kept now rows
      → ((b : BoardRow) (given : Option Text) (rows' : Rows)
          → o ≡ created b given rows'
          → Kept now rows')
      → Kept now (rows_after o rows)
  unfolding rows_after
  created-Kept now rows (created b given rows') kept new = new b given rows' refl
  created-Kept now rows invalid_board_id kept new = kept
  created-Kept now rows board_id_taken kept new = kept
  created-Kept now rows not_allocated kept new = kept

  pub create_board-Kept :
      (now : ℕ) (input : CreateBoardInput) (attempts : List (List Text)) (token : Text)
      (rows rows' : Rows) (b : BoardRow) (given : Option Text)
      → Kept now rows
      → create_board input attempts token now rows ≡ created b given rows'
      → Kept now rows'
  unfolding create_board
  create_board-Kept now input attempts token rows rows' b given kept made =
      elim (Option-cases input.custom_id) [
        | inl e ↦ allocate-Kept now attempts input token rows rows' b given kept (ground arith)
        | inr (custom, e) ↦
            insert-Kept now (normalize_board_id custom) input token rows rows' b given kept
              (ground arith)
      ]

  delete-Kept : (now : ℕ) (k : Text) (rows : Rows) → Kept now rows → Kept now (delete_row k rows)
  unfolding Kept
  delete-Kept now k rows kept j b found = kept j b (ground (arith, find-delete k j rows))

  upsert-Kept :
      (now : ℕ) (k u : Text) (role : Role) (rows : Rows)
      → Kept now rows
      → Kept now (upsert_role k u role rows)
  unfolding Kept
  upsert-Kept now k u role rows kept j b found =
      kept j b (sym (find-upsert k u j role rows) ∙ found)

  same-row :
      (now : ℕ) (id : Text) (b r : BoardRow) (rows : Rows)
      → Kept now rows
      → find_board id rows ≡ some b
      → t.find_board b.id rows ≡ some r
      → b.is_ephemeral ≡ true
      → r.is_ephemeral ≡ true
  unfolding find_board Kept
  same-row now id b r rows kept e at g =
      let (filed, tenure) = kept (normalize_board_id id) b e in
      let same : some b ≡ some r = sym e ∙ ap (λ i. t.find_board i rows) (sym filed) ∙ at in
      ground arith

  longer :
      (now : ℕ) (r : BoardRow)
      → r.is_ephemeral ≡ true
      → Tenure now r
      → Tenure now (record r { expires_at = some (expiry_from extension_hours now) })
  longer now r g (guest until e o x l t) =
      guest (expiry_from extension_hours now) e o refl (omega arith) t
  longer now r g (owned e o x t) = ground arith

  extend-Kept :
      (now : ℕ) (id token : Text) (rows : Rows)
      → Kept now rows
      → Kept now (extend_board id token now rows).1
  unfolding extend_board
  extend-Kept now id token rows kept =
      let is_guest : (b r : BoardRow)
          → find_board id rows ≡ some b
          → t.find_board b.id rows ≡ some r
          → b.is_ephemeral ≡ true
          → r.is_ephemeral ≡ true =
        λ b r e at g. same-row now id b r rows kept e at g in
      elim (Option-cases (find_board id rows)) [
        | inl e ↦ rw (extend_board, e) kept
        | inr (b, e) ↦ elim (Bool-cases (proves b token)) [
          | inr n ↦ rw (extend_board, e) rw n kept
          | inl y ↦ elim (Bool-cases b.is_ephemeral) [
            | inr n ↦ rw (extend_board, e) rw (y, n) kept
            | inl g ↦
                rw (extend_board, e) rw (y, g)
                  (update-Kept now b.id
                    (λ r. record r { expires_at = some (expiry_from extension_hours now) }) rows
                    kept (λ r at h. (refl, longer now r (is_guest b r e at g) h)))
          ]
        ]
      ]

  pub title-Tenure :
      (now : ℕ) (b : BoardRow) (title : Option Text)
      → Tenure now b
      → Tenure now (record b { title = title })
  title-Tenure now b title (guest until e o x l t) = guest until e o x l t
  title-Tenure now b title (owned e o x t) = owned e o x t

  claim-Kept :
      (now : ℕ) (id user token : Text) (rows : Rows)
      → Kept now rows
      → Kept now (claim_board id user token rows).1
  unfolding claim_board
  claim-Kept now id user [] rows kept = kept
  claim-Kept now id user (x ∷ token) rows kept = elim (Option-cases (find_board id rows)) [
    | inl e ↦ rw (claim_board, e) kept
    | inr (b, e) ↦ elim (Bool-cases (is_some b.owner_id || not (proves b (x ∷ token)))) [
      | inl y ↦ rw (claim_board, e) rw y kept
      | inr n ↦
          rw (claim_board, e) rw n
            (upsert-Kept now b.id user owner (update_row b.id (claimed user) rows) (
              update-Kept now b.id (claimed user) rows kept
                (λ r at h. (refl, owned refl refl refl refl))))
    ]
  ]

  -- Serving any request, whoever makes it and whether or not it is refused, keeps the tenure of
  -- every board: a guest board has no owner and never more than 48 hours to live, whatever the
  -- number of extensions, and an owned board has no end and no creator token left.
  pub serve-Kept :
      (now : ℕ) (request : Request) (rows : Rows)
      → Kept now rows
      → Kept now (serve now request rows)
  unfolding serve rename_board delete_board
  serve-Kept now (creation input attempts token) rows kept =
      created-Kept now rows (create_board input attempts token now rows) kept (λ b given rows' made.
        create_board-Kept now input attempts token rows rows' b given kept made)
  serve-Kept now (extension id token) rows kept = extend-Kept now id token rows kept
  serve-Kept now (claiming id user token) rows kept = claim-Kept now id user token rows kept
  serve-Kept now (renaming id user title) rows kept =
      elim (Bool-cases (is_owner (role_of id user rows))) [
        | inr n ↦ rw (serve, rename_board, n) kept
        | inl y ↦
            rw (serve, rename_board, y)
              (update-Kept now (normalize_board_id id) (λ b. record b { title = some (trim title) })
                rows kept (λ b at h. (refl, title-Tenure now b (some (trim title)) h)))
      ]
  serve-Kept now (deletion id user) rows kept = elim (Option-cases (find_board id rows)) [
    | inl e ↦ rw (serve, delete_board, e) kept
    | inr (b, e) ↦ elim (Bool-cases (is_owner (role_of id user rows))) [
      | inr n ↦ rw (serve, delete_board, e) rw n kept
      | inl y ↦ rw (serve, delete_board, e) rw y (delete-Kept now b.id rows kept)
    ]
  ]
