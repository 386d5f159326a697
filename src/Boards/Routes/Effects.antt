-- ===== src/Boards/Routes/Effects.antt =====
-- back-end/src/http/routes/boards.ts: the rows after the middleware and after each handler, which are
-- those after one call of the board service.
use skrivle.Prelude.{
  ℕ, ◌≡◌, refl, Bool-cases, Option-cases, inl, inr, Option, none, some, [], Text, text_eq, arith,
}
use skrivle.Services.{CaseMap}
use skrivle.Boards.Service.{
  BoardRow, BoardTable, duplicate_board, copy_title, find_board, is_expired, rename_board,
  delete_board, extend_board, claim_board,
}
use skrivle.Boards.Service.Tenure.{
  Tenure, guest, owned, Kept, creation, extension, claiming, renaming, deletion, rows_after, serve,
  update-Kept,
}
use skrivle.Boards.Routes.Answers.{Zod, Media, owns_public_id, is_id_param, title_of}
use skrivle.Boards.Routes.Requests.{
  Context, Reply, with_id, with_limit, with_session, with_field, with_live,
}
use skrivle.Boards.Routes.Handlers.{
  create_valid, changed_reply, copy_reply, rename_reply, delete_reply, extend_reply, claim_reply,
  thumbnail_reply,
}

module _ ⦃c : CaseMap⦄ ⦃t : BoardTable⦄ where
  open t use {Rows, update_row}

  -- A property of the rows through the middleware: a refusal leaves the rows.
  module _ (P : Rows → Type 0) where
    pub id-keeps :
        (z : Zod) (id : Text) (rows : Rows) (rest : Reply)
        → P rows
        → P rest.rows
        → P (with_id z id rows rest).rows
    unfolding with_id
    id-keeps z id rows rest h k = elim (Bool-cases (is_id_param id)) [
      | inl y ↦ rw (with_id, y) k
      | inr n ↦ rw (with_id, n) h
    ]

    pub limit-keeps :
        (x : Context) (rows : Rows) (rest : Reply)
        → P rows
        → P rest.rows
        → P (with_limit x rows rest).rows
    unfolding with_limit
    limit-keeps x rows rest h k = elim (Option-cases x.limited) [
      | inl e ↦ rw (with_limit, e) k
      | inr (n, e) ↦ rw (with_limit, e) h
    ]

    pub session-keeps :
        (x : Context) (rows : Rows) (rest : Text → Reply)
        → P rows
        → ((user : Text) → P (rest user).rows)
        → P (with_session x rows rest).rows
    unfolding with_session
    session-keeps x rows rest h k = elim (Option-cases x.user) [
      | inl e ↦ rw (with_session, e) h
      | inr (user, e) ↦ rw (with_session, e) (k user)
    ]

    pub field-keeps :
        (z : Zod) (field : Text) (value : Option Text) (rows : Rows) (rest : Text → Reply)
        → P rows
        → ((s : Text) → P (rest s).rows)
        → P (with_field z field value rows rest).rows
    unfolding with_field
    field-keeps z field none rows rest h k = h
    field-keeps z field (some s) rows rest h k = k s

    pub live-keeps :
        (x : Context) (id : Text) (rows : Rows) (rest : BoardRow → Reply)
        → P rows
        → ((b : BoardRow) → P (rest b).rows)
        → P (with_live x id rows rest).rows
    unfolding with_live
    live-keeps x id rows rest h k = elim (Option-cases (find_board id rows)) [
      | inl e ↦ rw (with_live, e) h
      | inr (b, e) ↦ elim (Bool-cases (is_expired b.expires_at x.now)) [
        | inl y ↦ rw (with_live, e) rw y h
        | inr n ↦ rw (with_live, e) rw n (k b)
      ]
    ]

  pub changed-rows : (m : Media) (id : Text) (rows : Rows) → (changed_reply m id rows).rows ≡ rows
  unfolding changed_reply
  changed-rows m id rows = ground arith

  pub create-rows :
      (m : Media) (x : Context) (custom title : Option Text) (rows : Rows)
      → (create_valid m x custom title rows).rows
        ≡ serve x.now
            (creation
              (record { custom_id = custom; title = title; user_id = x.user })
              x.attempts
              x.token)
            rows
  unfolding create_valid serve rows_after
  create-rows m x custom title rows = ground arith

  pub copy-rows :
      (m : Media) (x : Context) (user : Text) (source : BoardRow) (rows : Rows)
      → (copy_reply m x user source rows).rows
        ≡ serve x.now
            (creation
              (record {
                custom_id = none;
                title = some (copy_title (title_of source));
                user_id = some user;
              })
              x.attempts
              x.token)
            rows
  unfolding copy_reply duplicate_board serve rows_after
  copy-rows m x user source rows = ground arith

  -- A thumbnail is none of what a tenure reads.
  thumbnail-Tenure :
      (now : ℕ) (b : BoardRow) (id : Option Text)
      → Tenure now b
      → Tenure now (record b { thumbnail_id = id })
  thumbnail-Tenure now b id (guest until e o w l h) = guest until e o w l h
  thumbnail-Tenure now b id (owned e o w h) = owned e o w h

  pub thumbnail-keeps :
      (m : Media) (x : Context) (id given : Text) (rows : Rows)
      → Kept x.now rows
      → Kept x.now (thumbnail_reply m x id given rows).rows
  unfolding thumbnail_reply
  thumbnail-keeps m x id given rows kept = elim (Option-cases (find_board id rows)) [
    | inl e ↦ rw (thumbnail_reply, e) kept
    | inr (b, e) ↦ elim (Bool-cases (is_expired b.expires_at x.now)) [
      | inl y ↦ rw (thumbnail_reply, e) rw y kept
      | inr n ↦ elim (Bool-cases (owns_public_id m b.id given)) [
        | inr foreign ↦ rw (thumbnail_reply, e) rw n rw foreign kept
        | inl own ↦
            rw (thumbnail_reply, e) rw n rw own
              (update-Kept x.now b.id (λ r. record r { thumbnail_id = some given }) rows kept
                (λ r at h. (refl, thumbnail-Tenure x.now r (some given) h)))
      ]
    ]
  ]

  pub rename-rows :
      (m : Media) (x : Context) (id user title : Text) (rows : Rows)
      → (rename_reply m id user title rows).rows ≡ serve x.now (renaming id user title) rows
  unfolding rename_reply rename_board changed_reply serve
  rename-rows m x id user title rows = ground arith

  pub delete-rows :
      (x : Context) (id user : Text) (rows : Rows)
      → (delete_reply id user rows).rows ≡ serve x.now (deletion id user) rows
  unfolding delete_reply delete_board serve
  delete-rows x id user rows = ground arith

  pub extend-rows :
      (x : Context) (id token : Text) (rows : Rows)
      → (extend_reply x id token rows).rows ≡ serve x.now (extension id token) rows
  unfolding extend_reply extend_board serve
  extend-rows x id token rows = ground arith

  pub claim-rows :
      (m : Media) (x : Context) (id user : Text) (given : Option Text) (rows : Rows)
      → (claim_reply m id user given rows).rows
        ≡ serve x.now (claiming id user (elim given [ none ↦ [] | some s ↦ s ])) rows
  unfolding claim_reply claim_board changed_reply serve
  claim-rows m x id user none rows = ground arith
  claim-rows m x id user (some s) rows = ground arith
