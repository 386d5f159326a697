-- ===== src/Boards/Routes/Secrecy.antt =====
-- back-end/src/http/routes/boards.ts: what an answer tells, and to whom.
use skrivle.Prelude.{
  ℕ, ◌≡◌, refl, sym, ap, ◌∙◌, false, Bool-cases, Option-cases, inl, inr, Option, none, some, Text,
  text_eq, ◌==◌, ==_iff, arith,
}
use mathlib.Core.Path.{subst}
use skrivle.Services.{CaseMap}
use skrivle.Boards.Service.{
  BoardRow, BoardTable, find_board, is_expired, role_of, is_owner, rename_board, delete_board,
}
use skrivle.Boards.Routes.Answers.{Zod, Media, thumbnail_public_id, owns_public_id}
use skrivle.Boards.Routes.Requests.{
  Context, patch_board, remove_board, post_thumbnail, with_id, with_session, with_field,
}
use skrivle.Boards.Routes.Handlers.{
  rename_reply, delete_reply, rename_route, delete_route, thumbnail_reply, thumbnail_route, handle,
}
use skrivle.Boards.Routes.Effects.{id-keeps}

module _ ⦃c : CaseMap⦄ ⦃t : BoardTable⦄ where
  open t use {Rows, find-update}

  -- Renaming or deleting a board that one does not own, or that does not exist: the answer is the same
  -- whatever the tables hold, they are left as they are, and nobody is put off the board.
  pub owner_only-same :
      (z : Zod) (m : Media) (x : Context) (id user : Text) (title : Option Text) (rows other : Rows)
      → x.user ≡ some user
      → is_owner (role_of id user rows) ≡ false
      → is_owner (role_of id user other) ≡ false
      → ((handle z m x (patch_board id title) rows).response
          ≡ (handle z m x (patch_board id title) other).response)
        × ((handle z m x (remove_board id) rows).response
            ≡ (handle z m x (remove_board id) other).response)
        × ((handle z m x (patch_board id title) rows).rows ≡ rows)
        × ((handle z m x (remove_board id) rows).rows ≡ rows)
        × ((handle z m x (patch_board id title) rows).evicted ≡ none)
        × ((handle z m x (remove_board id) rows).evicted ≡ none)
  unfolding handle rename_route delete_route rename_reply delete_reply rename_board delete_board
      with_id with_session with_field
  owner_only-same z m x id user title rows other signed mine theirs = ground arith

  -- What the confirmation of a thumbnail may do to the row at a key, when the id that it names was
  -- looked up as this.
  pub data Confirmed (m : Media) (now : ℕ) (given key : Text)
      (looked_up before after : Option BoardRow) : Type 0 where
    left : after ≡ before → Confirmed m now given key looked_up before after
    set :
        (b r : BoardRow)
        → looked_up ≡ some b
        → is_expired b.expires_at now ≡ false
        → b.id ≡ key
        → given ≡ thumbnail_public_id m key
        → before ≡ some r
        → after ≡ some (record r { thumbnail_id = some given })
        → Confirmed m now given key looked_up before after

  confirm-Confirmed :
      (m : Media) (x : Context) (id given key : Text) (rows : Rows)
      → Confirmed m x.now given key
          (find_board id rows)
          (t.find_board key rows)
          (t.find_board key (thumbnail_reply m x id given rows).rows)
  unfolding thumbnail_reply owns_public_id
  confirm-Confirmed m x id given key rows = elim (Option-cases (find_board id rows)) [
    | inl e ↦ rw (thumbnail_reply, e) (left refl)
    | inr (b, e) ↦ elim (Bool-cases (is_expired b.expires_at x.now)) [
      | inl y ↦ rw (thumbnail_reply, e) rw y (left refl)
      | inr n ↦ elim (Bool-cases (owns_public_id m b.id given)) [
        | inr foreign ↦ rw (thumbnail_reply, e) rw n rw foreign (left refl)
        | inl own ↦
            let f : BoardRow → BoardRow = (λ r. record r { thumbnail_id = some given }) in
            let named : given ≡ thumbnail_public_id m b.id =
              (==_iff given (thumbnail_public_id m b.id)).0 own in
            let after = find-update b.id key f rows in
            rw (thumbnail_reply, e) rw n rw own
              (elim (Bool-cases (b.id == key)) [
                | inr other ↦ left (ground (arith, after, other))
                | inl same ↦ elim (Option-cases (t.find_board key rows)) [
                  | inl gone ↦ left (ground (arith, after, same, gone))
                  | inr (r, found) ↦
                      let at : b.id ≡ key = (==_iff b.id key).0 same in
                      set b r refl n at (named ∙ ap (thumbnail_public_id m) at) found
                        (ground (arith, after, same, found))
                ]
              ])
      ]
    ]
  ]

  pub thumbnail-Confirmed :
      (z : Zod) (m : Media) (x : Context) (id given key : Text) (rows : Rows)
      → Confirmed m x.now given key
          (find_board id rows)
          (t.find_board key rows)
          (t.find_board key (handle z m x (post_thumbnail id (some given)) rows).rows)
  unfolding handle thumbnail_route with_id with_field
  thumbnail-Confirmed z m x id given key rows =
      let before = t.find_board key rows in
      id-keeps (λ r. Confirmed m x.now given key (find_board id rows) before (t.find_board key r)) z
        id rows _ (left refl)
        (elim (Option-cases (z.between 1 200 given)) [
          | inl e ↦ rw (with_field, e) (left refl)
          | inr (s, e) ↦
              let same : s ≡ given = ground (arith, e, z.between-is 1 200 given) in
              rw e (
                subst
                  (λ w.
                    Confirmed m x.now given key (find_board id rows) before
                      (t.find_board key (thumbnail_reply m x id w rows).rows))
                  (sym same) (confirm-Confirmed m x id given key rows))
        ])
