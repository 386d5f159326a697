-- ===== src/Boards/Service/Claims.antt =====
-- Who may take, extend or remove a board of back-end/src/boards/service.ts.
use skrivle.Prelude.{
  ℕ, ◌≡◌, refl, sym, ap, ◌∙◌, true, false, Bool-cases, Option-cases, inl, inr, not, ◌||◌, none,
  some, [], ◌∷◌, Text, text_eq, ==_iff, ◌==◌, is_some, arith,
}
use mathlib.Core.Path.{subst}
use skrivle.Services.{CaseMap}
use skrivle.Boards.Id.{normalize_board_id}
use skrivle.Boards.Service.{
  owner, BoardRow, BoardTable, find_board, proves, extend_board, claimed, claim_board, role_of,
  rename_board, delete_board, is_owner,
}
use skrivle.Boards.Service.Tenure.{Kept}

module _ ⦃c : CaseMap⦄ ⦃t : BoardTable⦄ where
  open t use {Rows, hash_token, update_row, upsert_role, find-update, find-upsert, role-upsert}

  claimed-row :
      (id user token : Text) (rows rows' : Rows)
      → claim_board id user token rows ≡ (true, rows')
      → (b : BoardRow) × (find_board id rows ≡ some b)
        × (rows' ≡ upsert_role b.id user owner (update_row b.id (claimed user) rows))
  unfolding claim_board
  claimed-row id user [] rows rows' h = ground arith
  claimed-row id user (x ∷ token) rows rows' h = elim (Option-cases (find_board id rows)) [
    | inl e ↦ ground arith
    | inr (b, e) ↦ elim (Bool-cases (is_some b.owner_id || not (proves b (x ∷ token)))) [
      | inl y ↦ ground arith
      | inr n ↦ (b, e, ground arith)
    ]
  ]

  claimed-found :
      (now : ℕ) (id user : Text) (b : BoardRow) (rows : Rows)
      → Kept now rows
      → find_board id rows ≡ some b
      → find_board id (upsert_role b.id user owner (update_row b.id (claimed user) rows))
        ≡ some (claimed user b)
  unfolding find_board Kept
  claimed-found now id user b rows kept e =
      let (filed, tenure) = kept (normalize_board_id id) b e in
      let name = normalize_board_id id in
      ground (
        arith,
        find-upsert b.id user name owner (update_row b.id (claimed user) rows),
        find-update b.id name (claimed user) rows,
        ==_iff b.id name,
      )

  claimed-role :
      (now : ℕ) (id user : Text) (b : BoardRow) (rows : Rows)
      → Kept now rows
      → find_board id rows ≡ some b
      → role_of id user (upsert_role b.id user owner (update_row b.id (claimed user) rows))
        ≡ some owner
  unfolding find_board role_of Kept
  claimed-role now id user b rows kept e =
      let (filed, tenure) = kept (normalize_board_id id) b e in
      let rows' = upsert_role b.id user owner (update_row b.id (claimed user) rows) in
      subst (λ k. t.find_role k user rows' ≡ some owner) filed
        (role-upsert b.id user owner (update_row b.id (claimed user) rows))

  taken :
      (id user token : Text) (rows : Rows) (b : BoardRow)
      → find_board id rows ≡ some b
      → is_some b.owner_id ≡ true
      → claim_board id user token rows ≡ (false, rows)
  unfolding claim_board
  taken id user [] rows b e o = refl
  taken id user (x ∷ token) rows b e o = ground arith

  closed :
      (id token : Text) (at : ℕ) (rows : Rows) (b : BoardRow)
      → find_board id rows ≡ some b
      → b.creator_token_hash ≡ none
      → extend_board id token at rows ≡ (none, rows)
  unfolding extend_board proves
  closed id token at rows b e o = ground arith

  unproven :
      (b : BoardRow) (token : Text)
      → (some (hash_token token) ≡ b.creator_token_hash → ⊥)
      → proves b token ≡ false
  unfolding proves
  unproven b token wrong = elim (Option-cases b.creator_token_hash) [
    | inl e ↦ ground arith
    | inr ([], e) ↦ ground arith
    | inr (d ∷ digest, e) ↦ elim (Bool-cases (hash_token token == (d ∷ digest))) [
      | inl y ↦ elim (wrong (ap some ((==_iff (hash_token token) (d ∷ digest)).0 y) ∙ sym e)) [ ]
      | inr n ↦ ground arith
    ]
  ]

  unclaimed :
      (id user token : Text) (rows : Rows) (b : BoardRow)
      → find_board id rows ≡ some b
      → proves b token ≡ false
      → claim_board id user token rows ≡ (false, rows)
  unfolding claim_board
  unclaimed id user [] rows b e n = refl
  unclaimed id user (x ∷ token) rows b e n = ground arith

  -- After a successful claim the board is the caller's and has no end, and no token works on it
  -- any more: every later claim, by anyone, and every extension is refused and changes nothing.
  pub claim-settles :
      (now : ℕ) (id user token : Text) (rows rows' : Rows) (other again : Text) (at : ℕ)
      → Kept now rows
      → claim_board id user token rows ≡ (true, rows')
      → (role_of id user rows' ≡ some owner)
        × ((b : BoardRow) × (find_board id rows' ≡ some b)
            × (b.owner_id ≡ some user)
            × (b.expires_at ≡ none))
        × (claim_board id other again rows' ≡ (false, rows'))
        × (extend_board id again at rows' ≡ (none, rows'))
  unfolding role_of
  claim-settles now id user token rows rows' other again at kept h =
      let (b, e, left) = claimed-row id user token rows rows' h in
      let rest : (role_of id user rows' ≡ some owner)
          × (find_board id rows' ≡ some (claimed user b)) =
        subst (λ r. (role_of id user r ≡ some owner) × (find_board id r ≡ some (claimed user b)))
          (sym left)
          (claimed-role now id user b rows kept e, claimed-found now id user b rows kept e) in
      (
        rest.0,
        (claimed user b, rest.1, refl, refl),
        taken id other again rows' (claimed user b) rest.1 refl,
        closed id again at rows' (claimed user b) rest.1 refl,
      )

  pub outsider-changes_nothing :
      (id user token title : Text) (at : ℕ) (b : BoardRow) (rows : Rows)
      → is_owner (role_of id user rows) ≡ false
      → find_board id rows ≡ some b
      → (some (hash_token token) ≡ b.creator_token_hash → ⊥)
      → (rename_board id user title rows ≡ (false, rows))
        × (delete_board id user rows ≡ (false, none, rows))
        × (extend_board id token at rows ≡ (none, rows))
        × (claim_board id user token rows ≡ (false, rows))
  unfolding rename_board delete_board extend_board
  outsider-changes_nothing id user token title at b rows role e wrong =
      let unproved = unproven b token wrong in
      (ground arith, ground arith, ground arith, unclaimed id user token rows b e unproved)
