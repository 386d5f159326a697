-- ===== src/Boards/Routes/Handlers.antt =====
-- The handlers of back-end/src/http/routes/boards.ts.
use skrivle.Prelude.{not, Option, none, some, [], Text, codes, text_eq, if◌then◌else◌}
use skrivle.Services.{CaseMap}
use skrivle.Boards.Id.{normalize_board_id}
use skrivle.Boards.Service.{
  Role, BoardRow, BoardTable, CreateBoardInput, created, invalid_board_id, board_id_taken,
  not_allocated, max_title, create_board, duplicate_board, is_available, find_board, is_expired,
  role_of, rename_board, delete_board, extend_board, claim_board,
}
use skrivle.Boards.Routes.Answers.{
  Zod, Media, owns_public_id, thumbnail_url, title_of, public_board, nothing, created_board,
  looked_up, changed, available, expires, thumbnail, not_owner, invalid_field, id_taken,
  id_unusable, not_extended, not_claimed, no_live_board, not_its_thumbnail,
}
use skrivle.Boards.Routes.Requests.{
  say, throws, with_id, with_limit, with_session, with_field, optional_field, required_field,
  with_live, Reply, Context, HttpRequest, post_board, get_available, get_board, post_duplicate,
  patch_board, remove_board, post_extend, post_claim, post_thumbnail,
}

module _ ⦃c : CaseMap⦄ ⦃t : BoardTable⦄ where
  open t use {Rows, update_row}

  -- boardsRouter.post("/"), from where its body is valid.
  unfoldable pub create_valid : Media → Context → Option Text → Option Text → Rows → Reply
  unfolding create_board public_board
  create_valid m x custom_id title rows =
      let input : CreateBoardInput = record {
        custom_id = custom_id;
        title = title;
        user_id = x.user;
      } in
      let custom = (elim custom_id as (λ o. Text) [ none ↦ [] | some id ↦ id ]) in
      elim (create_board input x.attempts x.token x.now rows) [
        | created board given rows' ↦
            say (record { status = 201; body = created_board (public_board m board) given }) rows'
        | board_id_taken ↦ say (id_taken (normalize_board_id custom)) rows
        | invalid_board_id ↦ say (id_unusable custom) rows
        | not_allocated ↦ throws rows
      ]

  unfoldable pub create_route : Zod → Media → Context → Option Text → Option Text → Rows → Reply
  unfolding with_limit optional_field create_valid
  create_route z m x custom_id title rows =
      with_limit x rows (elim (optional_field (z.trimmed 3 32) custom_id) [
        | none ↦ say (invalid_field z (codes "customId")) rows
        | some custom ↦ elim (optional_field (z.trimmed 0 max_title) title) [
          | none ↦ say (invalid_field z (codes "title")) rows
          | some given ↦ create_valid m x custom given rows
        ]
      ])

  -- boardsRouter.get("/:id")
  unfoldable pub lookup_route : Zod → Media → Context → Text → Rows → Reply
  unfolding with_id with_live role_of public_board
  lookup_route z m x id rows = with_id z id rows (
      with_live x id rows (λ board.
        let role = (elim x.user as (λ o. Option Role) [
          | none ↦ none
          | some user ↦ role_of board.id user rows
        ]) in
        say (record { status = 200; body = looked_up (public_board m board) role }) rows))

  -- The handler of boardsRouter.post("/:id/duplicate"), for a live board.
  unfoldable pub copy_reply : Media → Context → Text → BoardRow → Rows → Reply
  unfolding duplicate_board public_board title_of
  copy_reply m x user source rows =
      elim (duplicate_board (title_of source) user x.attempts x.token x.now rows) [
        | created board given rows' ↦
            say (record { status = 201; body = changed (public_board m board) }) rows'
        | board_id_taken ↦ throws rows
        | invalid_board_id ↦ throws rows
        | not_allocated ↦ throws rows
      ]

  unfoldable pub duplicate_route : Zod → Media → Context → Text → Rows → Reply
  unfolding with_id with_limit with_session with_live copy_reply
  duplicate_route z m x id rows = with_id z id rows (
      with_limit x rows (
        with_session x rows
          (λ user. with_live x id rows (λ source. copy_reply m x user source rows))))

  -- The row that an update gives back.
  unfoldable pub changed_reply : Media → Text → Rows → Reply
  unfolding find_board public_board
  changed_reply m id rows = elim (find_board id rows) [
    | none ↦ throws rows
    | some board ↦ say (record { status = 200; body = changed (public_board m board) }) rows
  ]

  -- The handler of boardsRouter.patch("/:id"), and the route.
  unfoldable pub rename_reply : Media → Text → Text → Text → Rows → Reply
  unfolding rename_board changed_reply
  rename_reply m id user title rows =
      let (done, rows') = rename_board id user title rows in
      if done then changed_reply m id rows' else say (not_owner (codes "rename")) rows

  unfoldable pub rename_route : Zod → Media → Context → Text → Option Text → Rows → Reply
  unfolding with_id with_session with_field rename_reply
  rename_route z m x id title rows = with_id z id rows (
      with_session x rows (λ user.
        with_field z (codes "title") (required_field (z.trimmed 1 max_title) title) rows
          (λ given. rename_reply m id user given rows)))

  -- The handler of boardsRouter.delete("/:id"), which evicts the board at the end, and the route.
  unfoldable pub delete_reply : Text → Text → Rows → Reply
  unfolding find_board delete_board
  delete_reply id user rows =
      let (done, dropped, rows') = delete_board id user rows in
      if done
      then record {
        response = some (record { status = 204; body = nothing });
        rows = rows';
        evicted = elim (find_board id rows) [ none ↦ none | some board ↦ some board.id ];
      }
      else say (not_owner (codes "delete")) rows

  unfoldable pub delete_route : Zod → Context → Text → Rows → Reply
  unfolding with_id with_session delete_reply
  delete_route z x id rows =
      with_id z id rows (with_session x rows (λ user. delete_reply id user rows))

  -- The handler of boardsRouter.post("/:id/extend"), and the route.
  unfoldable pub extend_reply : Context → Text → Text → Rows → Reply
  unfolding extend_board
  extend_reply x id token rows =
      let (until, rows') = extend_board id token x.now rows in
      elim until [
        | none ↦ say not_extended rows
        | some at ↦ say (record { status = 200; body = expires at }) rows'
      ]

  unfoldable pub extend_route : Zod → Context → Text → Option Text → Rows → Reply
  unfolding with_id with_field extend_reply
  extend_route z x id creator_token rows = with_id z id rows (
      with_field z (codes "creatorToken") (required_field (z.between 1 200) creator_token) rows
        (λ token. extend_reply x id token rows))

  -- The handler of boardsRouter.post("/:id/claim"), and the route.
  unfoldable pub claim_reply : Media → Text → Text → Option Text → Rows → Reply
  unfolding claim_board changed_reply
  claim_reply m id user given rows =
      let token = (elim given as (λ o. Text) [ none ↦ [] | some s ↦ s ]) in
      let (done, rows') = claim_board id user token rows in
      if done then changed_reply m id rows' else say not_claimed rows

  unfoldable pub claim_route : Zod → Media → Context → Text → Option Text → Rows → Reply
  unfolding with_id with_session optional_field claim_reply
  claim_route z m x id creator_token rows = with_id z id rows (
      with_session x rows (λ user. elim (optional_field (z.between 1 200) creator_token) [
        | none ↦ say (invalid_field z (codes "creatorToken")) rows
        | some given ↦ claim_reply m id user given rows
      ]))

  -- The handler of boardsRouter.post("/:id/thumbnail"), and the route.
  unfoldable pub thumbnail_reply : Media → Context → Text → Text → Rows → Reply
  unfolding find_board is_expired owns_public_id thumbnail_url
  thumbnail_reply m x id given rows = elim (find_board id rows) [
    | none ↦ say no_live_board rows
    | some board ↦
        if is_expired board.expires_at x.now
        then say no_live_board rows
        else if not (owns_public_id m board.id given)
        then say not_its_thumbnail rows
        else say (record { status = 200; body = thumbnail (thumbnail_url m (some given)) })
            (update_row board.id (λ b. record b { thumbnail_id = some given }) rows)
  ]

  unfoldable pub thumbnail_route : Zod → Media → Context → Text → Option Text → Rows → Reply
  unfolding with_id with_field thumbnail_reply
  thumbnail_route z m x id public_id rows = with_id z id rows (
      with_field z (codes "publicId") (required_field (z.between 1 200) public_id) rows
        (λ given. thumbnail_reply m x id given rows))

  -- boardsRouter, by the route that the request takes.
  unfoldable pub handle : Zod → Media → Context → HttpRequest → Rows → Reply
  unfolding create_route with_id with_limit is_available lookup_route duplicate_route rename_route
      delete_route extend_route claim_route thumbnail_route
  handle z m x (post_board custom_id title) rows = create_route z m x custom_id title rows
  handle z m x (get_available id) rows = with_limit x rows (
      with_id z id rows
        (say (record { status = 200; body = available (is_available id rows) }) rows))
  handle z m x (get_board id) rows = lookup_route z m x id rows
  handle z m x (post_duplicate id) rows = duplicate_route z m x id rows
  handle z m x (patch_board id title) rows = rename_route z m x id title rows
  handle z m x (remove_board id) rows = delete_route z x id rows
  handle z m x (post_extend id token) rows = extend_route z x id token rows
  handle z m x (post_claim id token) rows = claim_route z m x id token rows
  handle z m x (post_thumbnail id public_id) rows = thumbnail_route z m x id public_id rows
