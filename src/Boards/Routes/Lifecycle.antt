-- ===== src/Boards/Routes/Lifecycle.antt =====
-- back-end/src/http/routes/boards.ts: what requests make of the rows of boards.
use skrivle.Prelude.{ℕ, ◌≡◌, sym, Option-cases, inl, inr, Option, Text, codes, text_eq}
use mathlib.Core.Path.{subst}
use skrivle.Services.{CaseMap}
use skrivle.Boards.Service.{BoardTable, max_title}
use skrivle.Boards.Service.Tenure.{Kept, serve, serve-Kept}
use skrivle.Boards.Routes.Answers.{Zod, Media}
use skrivle.Boards.Routes.Requests.{
  Context, HttpRequest, post_board, get_available, get_board, post_duplicate, patch_board,
  remove_board, post_extend, post_claim, post_thumbnail, optional_field, required_field,
}
use skrivle.Boards.Routes.Handlers.{
  create_valid, create_route, lookup_route, duplicate_route, copy_reply, rename_reply, delete_reply,
  extend_reply, claim_reply, rename_route, delete_route, extend_route, claim_route, thumbnail_route,
  handle,
}
use skrivle.Boards.Routes.Effects.{
  id-keeps, limit-keeps, session-keeps, field-keeps, live-keeps, create-rows, copy-rows,
  thumbnail-keeps, rename-rows, delete-rows, extend-rows, claim-rows,
}

module _ ⦃c : CaseMap⦄ ⦃t : BoardTable⦄ where
  open t use {Rows, update_row}

  served-Kept :
      (now : ℕ) (rows rows' : Rows) (request : _)
      → rows' ≡ serve now request rows
      → Kept now rows
      → Kept now rows'
  served-Kept now rows rows' request e kept =
      subst (λ r. Kept now r) (sym e) (serve-Kept now request rows kept)

  create-keeps :
      (z : Zod) (m : Media) (x : Context) (custom title : Option Text) (rows : Rows)
      → Kept x.now rows
      → Kept x.now (create_route z m x custom title rows).rows
  unfolding create_route
  create-keeps z m x custom title rows kept =
      limit-keeps (Kept x.now) x rows _ kept
        (elim (Option-cases (optional_field (z.trimmed 3 32) custom)) [
          | inl e ↦ rw e kept
          | inr (id, e) ↦ rw e (elim (Option-cases (optional_field (z.trimmed 0 max_title) title)) [
            | inl n ↦ rw n kept
            | inr (given, s) ↦ rw s (
                served-Kept x.now rows (create_valid m x id given rows).rows _
                  (create-rows m x id given rows) kept)
          ])
        ])

  -- Every request to the routes that runs with no other between its reading and its writing, whoever
  -- sends it and however it is answered, keeps the tenure of every board: a guest board has no owner
  -- and at most 48 hours to live, and an owned board has no end and no creator token left.
  pub handle-Kept :
      (z : Zod) (m : Media) (x : Context) (request : HttpRequest) (rows : Rows)
      → Kept x.now rows
      → Kept x.now (handle z m x request rows).rows
  unfolding handle lookup_route duplicate_route rename_route delete_route extend_route claim_route
      thumbnail_route
  handle-Kept z m x (post_board custom title) rows kept = create-keeps z m x custom title rows kept
  handle-Kept z m x (get_available id) rows kept =
      limit-keeps (Kept x.now) x rows _ kept (id-keeps (Kept x.now) z id rows _ kept kept)
  handle-Kept z m x (get_board id) rows kept =
      id-keeps (Kept x.now) z id rows _ kept (live-keeps (Kept x.now) x id rows _ kept (λ b. kept))
  handle-Kept z m x (post_duplicate id) rows kept = id-keeps (Kept x.now) z id rows _ kept (
      limit-keeps (Kept x.now) x rows _ kept (
        session-keeps (Kept x.now) x rows _ kept (λ user.
          live-keeps (Kept x.now) x id rows _ kept (λ b.
            served-Kept x.now rows (copy_reply m x user b rows).rows _ (copy-rows m x user b rows)
              kept))))
  handle-Kept z m x (patch_board id title) rows kept = id-keeps (Kept x.now) z id rows _ kept (
      session-keeps (Kept x.now) x rows _ kept (λ user.
        field-keeps (Kept x.now) z (codes "title") (required_field (z.trimmed 1 max_title) title)
          rows _ kept
          (λ given.
            served-Kept x.now rows (rename_reply m id user given rows).rows _
              (rename-rows m x id user given rows) kept)))
  handle-Kept z m x (remove_board id) rows kept = id-keeps (Kept x.now) z id rows _ kept (
      session-keeps (Kept x.now) x rows _ kept (λ user.
        served-Kept x.now rows (delete_reply id user rows).rows _ (delete-rows x id user rows)
          kept))
  handle-Kept z m x (post_extend id token) rows kept = id-keeps (Kept x.now) z id rows _ kept (
      field-keeps (Kept x.now) z (codes "creatorToken") (required_field (z.between 1 200) token)
        rows _ kept
        (λ given.
          served-Kept x.now rows (extend_reply x id given rows).rows _ (extend-rows x id given rows)
            kept))
  handle-Kept z m x (post_claim id token) rows kept = id-keeps (Kept x.now) z id rows _ kept (
      session-keeps (Kept x.now) x rows _ kept (λ user.
        elim (Option-cases (optional_field (z.between 1 200) token)) [
          | inl e ↦ rw e kept
          | inr (given, e) ↦ rw e (
              served-Kept x.now rows (claim_reply m id user given rows).rows _
                (claim-rows m x id user given rows) kept)
        ]))
  handle-Kept z m x (post_thumbnail id public_id) rows kept =
      id-keeps (Kept x.now) z id rows _ kept (
        field-keeps (Kept x.now) z (codes "publicId") (required_field (z.between 1 200) public_id)
          rows _ kept (λ given. thumbnail-keeps m x id given rows kept))
