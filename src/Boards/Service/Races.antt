-- ===== src/Boards/Service/Races.antt =====
-- back-end/src/boards/service.ts: a claim between the reading and the writing of an extension.
use skrivle.Prelude.{ℕ, ◌≡◌, true, none, some, [], ◌∷◌, Text, text_eq, ==_refl, arith, ltb, length}
use skrivle.Services.{CaseMap}
use skrivle.Boards.Service.{
  owner, BoardRow, BoardTable, find_board, proves, extend_board, extended, claimed, claim_board,
  taken_over, expiry_from, extension_hours,
}

module _ ⦃c : CaseMap⦄ ⦃t : BoardTable⦄ where
  open t use {Rows, find_role, find-update, find-upsert}

  -- When an extension of a guest board has read the row, and a claim with the same token comes before
  -- the extension writes, both go through and the board has an owner and an end.
  pub claim-between :
      (id user token : Text) (now : ℕ) (b : BoardRow) (rows : Rows)
      → find_board id rows ≡ some b
      → t.find_board b.id rows ≡ some b
      → b.is_ephemeral ≡ true
      → b.owner_id ≡ none
      → proves b token ≡ true
      → ltb 0 (length token) ≡ true
      → ((extend_board id token now rows).0 ≡ some (some (expiry_from extension_hours now)))
        × ((claim_board id user token rows).0 ≡ true)
        × (t.find_board b.id (extended now b (claim_board id user token rows).1)
            ≡ some
                (record (claimed user b) { expires_at = some (expiry_from extension_hours now) }))
  unfolding extend_board claim_board
  claim-between id user [] now b rows e filed guest unowned proved long =
      absurd (ground (arith, long))
  claim-between id user (x ∷ token) now b rows e filed guest unowned proved long =
      let taken = taken_over user b rows in
      (
        ground (arith, e, guest, proved),
        ground (arith, e, unowned, proved),
        ground (
          arith,
          e,
          unowned,
          proved,
          filed,
          ==_refl b.id,
          find-update b.id b.id
              (λ r. record r { expires_at = some (expiry_from extension_hours now) }) taken,
          find-upsert b.id user b.id owner (t.update_row b.id (claimed user) rows),
          find-update b.id b.id (claimed user) rows,
        ),
      )
