-- ===== src/Browser/Tokens/Lifetimes.antt =====
-- How long a browser can still extend a board: front-end/src/lib/board/creator-tokens.ts against
-- extendBoard of back-end/src/boards/service.ts.
use skrivle.Prelude.{
  ℕ, ◌+◌, ◌*◌, ◌≤◌, ◌<◌, ◌≡◌, refl, Bool, true, false, not, ◌||◌, ◌&&◌, nat_eq, Option, none, some,
  [], ◌∷◌, Text, text_eq, ◌==◌, ==_iff, find, put, find-put, any, arith,
}
use skrivle.Services.{CaseMap}
use skrivle.Browser.Tokens.{
  max_age_ms, TokenEntry, TokenStore, write_store, kept_title, normalize, remember_creator_token,
  creator_token_for, too_old, prune_each, prune_creator_tokens,
}
use skrivle.Boards.Service.{BoardRow, BoardTable, proves, extend_board, find_board, is_expired}

prune-none :
    (now : ℕ) (store : TokenStore)
    → any (λ e. too_old now e.1) store ≡ false
    → prune_each now store ≡ store
unfolding prune_each
prune-none now [] h = refl
prune-none now ((id, entry) ∷ store) h = ground (arith, prune-none now store)

find-prune :
    (now : ℕ) (id : Text) (store : TokenStore) (entry : TokenEntry)
    → find id store ≡ some entry
    → too_old now entry ≡ false
    → find id (prune_each now store) ≡ some entry
unfolding prune_each find
find-prune now id [] entry h young = ground arith
find-prune now id ((j, e) ∷ store) entry h young = ground (arith, find-prune now id store entry)

pruned-same :
    (now : ℕ) (store : TokenStore) → prune_creator_tokens true now store ≡ prune_each now store
unfolding prune_creator_tokens write_store
pruned-same now store = ground (arith, prune-none now store)

pub find-pruned :
    (saved : Bool) (now : ℕ) (id : Text) (store : TokenStore) (entry : TokenEntry)
    → find id store ≡ some entry
    → too_old now entry ≡ false
    → find id (prune_creator_tokens saved now store) ≡ some entry
unfolding prune_creator_tokens write_store
find-pruned saved now id store entry h young = ground (arith, find-prune now id store entry h young)

module _ ⦃c : CaseMap⦄ where
  -- A token that was stored is given back for three days, for the board's id in every spelling that
  -- normalises alike, whatever cleaning up there is until then.
  pub remembered-found :
      (board_id spelled token : Text) (title : Option Text) (now at : ℕ) (saved : Bool)
      (store : TokenStore)
      → normalize board_id ≡ normalize spelled
      → at ≤ now + max_age_ms
      → creator_token_for spelled (
          prune_creator_tokens saved at
            (remember_creator_token true now board_id token title store))
        ≡ some token
  unfolding creator_token_for remember_creator_token write_store
  remembered-found board_id spelled token title now at saved store same young =
      let entry : TokenEntry = record {
        token = token;
        created_at = now;
        title = kept_title title;
      } in
      let stored = put (normalize board_id) entry store in
      let there : find (normalize spelled) stored ≡ some entry = ground (
        arith,
        find-put (normalize board_id) (normalize spelled) entry store,
        ==_iff (normalize board_id) (normalize spelled),
      ) in
      rw
        (
          creator_token_for,
          remember_creator_token,
          write_store,
          find-pruned saved at (normalize spelled) stored entry there (ground arith),
        )
        refl

-- The store holds one entry for a board.
unfoldable pub only : Text → TokenStore → TokenEntry → Bool
only id [] entry = true
only id ((j, e) ∷ store) entry =
    (not (j == id) || e.created_at == entry.created_at) && only id store entry

prune-drops :
    (now : ℕ) (id : Text) (store : TokenStore) (entry : TokenEntry)
    → only id store entry ≡ true
    → too_old now entry ≡ true
    → find id (prune_each now store) ≡ none
unfolding prune_each find only
prune-drops now id [] entry one old = refl
prune-drops now id ((j, e) ∷ store) entry one old = ground (arith, prune-drops now id store entry)

module _ ⦃c : CaseMap⦄ ⦃t : BoardTable⦄ where
  open t use {Rows, find-update}

  -- The three days are too short: a guest board that is extended again more than a day after it was
  -- made is still alive at a time when cleaning up takes its token away.
  pub prune-too_soon :
      (board_id token : Text) (entry : TokenEntry) (store : TokenStore) (at now : ℕ) (b : BoardRow)
      (rows : Rows)
      → only (normalize board_id) store entry ≡ true
      → find_board board_id rows ≡ some b
      → proves b token ≡ true
      → b.is_ephemeral ≡ true
      → entry.created_at + max_age_ms < now
      → now < at + 48 * 3600000
      → (creator_token_for board_id (prune_creator_tokens true now store) ≡ none)
        × ((until : Option ℕ) × ((extend_board board_id token at rows).0 ≡ some until)
            × (is_expired until now ≡ false))
  unfolding creator_token_for extend_board is_expired
  prune-too_soon board_id token entry store at now b rows one e y g old alive =
      let dropped = prune-drops now (normalize board_id) store entry one (ground arith) in
      (
        rw (creator_token_for, pruned-same now store, dropped) refl,
        (some (at + 48 * 3600000), ground arith, ground arith),
      )
