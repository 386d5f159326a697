-- ===== src/Browser/Tokens.antt =====
-- front-end/src/lib/board/creator-tokens.ts: the creator tokens of guest boards, in localStorage. A
-- store that cannot be read is an empty one, and one that cannot be written stays as it was.
pub mod Lifetimes
use skrivle.Prelude.{
  ℕ, ◌-◌, ◌*◌, Bool, true, false, not, Option, none, some, List, [], ◌∷◌, Text, text_eq, find, put,
  remove, filter, ltb, is_some, any, if◌then◌else◌,
}
use skrivle.Services.{CaseMap, trim}

abbrev pub max_age_ms : ℕ
max_age_ms = 72 * 60 * 60 * 1000

pub record TokenEntry : Type 0 where
  pub token : Text
  pub created_at : ℕ
  pub title : Option Text

-- The boards of a Store.
abbrev pub TokenStore : Type 0
TokenStore = List (Text × TokenEntry)

-- read: an item that is missing, cannot be read or parsed, or has no boards, is an empty store.
unfoldable pub read_store : Option TokenStore → TokenStore
read_store none = []
read_store (some boards) = boards

-- write: what localStorage holds afterwards; `saved` is false when setItem throws.
unfoldable pub write_store : Bool → TokenStore → TokenStore → TokenStore
write_store saved before store = if saved then store else before

unfoldable pub kept_title : Option Text → Option Text
kept_title none = none
kept_title (some []) = none
kept_title (some (x ∷ title)) = some (x ∷ title)

module _ ⦃c : CaseMap⦄ where
  -- normalize
  unfoldable pub normalize : Text → Text
  normalize board_id = c.lower (trim board_id)

  unfoldable pub remember_creator_token :
      Bool → ℕ → Text → Text → Option Text → TokenStore → TokenStore
  unfolding write_store kept_title normalize
  remember_creator_token saved now board_id token title store = write_store saved store (
      put (normalize board_id)
        (record { token = token; created_at = now; title = kept_title title }) store)

  unfoldable pub creator_token_for : Text → TokenStore → Option Text
  unfolding normalize
  creator_token_for board_id store = elim (find (normalize board_id) store) [
    | none ↦ none
    | some entry ↦ some entry.token
  ]

  unfoldable pub forget_creator_token : Bool → Text → TokenStore → TokenStore
  unfolding write_store normalize
  forget_creator_token saved board_id store =
      if is_some (find (normalize board_id) store)
      then write_store saved store (remove (normalize board_id) store)
      else store

abbrev pub too_old : ℕ → TokenEntry → Bool
too_old now entry = ltb max_age_ms (now - entry.created_at)

-- The loop of pruneCreatorTokens.
unfoldable pub prune_each : ℕ → TokenStore → TokenStore
prune_each now [] = []
prune_each now ((id, entry) ∷ store) =
    let rest = prune_each now store in if too_old now entry then rest else (id, entry) ∷ rest

-- pruneCreatorTokens
unfoldable pub prune_creator_tokens : Bool → ℕ → TokenStore → TokenStore
unfolding prune_each write_store
prune_creator_tokens saved now store =
    if any (λ e. too_old now e.1) store
    then write_store saved store (prune_each now store)
    else store
