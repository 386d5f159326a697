-- ===== src/Browser/Copies.antt =====
-- The index of front-end/src/lib/realtime/local-copy.ts: which boards' documents this browser keeps in
-- IndexedDB. A store that cannot be read is an empty index.
use skrivle.Prelude.{
  ℕ, ◌-◌, ◌*◌, ◌≡◌, ap, ◌∙◌, Bool, true, false, Bool-cases, inl, inr, not, ◌&&◌, ◌||◌, Option, none,
  some, List, [], ◌∷◌, ◌++◌, Text, codes, text_eq, ◌==◌, ==_iff, ltb, find, put, find-put, any,
  if◌then◌else◌, arith,
}
use skrivle.Services.{CaseMap, trim}
use skrivle.Realtime.UpdateLog.{starts_with}

abbrev pub copy_max_age_ms : ℕ
copy_max_age_ms = 30 * 24 * 60 * 60 * 1000

pub record CopyEntry : Type 0 where
  pub at : ℕ
  pub unsynced : Bool

abbrev pub CopyIndex : Type 0
CopyIndex = List (Text × CopyEntry)

module _ ⦃c : CaseMap⦄ where
  -- The part of a database's name that is the board's.
  unfoldable pub copy_prefix : Text → Text
  copy_prefix board_id = codes "skrivle-board:" ++ c.lower (trim board_id) ++ codes ":"

  -- nameFor
  unfoldable pub name_for : Text → Text → Text
  unfolding copy_prefix
  name_for board_id created_at = copy_prefix board_id ++ created_at

  -- belongsTo
  unfoldable pub belongs_to : Text → Text → Bool
  unfolding copy_prefix starts_with
  belongs_to name board_id = starts_with (copy_prefix board_id) name

-- The databases that a sweep deletes, and the index that it leaves.
pub record CopiesSwept : Type 0 where
  pub dropped : List Text
  pub index : CopyIndex

unfoldable pub sweep_each : (Text → CopyEntry → Bool) → CopyIndex → CopiesSwept
sweep_each stale [] = record { dropped = []; index = [] }
sweep_each stale ((name, entry) ∷ index) =
    let rest = sweep_each stale index in
    if stale name entry
    then record rest { dropped = name ∷ rest.dropped }
    else record rest { index = (name, entry) ∷ rest.index }

-- sweep; `saved` is false when the index cannot be written.
unfoldable pub sweep_copies : Bool → (Text → CopyEntry → Bool) → CopyIndex → CopiesSwept
unfolding sweep_each
sweep_copies saved stale index =
    let swept = sweep_each stale index in
    if any (λ e. stale e.0 e.1) index && not saved then record swept { index = index } else swept

module _ ⦃c : CaseMap⦄ where
  -- forgetLocalCopies
  unfoldable pub forget_local_copies : Bool → Text → CopyIndex → CopiesSwept
  unfolding sweep_copies belongs_to
  forget_local_copies saved board_id index =
      sweep_copies saved (λ name entry. belongs_to name board_id) index

  unfoldable pub stale_for : Text → Text → ℕ → Text → CopyEntry → Bool
  unfolding belongs_to
  stale_for name board_id now other entry =
      not (other == name)
      && (belongs_to other board_id || (not entry.unsynced && ltb copy_max_age_ms (now - entry.at)))

  abbrev pub was_unsynced : Option CopyEntry → Bool
  was_unsynced none = false
  was_unsynced (some entry) = entry.unsynced

  -- openLocalCopy, once IndexedDB has been found to work and before the provider is made.
  unfoldable pub open_local_copy : Bool → Text → Text → ℕ → CopyIndex → CopiesSwept
  unfolding name_for sweep_copies stale_for
  open_local_copy saved board_id created_at now index =
      let name = name_for board_id created_at in
      let swept = sweep_copies saved (stale_for name board_id now) index in
      if saved
      then record swept {
        index =
            put name (record { at = now; unsynced = was_unsynced (find name swept.index) })
              swept.index;
      }
      else swept

-- setUnsynced of a copy that is indexed and not destroyed; one that is not is left.
unfoldable pub set_unsynced : Bool → Text → Bool → CopyIndex → CopyIndex
set_unsynced saved name unsynced index = elim (find name index) [
  | none ↦ index
  | some entry ↦ if saved then put name (record entry { unsynced = unsynced }) index else index
]

find-sweep_each :
    (stale : Text → CopyEntry → Bool) (name : Text) (index : CopyIndex) (entry : CopyEntry)
    → find name index ≡ some entry
    → stale name entry ≡ false
    → find name (sweep_each stale index).index ≡ some entry
unfolding sweep_each find
find-sweep_each stale name [] entry h young = ground arith
find-sweep_each stale name ((j, e) ∷ index) entry h young = elim (Bool-cases (j == name)) [
  | inl y ↦
      let same : j ≡ name = (==_iff j name).0 y in
      let this : e ≡ entry = ground arith in
      let kept : stale j e ≡ false = ap (λ x. stale x e) same ∙ ap (stale name) this ∙ young in
      rw (sweep_each, kept) ground (arith, y, this)
  | inr n ↦ ground (arith, find-sweep_each stale name index entry)
]

find-sweep_copies :
    (saved : Bool) (stale : Text → CopyEntry → Bool) (name : Text) (index : CopyIndex)
    (entry : CopyEntry)
    → find name index ≡ some entry
    → stale name entry ≡ false
    → find name (sweep_copies saved stale index).index ≡ some entry
unfolding sweep_copies
find-sweep_copies saved stale name index entry h young =
    ground (arith, find-sweep_each stale name index entry h young)

module _ ⦃c : CaseMap⦄ where
  -- A copy with work that the server may lack is kept in the index however old it is, when any other
  -- board is opened.
  pub open-keeps_unsynced :
      (saved : Bool) (board_id created_at other : Text) (now : ℕ) (index : CopyIndex)
      (entry : CopyEntry)
      → find other index ≡ some entry
      → entry.unsynced ≡ true
      → belongs_to other board_id ≡ false
      → (name_for board_id created_at == other) ≡ false
      → find other (open_local_copy saved board_id created_at now index).index ≡ some entry
  unfolding open_local_copy stale_for
  open-keeps_unsynced saved board_id created_at other now index entry h work foreign differs =
      let name = name_for board_id created_at in
      let stale = stale_for name board_id now in
      let kept = find-sweep_copies saved stale other index entry h (ground arith) in
      let index' = (sweep_copies saved stale index).index in
      ground (
        arith,
        kept,
        find-put name other (record { at = now; unsynced = was_unsynced (find name index') })
            index',
      )
