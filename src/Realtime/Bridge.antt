-- ===== src/Realtime/Bridge.antt =====
-- back-end/src/realtime/yjs-bridge.ts: a client's update is checked, applied, saved and relayed.
pub mod Refusals
pub mod Relay
pub mod Applying
use skrivle.Prelude.{
  ℕ, ◌*◌, Bool, true, false, not, Option, none, some, List, [], ◌∷◌, ◌++◌, Text, codes, ltb,
  if◌then◌else◌,
}
use skrivle.Services.{Yjs, Redis}
use skrivle.Realtime.Limits.{max_board_bytes}
use skrivle.Realtime.UpdateLog.{Outcome, append_update}
use skrivle.Realtime.DocManager.{Registry, modify, has_room, add_bytes, mark_dirty, peek_doc}

abbrev pub max_update_bytes : ℕ
max_update_bytes = max_board_bytes

abbrev pub max_frame_bytes : ℕ
max_frame_bytes = 8 * 1024 * 1024

pub data Status : Type 0 where
  applied too_large board_full invalid : Status

-- ApplyResult, with the state that the call leaves and what it sends to the rest of the room.
pub record Applied (Doc Update Db : Type 0) : Type 0 where
  pub status : Status
  pub behind : Bool
  pub docs : Registry Doc
  pub db : Db
  pub relayed : Option Update

module _ ⦃y : Yjs⦄ ⦃r : Redis (y.Update)⦄ where
  open y use {
    Doc, Update, apply_update, encode_state, byte_length, decode_structs, diff_update, observed,
    merge_updates, has_pending, drop_pending,
  }
  open r use {Db}

  unfoldable pub refused : Status → Registry Doc → Db → Applied Doc Update Db
  refused status docs db = record {
    status = status;
    behind = false;
    docs = docs;
    db = db;
    relayed = none;
  }

  -- Room for what arrived, or for the part of it that the server lacks.
  unfoldable pub make_room : Text → ℕ → Update → Doc → Registry Doc → Bool × Registry Doc
  make_room id now update doc docs =
      let (room, docs') = has_room id (byte_length update) now docs in
      if room then (true, docs') else has_room id (byte_length (diff_update update doc)) now docs'

  -- The guards before anything is applied: a refusal, or none.
  unfoldable pub admit : Text → ℕ → Update → Doc → Registry Doc → Option Status × Registry Doc
  unfolding make_room
  admit id now update doc docs =
      if ltb max_update_bytes (byte_length update)
      then (some too_large, docs)
      else (elim (decode_structs update) [
        | none ↦ (some invalid, docs)
        | some structs ↦
            if ltb 0 structs
            then (let (room, docs') = make_room id now update doc docs in
                (if room then none else some board_full, docs'))
            else (none, docs)
      ])

  -- `changes.length === 1 ? changes[0] : Y.mergeUpdates(changes)`, or nothing without a change.
  unfoldable pub merged : List Update → Option Update
  merged [] = none
  merged (c ∷ []) = some c
  merged (c ∷ d ∷ cs) = some (merge_updates (c ∷ d ∷ cs))

  -- What follows a change: it is counted, the board is flagged, and the change is logged.
  unfoldable pub save_change : Outcome → Text → Update → Registry Doc → Db → Registry Doc × Db
  save_change o id change docs db =
      (mark_dirty id (add_bytes id (byte_length change) docs), append_update o id change db)

  unfoldable pub set_doc : Text → Doc → Registry Doc → Registry Doc
  unfolding modify
  set_doc id doc = modify id (λ entry. record entry { doc = doc })

  -- The update is applied, and what it left pending is dropped.
  unfoldable pub integrate :
      Outcome → Text → Update → Doc → Registry Doc → Db → Applied Doc Update Db
  unfolding merged save_change set_doc
  integrate o id update doc docs db =
      let (doc', fine) = apply_update doc update in
      let status = if fine then applied else invalid in
      let behind = has_pending doc' in
      let docs' = set_doc id (drop_pending doc') docs in
      elim (merged (observed doc update)) [
        | none ↦ record { status = status; behind = behind; docs = docs'; db = db; relayed = none }
        | some change ↦
            let (docs'', db'') = save_change o id change docs' db in
            record {
              status = status;
              behind = behind;
              docs = docs'';
              db = db'';
              relayed = some change;
            }
      ]

  -- applyClientUpdate. `current` says that the board's document is still the one the socket joined.
  unfoldable pub apply_client_update :
      Bool → Outcome → ℕ → Text → Update → Doc → Registry Doc → Db → Applied Doc Update Db
  unfolding refused admit integrate
  apply_client_update false o now id update doc docs db = refused invalid docs db
  apply_client_update true o now id update doc docs db =
      let (refusal, docs') = admit id now update doc docs in
      elim refusal [
        | some status ↦ refused status docs' db
        | none ↦ integrate o id update doc docs' db
      ]

  -- sendMissingUpdates: what Yjs encodes against the vector, or all of the document when it throws.
  unfoldable pub missing_updates : Doc → Option Update → Update
  missing_updates doc none = encode_state doc
  missing_updates doc (some diff) = diff

-- roomFor
unfoldable pub room_for : Text → Text
room_for board_id = codes "board:" ++ board_id
