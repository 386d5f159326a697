-- ===== src/Realtime/Gateway.antt =====
-- back-end/src/realtime/gateway.ts: who may join a board, and what the handlers of one socket do. A
-- timer that is set is a flag here, and a notice is named by its kind.
pub mod CatchUp
pub mod Leaving
use skrivle.Prelude.{
  ℕ, ◌+◌, ◌-◌, Bool, true, false, not, ◌&&◌, ◌||◌, Option, none, some, List, [], ◌∷◌, Text, text_eq,
  codes, length, find, put, remove, ltb, leb, is_some, if◌then◌else◌,
}
use skrivle.Services.{Yjs, Redis, Lib0, AwarenessProtocol, CaseMap}
use skrivle.Realtime.Limits.{
  Bucket, per, sync_update, sync_bytes, sync_step, awareness_rule, new_bucket, max_awareness_bytes,
}
use skrivle.Realtime.Limits as Limits
use skrivle.Realtime.UpdateLog.{Outcome, drop_logs}
use skrivle.Realtime.DocManager.{Registry, socket_count, untrack_socket, release_doc}
use skrivle.Realtime.Bridge.{
  Status, applied, too_large, board_full, invalid, Applied, apply_client_update,
}
use skrivle.Realtime.Awareness.{
  Room, AwarenessSocket, Relay, apply_client_awareness, release_clients,
}
use skrivle.Boards.Id.{normalize_board_id}
use skrivle.Boards.Service.{is_expired}

abbrev pub notice_every_ms : ℕ
notice_every_ms = 10000

-- The buckets of SocketState, and what `joinBoard` keeps for the handlers.
pub record SocketState : Type 0 where
  pub sync_update_bucket : Bucket
  pub sync_bytes_bucket : Bucket
  pub sync_step_bucket : Bucket
  pub awareness_bucket : Bucket
  pub resync : Bool
  pub told : List (Text × ℕ)
  pub refused_for_room : Bool

unfoldable pub new_socket : ℕ → ℕ → SocketState
unfolding new_bucket per
new_socket scale now = record {
  sync_update_bucket = new_bucket (per scale sync_update) now;
  sync_bytes_bucket = new_bucket (per scale sync_bytes) now;
  sync_step_bucket = new_bucket (per scale sync_step) now;
  awareness_bucket = new_bucket (per scale awareness_rule) now;
  resync = false;
  told = [];
  refused_for_room = false;
}

-- nextJoinOrder
unfoldable pub next_join_order : Text → List (Text × ℕ) → ℕ × List (Text × ℕ)
next_join_order board_id counters =
    let next = (elim (find board_id counters) as (λ o. ℕ) [ none ↦ 0 | some n ↦ n ]) in
    (next, put board_id (next + 1) counters)

-- The answer of the handshake; `lookup` is what findBoardLifecycle gives, `none` when it throws.
pub data Admission : Type 0 where
  no_board board_not_found board_expired handshake_failed : Admission
  admitted : Text → Admission

unfoldable pub handshake :
    ⦃c : CaseMap⦄ → Option Text → (Text → Option (Option (Text × Option ℕ))) → ℕ → Admission
unfolding is_expired
handshake none lookup now = no_board
handshake (some []) lookup now = no_board
handshake (some (x ∷ raw)) lookup now = elim (lookup (normalize_board_id (x ∷ raw))) [
  | none ↦ handshake_failed
  | some none ↦ board_not_found
  | some (some (id, expires_at)) ↦ if is_expired expires_at now then board_expired else admitted id
]

-- presenceKeyFrom
unfoldable pub presence_key_from : Option Text → Text → Text
presence_key_from none socket_id = socket_id
presence_key_from (some raw) socket_id =
    if leb 16 (length raw) && leb (length raw) 64 then raw else socket_id

-- resyncSoon: a timer that runs already is left.
abbrev pub resync_soon : SocketState → SocketState
resync_soon s = record s { resync = true }

-- The timer of resyncSoon fires.
abbrev pub resync_fires : SocketState → SocketState
resync_fires s = record s { resync = false }

-- notice: whether it is shown.
unfoldable pub notice : Text → ℕ → SocketState → Bool × SocketState
notice kind now s =
    let recent = (elim (find kind s.told) as (λ o. Bool) [
      | none ↦ false
      | some at ↦ ltb (now - at) notice_every_ms
    ]) in
    if recent then (false, s) else (true, record s { told = put kind now s.told })

-- What the handler does with the status of the update.
unfoldable pub answer : Status → ℕ → SocketState → SocketState
unfolding notice
answer too_large now s = (notice (codes "too_large") now s).1
answer board_full now s = (notice (codes "board_full") now (record s { refused_for_room = true })).1
answer applied now s =
    if s.refused_for_room then resync_soon (record s { refused_for_room = false }) else s
answer invalid now s = s

module _ ⦃y : Yjs⦄ ⦃r : Redis (y.Update)⦄ where
  open y use {Doc, Update, byte_length}
  open r use {Db}

  -- The socket afterwards, and what applyClientUpdate did, when it came to that.
  pub record Handled : Type 0 where
    pub socket : SocketState
    pub result : Option (Applied Doc Update Db)

  -- Two takes, the second only when the first is granted.
  unfoldable pub throttle : ℕ → ℕ → Update → SocketState → Bool × SocketState
  throttle scale now update s =
      let (updates, one) = Limits.take s.sync_update_bucket (per scale sync_update) 1 now in
      let s' = record s { sync_update_bucket = updates } in
      if not one
      then (false, s')
      else (let (bytes, all) =
            Limits.take s.sync_bytes_bucket (per scale sync_bytes) (byte_length update) now in
          (all, record s' { sync_bytes_bucket = bytes }))

  -- socket.on(EVENTS.SYNC_UPDATE); `none` is a payload that is no bytes.
  unfoldable pub on_sync_update :
      ℕ
      → Bool
      → Outcome
      → ℕ
      → Text
      → Option Update
      → Doc
      → SocketState
      → Registry Doc
      → Db
      → Handled
  unfolding throttle answer
  on_sync_update scale current o now id none doc s docs db = record { socket = s; result = none }
  on_sync_update scale current o now id (some update) doc s docs db =
      let (granted, s') = throttle scale now update s in
      if not granted
      then record { socket = resync_soon s'; result = none }
      else (let done = apply_client_update current o now id update doc docs db in
          let s'' = answer done.status now s' in
          record { socket = if done.behind then resync_soon s'' else s''; result = some done })

  -- socket.on(EVENTS.SYNC_STEP): whether it is answered.
  unfoldable pub on_sync_step : ℕ → ℕ → Option Update → SocketState → Bool × SocketState
  on_sync_step scale now none s = (false, s)
  on_sync_step scale now (some vector) s =
      let (steps, granted) = Limits.take s.sync_step_bucket (per scale sync_step) 1 now in
      (granted, record s { sync_step_bucket = steps })

  -- releaseBoard, from where its write has landed: the documents and the join counters. (The room
  -- of the awareness goes with the document.)
  unfoldable pub finish_release :
      Text → Registry Doc → List (Text × ℕ) → Registry Doc × List (Text × ℕ)
  unfolding socket_count release_doc
  finish_release id docs counters =
      if ltb 0 (socket_count id docs)
      then (docs, counters)
      else (release_doc id docs, remove id counters)

  -- evictBoard: the document and the counter go, and then the log.
  unfoldable pub evict_board :
      Outcome → Text → Registry Doc → List (Text × ℕ) → Db → Registry Doc × List (Text × ℕ) × Db
  unfolding release_doc drop_logs
  evict_board o id docs counters db =
      (release_doc id docs, remove id counters, drop_logs o (id ∷ []) db)

module _ ⦃l : Lib0⦄ ⦃p : AwarenessProtocol⦄ where
  open p use {States}

  -- socket.on(EVENTS.AWARENESS_UPDATE): the bucket, and what is applied and relayed.
  unfoldable pub on_awareness :
      ℕ → ℕ → List ℕ → Room States → AwarenessSocket → SocketState → Option Relay × SocketState
  on_awareness scale now update room own s =
      if ltb max_awareness_bytes (length update)
      then (none, s)
      else (let (tokens, granted) =
            Limits.take s.awareness_bucket (per scale awareness_rule) 1 now in
          let s' = record s { awareness_bucket = tokens } in
          if granted then (apply_client_awareness room update own, s') else (none, s'))

module _ ⦃y : Yjs⦄ ⦃p : AwarenessProtocol⦄ where
  -- socket.on("disconnect"): whether the board is to be released, and what is left.
  unfoldable pub on_disconnect :
      Text
      → AwarenessSocket
      → Room (p.States)
      → Registry (y.Doc)
      → Bool × (Room (p.States) × AwarenessSocket) × Registry (y.Doc)
  unfolding untrack_socket
  on_disconnect board_id own room docs =
      let (empty, docs') = untrack_socket board_id own.id docs in
      (empty, release_clients room own, docs')
