-- ===== src/Realtime/Gateway/CatchUp.antt =====
-- The handler of "sync:update" in back-end/src/realtime/gateway.ts: what it drops it asks for again.
use skrivle.Prelude.{
  ℕ, ◌≡◌, refl, Bool, true, false, Bool-cases, inl, inr, ◌||◌, Option, none, some, Text,
  if◌then◌else◌, arith,
}
use skrivle.Services.{Yjs, Redis}
use skrivle.Realtime.UpdateLog.{Outcome}
use skrivle.Realtime.DocManager.{Registry}
use skrivle.Realtime.Bridge.{
  Status, applied, too_large, board_full, invalid, Applied, apply_client_update,
}
use skrivle.Realtime.Gateway.{SocketState, resync_soon, notice, answer, throttle, on_sync_update}

-- The server will ask this client for what it lacks: now, or once there is room again.
abbrev pub owes : SocketState → Bool
owes s = s.resync || s.refused_for_room

abbrev pub is_board_full : Status → Bool
is_board_full board_full = true
is_board_full applied = false
is_board_full too_large = false
is_board_full invalid = false

answer-owes :
    (status : Status) (now : ℕ) (s : SocketState)
    → owes s ≡ true
    → owes (answer status now s) ≡ true
unfolding answer notice
answer-owes applied now s h = ground arith
answer-owes too_large now s h = ground arith
answer-owes board_full now s h = ground arith
answer-owes invalid now s h = ground arith

answer-full : (now : ℕ) (s : SocketState) → owes (answer board_full now s) ≡ true
unfolding answer notice
answer-full now s = ground arith

answered-owes :
    (status : Status) (behind : Bool) (now : ℕ) (s : SocketState)
    → ((behind || is_board_full status) || owes s) ≡ true
    → owes (if behind then resync_soon (answer status now s) else answer status now s) ≡ true
answered-owes status true now s h = refl
answered-owes board_full false now s h = answer-full now s
answered-owes applied false now s h = answer-owes applied now s h
answered-owes too_large false now s h = answer-owes too_large now s h
answered-owes invalid false now s h = answer-owes invalid now s h

module _ ⦃y : Yjs⦄ ⦃r : Redis (y.Update)⦄ where
  open y use {Doc, Update}
  open r use {Db}

  -- The update was throttled, found no room, or left something pending.
  abbrev pub held_back : Option (Applied Doc Update Db) → Bool
  held_back none = true
  held_back (some done) = done.behind || is_board_full done.status

  throttle-owes :
      (scale now : ℕ) (update : Update) (s : SocketState)
      → owes (throttle scale now update s).1 ≡ owes s
  unfolding throttle
  throttle-owes scale now update s = ground arith

  -- Whatever an update is held back for, too many at once, a full board or a missing piece, the
  -- socket is marked to be asked again; and a mark stays until its timer fires, through every
  -- later update.
  pub held_back-owes :
      (scale now : ℕ) (current : Bool) (o : Outcome) (id : Text) (update : Update) (doc : Doc)
      (s : SocketState) (docs : Registry Doc) (db : Db)
      → (held_back (on_sync_update scale current o now id (some update) doc s docs db).result
          || owes s)
        ≡ true
      → owes (on_sync_update scale current o now id (some update) doc s docs db).socket ≡ true
  unfolding on_sync_update throttle
  held_back-owes scale now current o id update doc s docs db h =
      let same = throttle-owes scale now update s in
      let s' = (throttle scale now update s).1 in
      let done = apply_client_update current o now id update doc docs db in
      elim (Bool-cases (throttle scale now update s).0) [
        | inl y ↦
            rw (on_sync_update, y) (answered-owes done.status done.behind now s' (ground arith))
        | inr n ↦ rw (on_sync_update, n) refl
      ]
