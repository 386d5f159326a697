-- ===== src/Browser/Session/Local.antt =====
-- A board session's own side, front-end/src/lib/realtime/board-session.ts: its variables, what a change
-- of its document or of its user's presence sends.
use skrivle.Prelude.{
  ℕ, Bool, true, false, not, ◌&&◌, ◌||◌, Option, none, some, List, [], ◌∷◌, map, Text, text_eq,
  nat_eq, ◌==◌, length, take, if◌then◌else◌,
}
use skrivle.Services.{Yjs}
use skrivle.Numbers.{Doubles}
use skrivle.Canvas.Order.{same_ids}
use skrivle.Browser.Copies.{CopyIndex, set_unsynced}
use skrivle.Browser.Cursor.{Point, Cursor, Throttle, flush, set_cursor}
use skrivle.Browser.Peers.{PresenceState, max_shared_selection}
use skrivle.Browser.Session.State.{Origin, remote, local, other, BoardSessionState, Options}

module _ ⦃y : Yjs⦄ ⦃n : Doubles⦄ where
  open y use {Doc, Update, Vector, apply_update, vector, encode_since}

  -- What a session sends: the three events, and socket.connect(). An awareness update carries the
  -- state of the session's own client.
  pub data Sent : Type 0 where
    sync_update : Update → Sent
    sync_step : Vector → Sent
    awareness_update : Option (PresenceState Cursor) → Sent
    connect : Sent

  -- The variables of createBoardSession. `online` is socket.connected, `local` the local state of
  -- the awareness, `rejoin_timer` the delay that it runs for; `copy` is whether there is a local
  -- copy, and then whether it is indexed yet, and `index` the index of the browser's copies.
  pub record Session : Type 0 where
    pub state : BoardSessionState
    pub destroyed : Bool
    pub online : Bool
    pub doc : Doc
    pub local : Option (PresenceState Cursor)
    pub hydrate_timer : Bool
    pub rejoin_timer : Option ℕ
    pub rejoin_delay : ℕ
    pub copy : Option Bool
    pub index : CopyIndex
    pub pointer : Throttle
    pub selection : List Text

  abbrev pub Answer : Type 0
  Answer = Session × List Sent

  -- emit, of what it changes
  unfoldable pub show : (BoardSessionState → BoardSessionState) → Session → Session
  show patch s = if s.destroyed then s else record s { state = patch s.state }

  -- localCopy?.setUnsynced
  unfoldable pub flag_copy : Options → Bool → Session → Session
  unfolding set_unsynced
  flag_copy o unsynced s = elim s.copy [
    | none ↦ s
    | some indexed ↦
        if indexed && not s.destroyed
        then record s { index = set_unsynced o.storage o.copy_name unsynced s.index }
        else s
  ]

  -- onDocUpdate
  unfoldable pub on_doc_update : Options → Origin → Update → Session → Answer
  unfolding flag_copy
  on_doc_update o remote update s = (s, [])
  on_doc_update o local update s =
      if not s.online then (flag_copy o true s, []) else (s, sync_update update ∷ [])
  on_doc_update o other update s =
      if not s.online then (flag_copy o true s, []) else (s, sync_update update ∷ [])

  -- awareness.setLocalState, and onAwarenessUpdate of the update that it fires.
  unfoldable pub set_local_state : PresenceState Cursor → Session → Answer
  set_local_state state s =
      (record s { local = some state }, if s.online then awareness_update (some state) ∷ [] else [])

  -- awareness.setLocalStateField, which does nothing without a state.
  unfoldable pub set_local_field : (PresenceState Cursor → PresenceState Cursor) → Session → Answer
  unfolding set_local_state
  set_local_field change s = elim s.local [
    | none ↦ (s, [])
    | some state ↦ set_local_state (change state) s
  ]

  abbrev pub field_of : Option (Option Cursor) → Session → Answer
  field_of none s = (s, [])
  field_of (some cursor) s = set_local_field (λ state. record state { cursor = cursor }) s

  -- setCursor of the session, and its flush timer.
  unfoldable pub move_cursor : ℕ → Option Point → Session → Answer
  unfolding set_cursor set_local_field
  move_cursor now point s =
      if s.destroyed
      then (s, [])
      else (let moved = set_cursor now point s.pointer in
          field_of moved.shown (record s { pointer = moved.throttle }))

  unfoldable pub flush_cursor : ℕ → Session → Answer
  unfolding flush set_local_field
  flush_cursor now s =
      let moved = flush now s.pointer in
      field_of moved.shown (record s { pointer = moved.throttle })

  -- setSelection
  unfoldable pub set_selection : List Text → Session → Answer
  unfolding set_local_field same_ids
  set_selection ids s =
      let next = take max_shared_selection ids in
      let same = length next == length s.selection && same_ids next s.selection in
      if s.destroyed || same
      then (s, [])
      else set_local_field (λ state. record state { selection = some (map (λ id. some id) next) })
          (record s { selection = next })

  abbrev pub has_role : Text → Option (PresenceState Cursor) → Bool
  has_role role none = false
  has_role role (some state) = elim state.role [ none ↦ false | some r ↦ r == role ]

  -- setRole
  unfoldable pub set_role : Text → Session → Answer
  unfolding set_local_field
  set_role role s =
      if s.destroyed || has_role role s.local
      then (s, [])
      else set_local_field (λ state. record state { role = some role }) s
