-- ===== src/Browser/Session/Socket.antt =====
-- What a board session does on the events of its socket, on its timers and once its local copy is
-- loaded: front-end/src/lib/realtime/board-session.ts.
use skrivle.Prelude.{
  ℕ, ◌*◌, Bool, true, false, not, ◌&&◌, ◌||◌, Option, none, some, [], ◌∷◌, ◌++◌, Text, codes,
  text_eq, nat_eq, ◌==◌, min, ltb, is_some, if◌then◌else◌,
}
use skrivle.Services.{Yjs}
use skrivle.Numbers.{Doubles}
use skrivle.Browser.Cursor.{Cursor}
use skrivle.Browser.Peers.{PresenceState, color_by_name}
use skrivle.Browser.Session.State.{
  connected, reconnecting, refused, closed, NamedError, refusal_for, BoardJoined, Options,
  rejoin_ms, rejoin_max_ms, name_or, is_true,
}
use skrivle.Browser.Session.Local.{
  Session, Answer, show, flag_copy, set_local_state, sync_update, sync_step, connect,
}

module _ ⦃y : Yjs⦄ ⦃n : Doubles⦄ where
  open y use {Doc, Update, Vector, apply_update, vector, encode_since}

  -- markHydrated
  unfoldable pub mark_hydrated : Session → Session
  unfolding show
  mark_hydrated s =
      let s' = record s { hydrate_timer = false } in
      if s.state.hydrated then s' else show (λ state. record state { hydrated = true }) s'

  -- socket.on("connect")
  unfoldable pub on_connect : Session → Answer
  unfolding show
  on_connect s =
      (show (λ state. record state { status = connected }) (record s { online = true }), [])

  abbrev pub blank : PresenceState Cursor
  blank = record {
    name = none;
    color = none;
    signed_in = none;
    avatar_url = none;
    cursor = none;
    selection = none;
    role = none;
  }

  -- The local state that is published on joining: an older one keeps its cursor, selection, role.
  unfoldable pub joined_state :
      Options → BoardJoined → Option (PresenceState Cursor) → PresenceState Cursor
  unfolding name_or
  joined_state o payload before =
      let old = (elim before as (λ b. PresenceState Cursor) [
        | none ↦ blank
        | some state ↦ state
      ]) in
      record old {
        name = some (name_or payload.name o.name);
        color = payload.color;
        signed_in = some (is_true payload.signed_in);
        avatar_url = o.avatar_url;
      }

  -- socket.on(EVENTS.BOARD_JOINED)
  unfoldable pub on_joined : Options → BoardJoined → Session → Answer
  unfolding show joined_state set_local_state name_or color_by_name
  on_joined o payload s =
      let shown =
        show
          (λ state. record state {
            status = connected;
            refusal = none;
            self = some (record {
              user_id = payload.id;
              name = name_or payload.name o.name;
              signed_in = is_true payload.signed_in;
              color = color_by_name o.palette payload.color o.client_id;
            });
          })
          s in
      let (published, frames) = set_local_state (joined_state o payload shown.local) shown in
      let waiting = not published.hydrate_timer && not published.state.hydrated in
      (
        record published {
          rejoin_delay = rejoin_ms;
          hydrate_timer = published.hydrate_timer || waiting;
        },
        frames ++ (sync_step (vector published.doc) ∷ []),
      )

  -- socket.on(EVENTS.SYNC_STEP); `none` is a payload that is no bytes.
  unfoldable pub on_server_step : Options → Option Vector → Session → Answer
  unfolding flag_copy
  on_server_step o none s = (s, [])
  on_server_step o (some v) s = (flag_copy o false s, sync_update (encode_since s.doc v) ∷ [])

  -- socket.on(EVENTS.SYNC_UPDATE): an update that cannot be applied throws out of the handler. What
  -- Yjs reports of it has the origin REMOTE, on which onDocUpdate does nothing.
  unfoldable pub on_server_update : Option Update → Session → Answer
  unfolding mark_hydrated
  on_server_update none s = (s, [])
  on_server_update (some update) s =
      let (doc, returned) = apply_update s.doc update in
      let s' = record s { doc = doc } in (if returned then mark_hydrated s' else s', [])

  -- socket.on(EVENTS.ERROR)
  unfoldable pub on_error : NamedError → Session → Answer
  unfolding show
  on_error payload s = (show (λ state. record state { last_error = some payload }) s, [])

  -- socket.on("connect_error"), with socket.active and err.message.
  unfoldable pub on_connect_error : Bool → Text → Session → Answer
  unfolding show refusal_for
  on_connect_error true message s = (show (λ state. record state { status = reconnecting }) s, [])
  on_connect_error false message s = (
    show (λ state. record state { status = refused; refusal = some (refusal_for message) }) s,
    [],
  )

  -- socket.on("disconnect")
  unfoldable pub on_dropped : Text → Session → Answer
  unfolding show
  on_dropped reason s =
      let status = if reason == codes "io client disconnect" then closed else reconnecting in
      let s' = show (λ state. record state { status = status }) (record s { online = false }) in
      if not (reason == codes "io server disconnect") || is_some s'.rejoin_timer
      then (s', [])
      else (
        record s' {
          rejoin_timer = some s'.rejoin_delay;
          rejoin_delay = min (s'.rejoin_delay * 2) rejoin_max_ms;
        },
        [],
      )

  -- The timer that a disconnect sets fires.
  unfoldable pub rejoin_fires : Session → Answer
  rejoin_fires s = (record s { rejoin_timer = none }, if s.destroyed then [] else connect ∷ [])

  -- What happens once the stored document has been applied; `size` is elements(doc).size.
  unfoldable pub on_loaded : Bool → ℕ → Session → Session
  unfolding show mark_hydrated
  on_loaded kept size s =
      if s.destroyed || not kept
      then s
      else (let s' = show (λ state. record state { saved_locally = true }) s in
          if ltb 0 size then mark_hydrated s' else s')
