-- ===== src/Browser/Session/Steps.antt =====
-- A board session from createBoardSession to destroy, front-end/src/lib/realtime/board-session.ts, and
-- everything that can happen to it as an event.
use skrivle.Prelude.{
  ℕ, Bool, true, false, not, ◌&&◌, ◌||◌, Option, none, some, List, [], ◌∷◌, Text, text_eq, nat_eq,
  is_some, if◌then◌else◌,
}
use skrivle.Services.{Yjs}
use skrivle.Numbers.{Doubles}
use skrivle.Browser.Copies.{CopyIndex}
use skrivle.Browser.Cursor.{Point, still}
use skrivle.Browser.Session.State.{
  Origin, NamedError, opening_state, BoardJoined, Options, rejoin_ms,
}
use skrivle.Browser.Session.Local.{
  Session, Answer, on_doc_update, move_cursor, flush_cursor, set_selection, set_role,
  awareness_update,
}
use skrivle.Browser.Session.Socket.{
  mark_hydrated, on_connect, blank, on_joined, on_server_step, on_server_update, on_error,
  on_connect_error, on_dropped, rejoin_fires, on_loaded,
}

module _ ⦃y : Yjs⦄ ⦃n : Doubles⦄ where
  open y use {Doc, Update, Vector, apply_update, vector, encode_since}

  -- destroy: the timers are cleared, the listeners taken off and the socket closed.
  unfoldable pub destroy : Session → Answer
  destroy s = if s.destroyed then (s, []) else (
    record s {
      destroyed = true;
      online = false;
      local = none;
      hydrate_timer = false;
      rejoin_timer = none;
      pointer = record s.pointer { flush_timer = false };
    },
    if s.online && is_some s.local then awareness_update none ∷ [] else [],
  )

  -- createBoardSession, up to where it has called socket.connect().
  unfoldable pub create_board_session : Options → Doc → Option Bool → CopyIndex → Session
  create_board_session o doc copy index = record {
    state = opening_state;
    destroyed = false;
    online = false;
    doc = doc;
    local = some (record blank {
      name = some o.name;
      signed_in = some false;
      avatar_url = o.avatar_url;
      selection = some [];
    });
    hydrate_timer = false;
    rejoin_timer = none;
    rejoin_delay = rejoin_ms;
    copy = copy;
    index = index;
    pointer = still;
    selection = [];
  }

  -- What happens to a session. `edited` is a transaction that left the document like this and that
  -- Yjs reports as that update; `indexed` is where openLocalCopy has put its copy into the index.
  pub data Event : Type 0 where
    opens : Event
    joins : BoardJoined → Event
    asks : Option Vector → Event
    updates : Option Update → Event
    errs : NamedError → Event
    fails : Bool → Text → Event
    drops : Text → Event
    edited : Origin → Doc → Update → Event
    hydrate_times_out : Event
    rejoin_times_out : Event
    flush_times_out : ℕ → Event
    indexed : CopyIndex → Event
    loaded : Bool → ℕ → Event
    moves : ℕ → Option Point → Event
    selects : List Text → Event
    takes_role : Text → Event
    leaves : Event

  -- A listener that `destroy` has taken off is not called.
  unfoldable pub listening : (Session → Answer) → Session → Answer
  listening handler s = if s.destroyed then (s, []) else handler s

  unfoldable pub step : Options → Event → Session → Answer
  unfolding listening on_connect on_joined on_server_step on_server_update on_error on_connect_error
      on_dropped on_doc_update mark_hydrated rejoin_fires flush_cursor on_loaded move_cursor
      set_selection set_role destroy
  step o opens s = listening on_connect s
  step o (joins payload) s = listening (on_joined o payload) s
  step o (asks v) s = listening (on_server_step o v) s
  step o (updates u) s = listening (on_server_update u) s
  step o (errs payload) s = listening (on_error payload) s
  step o (fails active message) s = listening (on_connect_error active message) s
  step o (drops reason) s = listening (on_dropped reason) s
  step o (edited origin doc update) s =
      let s' = record s { doc = doc } in listening (on_doc_update o origin update) s'
  step o hydrate_times_out s = if s.hydrate_timer then (mark_hydrated s, []) else (s, [])
  step o rejoin_times_out s = if is_some s.rejoin_timer then rejoin_fires s else (s, [])
  step o (flush_times_out now) s = if s.pointer.flush_timer then flush_cursor now s else (s, [])
  step o (indexed index) s = (
    if s.destroyed || not (is_some s.copy) then s else record s { copy = some true; index = index },
    [],
  )
  step o (loaded kept size) s = (on_loaded kept size s, [])
  step o (moves now point) s = move_cursor now point s
  step o (selects ids) s = set_selection ids s
  step o (takes_role role) s = set_role role s
  step o leaves s = destroy s
