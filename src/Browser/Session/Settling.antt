-- ===== src/Browser/Session/Settling.antt =====
-- How a board session of front-end/src/lib/realtime/board-session.ts settles: the board is shown,
-- and after its end there is silence.
use skrivle.Prelude.{
  ◌≡◌, refl, ◌∙◌, Bool, true, false, not, ◌||◌, Option, none, List, [], ◌∷◌, ◌++◌, text_eq, is_some,
  arith,
}
use skrivle.Services.{Yjs}
use skrivle.Numbers.{Doubles}
use skrivle.Browser.Copies.{CopyIndex}
use skrivle.Browser.Session.State.{Options}
use skrivle.Browser.Session.Local.{
  Session, Answer, show, flag_copy, on_doc_update, set_local_state, set_local_field, move_cursor,
  flush_cursor, set_selection, set_role,
}
use skrivle.Browser.Session.Socket.{
  mark_hydrated, on_connect, on_joined, on_server_step, on_server_update, on_error,
  on_connect_error, on_dropped, rejoin_fires, on_loaded,
}
use skrivle.Browser.Session.Steps.{
  Event, opens, joins, asks, updates, errs, fails, drops, edited, hydrate_times_out,
  rejoin_times_out, flush_times_out, indexed, loaded, moves, selects, takes_role, leaves, destroy,
  create_board_session, listening, step,
}

module _ ⦃y : Yjs⦄ ⦃n : Doubles⦄ where
  open y use {Doc, Update}

  -- All that happens, one event after the other.
  unfoldable pub run : Options → List Event → Session → Answer
  unfolding step
  run o [] s = (s, [])
  run o (e ∷ es) s =
      let (s', sent) = step o e s in let (s'', more) = run o es s' in (s'', sent ++ more)

  -- Nothing can wake the session: its timers are off.
  abbrev pub Silent : Session → Type 0
  Silent s =
      (s.destroyed ≡ true)
      × (s.hydrate_timer ≡ false)
      × (s.rejoin_timer ≡ none)
      × (s.pointer.flush_timer ≡ false)

  step-Silent :
      (o : Options) (e : Event) (s : Session)
      → Silent s
      → Silent (step o e s).0 × ((step o e s).0.state ≡ s.state) × ((step o e s).1 ≡ [])
  unfolding step listening on_loaded move_cursor set_selection set_role destroy
  step-Silent o opens s h = ground arith
  step-Silent o (joins payload) s h = ground arith
  step-Silent o (asks v) s h = ground arith
  step-Silent o (updates u) s h = ground arith
  step-Silent o (errs payload) s h = ground arith
  step-Silent o (fails active message) s h = ground arith
  step-Silent o (drops reason) s h = ground arith
  step-Silent o (edited origin d u) s h = ground arith
  step-Silent o hydrate_times_out s h = ground arith
  step-Silent o rejoin_times_out s h = ground arith
  step-Silent o (flush_times_out now) s h = ground arith
  step-Silent o (indexed index) s h = ground arith
  step-Silent o (loaded kept size) s h = ground arith
  step-Silent o (moves now point) s h = ground arith
  step-Silent o (selects ids) s h = ground arith
  step-Silent o (takes_role role) s h = ground arith
  step-Silent o leaves s h = ground arith

  -- A joined session that is there shows its board, or waits for the timer that will show it.
  abbrev pub settled : Session → Bool
  settled s = s.destroyed || (not (is_some s.state.self) || (s.state.hydrated || s.hydrate_timer))

  step-settled :
      (o : Options) (e : Event) (s : Session) → settled s ≡ true → settled (step o e s).0 ≡ true
  unfolding step listening show set_local_state set_local_field mark_hydrated on_connect on_joined
      on_error on_connect_error on_dropped rejoin_fires on_loaded move_cursor flush_cursor
      set_selection set_role destroy on_server_update on_server_step on_doc_update flag_copy
  step-settled o opens s h = ground arith
  step-settled o (joins payload) s h = ground arith
  step-settled o (asks v) s h = ground arith
  step-settled o (updates u) s h = ground arith
  step-settled o (errs payload) s h = ground arith
  step-settled o (fails active message) s h = ground arith
  step-settled o (drops reason) s h = ground arith
  step-settled o (edited origin d u) s h = ground arith
  step-settled o hydrate_times_out s h = ground arith
  step-settled o rejoin_times_out s h = ground arith
  step-settled o (flush_times_out now) s h = ground arith
  step-settled o (indexed index) s h = ground arith
  step-settled o (loaded kept size) s h = ground arith
  step-settled o (moves now point) s h = ground arith
  step-settled o (selects ids) s h = ground arith
  step-settled o (takes_role role) s h = ground arith
  step-settled o leaves s h = ground arith

  run-Silent :
      (o : Options) (es : List Event) (s : Session)
      → Silent s
      → ((run o es s).0.state ≡ s.state) × ((run o es s).1 ≡ [])
  unfolding run
  run-Silent o [] s h = (refl, refl)
  run-Silent o (e ∷ es) s h =
      let (silent, same, nothing) = step-Silent o e s h in
      let (later, none_later) = run-Silent o es (step o e s).0 silent in
      (later ∙ same, rw (run, nothing, none_later) refl)

  -- Whatever happens after destroy, edits of the document and timers included, the session sends
  -- nothing and shows its page nothing new.
  pub destroy-ends :
      (o : Options) (es : List Event) (s : Session)
      → s.destroyed ≡ false
      → ((run o es (destroy s).0).0.state ≡ s.state) × ((run o es (destroy s).0).1 ≡ [])
  unfolding destroy
  destroy-ends o es s live =
      let (same, nothing) = run-Silent o es (destroy s).0 (ground arith) in
      (same ∙ ground arith, nothing)

  run-settled :
      (o : Options) (es : List Event) (s : Session)
      → settled s ≡ true
      → settled (run o es s).0 ≡ true
  unfolding run
  run-settled o [] s h = h
  run-settled o (e ∷ es) s h = run-settled o es (step o e s).0 (step-settled o e s h)

  -- Once a session has joined its board, and is not destroyed, the board is shown or the timer runs
  -- at whose end it is: no order of events leaves the canvas blank for good.
  pub joined-shown :
      (o : Options) (doc : Doc) (copy : Option Bool) (index : CopyIndex) (es : List Event)
      → let s = (run o es (create_board_session o doc copy index)).0 in
        s.destroyed ≡ false
        → is_some s.state.self ≡ true
        → (step o hydrate_times_out s).0.state.hydrated ≡ true
  unfolding create_board_session step mark_hydrated show
  joined-shown o doc copy index es live joined =
      let s = (run o es (create_board_session o doc copy index)).0 in
      let h = run-settled o es (create_board_session o doc copy index) refl in
      ground (arith, h, live, joined)
