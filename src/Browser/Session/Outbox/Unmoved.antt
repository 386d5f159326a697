-- ===== src/Browser/Session/Outbox/Unmoved.antt =====
-- What the events of a board session leave of its document and of its local copy's flag,
-- front-end/src/lib/realtime/board-session.ts.
use skrivle.Prelude.{
  ◌≡◌, inl, inr, Bool, true, false, none, some, List, [], ◌∷◌, ◌++◌, text_eq, Among, if◌then◌else◌,
  arith,
}
use mathlib.Core.Path.{subst}
use skrivle.Services.{Yjs}
use skrivle.Numbers.{Doubles}
use skrivle.Browser.Session.State.{Options}
use skrivle.Browser.Session.Local.{
  Session, show, set_local_state, set_local_field, move_cursor, flush_cursor, set_selection,
  set_role,
}
use skrivle.Browser.Session.Socket.{
  mark_hydrated, on_connect, on_joined, on_server_update, on_error, on_connect_error, on_dropped,
  rejoin_fires, on_loaded,
}
use skrivle.Browser.Session.Steps.{
  Event, opens, joins, asks, updates, errs, fails, drops, edited, hydrate_times_out,
  rejoin_times_out, flush_times_out, indexed, loaded, moves, selects, takes_role, leaves, destroy,
  listening, step,
}
use skrivle.Browser.Session.Outbox.{HoldsAll, Frame, OnWire, outside}

module _ ⦃y : Yjs⦄ ⦃n : Doubles⦄ where
  open y use {Doc, Update, Vector, Holds, apply_update, encode_since, apply_keeps}

  -- The copy, the index and the document stand where they stood.
  abbrev pub Same : Session → Session → Type 0
  Same t s = (t.copy ≡ s.copy) × (t.index ≡ s.index) × (t.doc ≡ s.doc)

  abbrev pub quiet : Event → Bool
  quiet (asks v) = false
  quiet (updates u) = false
  quiet e = outside e

  pub step-Same : (o : Options) (e : Event) (s : Session) → quiet e ≡ true → Same (step o e s).0 s
  unfolding step listening show set_local_state set_local_field mark_hydrated on_connect on_joined
      on_error on_connect_error on_dropped rejoin_fires on_loaded move_cursor flush_cursor
      set_selection set_role destroy
  step-Same o opens s h = ground arith
  step-Same o (joins payload) s h = ground arith
  step-Same o (errs payload) s h = ground arith
  step-Same o (fails true message) s h = ground arith
  step-Same o (fails false message) s h = ground arith
  step-Same o (drops reason) s h = ground arith
  step-Same o hydrate_times_out s h = ground arith
  step-Same o rejoin_times_out s h = ground arith
  step-Same o (flush_times_out now) s h = ground arith
  step-Same o (loaded kept size) s h = ground arith
  step-Same o (moves now point) s h = ground arith
  step-Same o (selects ids) s h = ground arith
  step-Same o (takes_role role) s h = ground arith
  step-Same o leaves s h = ground arith
  step-Same o (asks v) s h = ground arith
  step-Same o (updates u) s h = ground arith
  step-Same o (edited origin d u) s h = ground arith
  step-Same o (indexed index) s h = ground arith

  pub HoldsAll-keeps :
      (d e : Doc) (us : List Update)
      → ((w : Update) → Holds d w → Holds e w)
      → HoldsAll d us
      → HoldsAll e us
  HoldsAll-keeps d e [] keeps h = h
  HoldsAll-keeps d e (u ∷ us) keeps (here, later) =
      (keeps u here, HoldsAll-keeps d e us keeps later)

  pub HoldsAll-Among :
      (d : Doc) (us : List Update) (u : Update) → HoldsAll d us → Among u us → Holds d u
  HoldsAll-Among d [] u h a = elim a [ ]
  HoldsAll-Among d (w ∷ us) u (here, later) (inl e) = subst (λ x. Holds d x) e here
  HoldsAll-Among d (w ∷ us) u (here, later) (inr a) = HoldsAll-Among d us u later a

  pub OnWire-later : (u : Update) (fs gs : List Frame) → OnWire u gs → OnWire u (fs ++ gs)
  OnWire-later u [] gs h = h
  OnWire-later u (f ∷ fs) gs h = inr (OnWire-later u fs gs h)

  pub updates-shape :
      (o : Options) (u : Update) (t : Session)
      → ((step o (updates (some u)) t).0.copy ≡ t.copy)
        × ((step o (updates (some u)) t).0.index ≡ t.index)
        × ((step o (updates (some u)) t).0.doc
            ≡ (if t.destroyed then t.doc else (apply_update t.doc u).0))
  unfolding step listening on_server_update mark_hydrated show
  updates-shape o u t = ground arith

  pub received-holds :
      (t : Session) (u : Update) (us : List Update)
      → HoldsAll t.doc us
      → HoldsAll (if t.destroyed then t.doc else (apply_update t.doc u).0) us
  received-holds t u us h =
      elim t.destroyed as (λ b. HoldsAll (if b then t.doc else (apply_update t.doc u).0) us) [
        | true ↦ h
        | false ↦ HoldsAll-keeps t.doc (apply_update t.doc u).0 us (λ w. apply_keeps t.doc u w) h
      ]

  pub nothing-Same : (o : Options) (t : Session) → Same (step o (updates none) t).0 t
  unfolding step listening on_server_update
  nothing-Same o t = ground arith
