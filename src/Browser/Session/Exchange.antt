-- ===== src/Browser/Session/Exchange.antt =====
-- The two-step exchange between a browser, front-end/src/lib/realtime/board-session.ts, and the server,
-- back-end/src/realtime/gateway.ts and yjs-bridge.ts: each side sends its state vector and answers the
-- other's.
use skrivle.Prelude.{
  ℕ, ◌≡◌, ap, sym, true, false, some, [], ◌∷◌, ◌⊎◌, inl, inr, Text, text_eq, if◌then◌else◌, arith,
}
use mathlib.Core.Path.{subst}
use skrivle.Services.{Yjs, Redis}
use skrivle.Numbers.{Doubles}
use skrivle.Realtime.UpdateLog.{Outcome}
use skrivle.Realtime.DocManager.{Registry, peek_doc}
use skrivle.Realtime.Bridge.{applied, apply_client_update, missing_updates}
use skrivle.Realtime.Bridge.Applying.{peek-applied}
use skrivle.Browser.Session.State.{Options}
use skrivle.Browser.Session.Local.{Session, sync_update, show}
use skrivle.Browser.Session.Socket.{mark_hydrated, on_server_step, on_server_update}
use skrivle.Browser.Session.Steps.{asks, updates, listening, step}

module _ ⦃y : Yjs⦄ ⦃r : Redis (y.Update)⦄ ⦃n : Doubles⦄ where
  open y use {
    Doc, Update, Holds, apply_update, encode_since, vector, drop_pending, apply_keeps,
    since_readable, since_brings, drop_keeps,
  }
  open r use {Db}

  -- What the browser answers to the vector of the server's document.
  abbrev pub answered : Session → Doc → Update
  answered s server = encode_since s.doc (vector server)

  -- The browser once it has listening what a document of the server has beyond its vector.
  abbrev pub caught_up : Options → Session → Doc → Session
  caught_up o s server =
      (step o (updates (some (missing_updates server (some (encode_since server (vector s.doc))))))
        s).0

  caught_up-doc :
      (o : Options) (s : Session) (server : Doc)
      → s.destroyed ≡ false
      → ((caught_up o s server).doc ≡ (apply_update s.doc (encode_since server (vector s.doc))).0)
        × ((caught_up o s server).state.hydrated ≡ true)
  unfolding step listening on_server_update missing_updates mark_hydrated show
  caught_up-doc o s server live = ground (arith, live, since_readable s.doc server)

  -- The browser answers the server's vector and the server applies the answer; the server answers the
  -- browser's vector from the document that it then has. After that both documents hold all that
  -- either held before, and the browser shows the board.
  pub exchange-both :
      (o : Options) (out : Outcome) (now : ℕ) (id : Text) (s : Session) (server : Doc)
      (docs : Registry Doc) (db : Db) (u : Update)
      → s.destroyed ≡ false
      → peek_doc id docs ≡ some server
      → (apply_client_update true out now id (answered s server) server docs db).status ≡ applied
      → Holds s.doc u ⊎ Holds server u
      → (server' : Doc) × ((step o (asks (some (vector server))) s).1
          ≡ (sync_update (answered s server) ∷ []))
        × (peek_doc id (apply_client_update true out now id (answered s server) server docs db).docs
            ≡ some server')
        × Holds server' u
        × Holds (caught_up o s server').doc u
        × ((caught_up o s server').state.hydrated ≡ true)
  unfolding step listening on_server_step
  exchange-both o out now id s server docs db u live found ok held =
      let server' = drop_pending (apply_update server (answered s server)).0 in
      let there : Holds server' u = drop_keeps _ u (elim held [
        | inl ours ↦ since_brings server s.doc u ours
        | inr theirs ↦ apply_keeps server (answered s server) u theirs
      ]) in
      let (doc, shown) = caught_up-doc o s server' live in
      (
        server',
        ap (λ b. (if b then (s, []) else on_server_step o (some (vector server)) s).1) live,
        peek-applied true out now id (answered s server) server server docs db found ok,
        there,
        subst (λ d. Holds d u) (sym doc) (since_brings s.doc server' u there),
        shown,
      )
