-- ===== src/Browser/Session/Rejoining.antt =====
-- The way back of a board session that the server has closed, front-end/src/lib/realtime/board-session.ts.
use skrivle.Prelude.{
  Text, ap, ℕ, zero, suc, ◌*◌, ◌≡◌, refl, ◌∙◌, true, false, none, some, [], ◌∷◌, codes, text_eq,
  ◌==◌, text_beq, min, arith,
}
use skrivle.Services.{Yjs}
use skrivle.Numbers.{Doubles}
use skrivle.Browser.Session.State.{Options, rejoin_ms, rejoin_max_ms}
use skrivle.Browser.Session.Local.{Session, connect, show}
use skrivle.Browser.Session.Socket.{on_connect, on_dropped, rejoin_fires}
use skrivle.Browser.Session.Steps.{Event, opens, drops, rejoin_times_out, listening, step}

said-itself : (codes "io server disconnect" == codes "io server disconnect") ≡ true
unfolding text_beq
said-itself = refl

module _ ⦃y : Yjs⦄ ⦃n : Doubles⦄ where
  -- The server closes the socket.
  abbrev pub closed_by_server : Event
  closed_by_server = drops (codes "io server disconnect")

  -- So many times over, the server closes the socket, the timer for coming back fires, and the socket
  -- connects again, without joining.
  unfoldable pub turned_away : Options → ℕ → Session → Session
  unfolding step
  turned_away o zero s = s
  turned_away o (suc k) s =
      (step o opens (step o rejoin_times_out (step o closed_by_server (turned_away o k s)).0).0).0

  unfoldable pub doubled : ℕ → ℕ → ℕ
  doubled zero delay = delay
  doubled (suc k) delay = doubled k delay * 2

  -- Where the wait stands after so many closes.
  abbrev Waiting : ℕ → Session → Type 0
  Waiting k s =
      (s.destroyed ≡ false)
      × (s.rejoin_timer ≡ none)
      × (s.rejoin_delay ≡ min (doubled k rejoin_ms) rejoin_max_ms)

  -- A close by the server, of a session that has no timer set for its return.
  drops-sets :
      (o : Options) (reason : Text) (s : Session)
      → (reason == codes "io server disconnect") ≡ true
      → s.destroyed ≡ false
      → s.rejoin_timer ≡ none
      → ((step o (drops reason) s).0.destroyed ≡ false)
        × ((step o (drops reason) s).0.rejoin_timer ≡ some s.rejoin_delay)
        × ((step o (drops reason) s).0.rejoin_delay ≡ min (s.rejoin_delay * 2) rejoin_max_ms)
  unfolding step listening on_dropped show
  drops-sets o reason s server live timer = ground arith

  fires-returns :
      (o : Options) (s : Session) (wait : ℕ)
      → s.destroyed ≡ false
      → s.rejoin_timer ≡ some wait
      → ((step o rejoin_times_out s).0.destroyed ≡ false)
        × ((step o rejoin_times_out s).0.rejoin_timer ≡ none)
        × ((step o rejoin_times_out s).0.rejoin_delay ≡ s.rejoin_delay)
        × ((step o rejoin_times_out s).1 ≡ (connect ∷ []))
  unfolding step rejoin_fires
  fires-returns o s wait live timer = ground arith

  opens-Waiting : (o : Options) (k : ℕ) (s : Session) → Waiting k s → Waiting k (step o opens s).0
  unfolding step listening on_connect show
  opens-Waiting o k s (live, timer, delay) = ground (arith, live, timer, delay)

  doubled-min : (d : ℕ) → min (min d rejoin_max_ms * 2) rejoin_max_ms ≡ min (d * 2) rejoin_max_ms
  doubled-min d = omega arith

  turned-Waiting :
      (o : Options) (k : ℕ) (s : Session)
      → s.destroyed ≡ false
      → s.rejoin_timer ≡ none
      → s.rejoin_delay ≡ rejoin_ms
      → Waiting k (turned_away o k s)
  unfolding turned_away doubled
  turned-Waiting o zero s live timer delay = (live, timer, delay)
  turned-Waiting o (suc k) s live timer delay =
      let r = turned_away o k s in
      let (a, b, c) = turned-Waiting o k s live timer delay in
      let (a', b', c') = drops-sets o (codes "io server disconnect") r said-itself a b in
      let (a'', b'', c'', d'') =
        fires-returns o (step o closed_by_server r).0 r.rejoin_delay a' b' in
      opens-Waiting o (suc k) (step o rejoin_times_out (step o closed_by_server r).0).0 (
        a'',
        b'',
        c'' ∙ c' ∙ ap (λ x. min (x * 2) rejoin_max_ms) c ∙ doubled-min (doubled k rejoin_ms),
      )

  -- A session has connected, and been closed by the server, k times since it last joined, and is then
  -- closed once more: it waits two seconds doubled k times, thirty seconds at most, and then asks
  -- the socket to connect again.
  pub turned_away-returns :
      (o : Options) (k : ℕ) (s : Session)
      → s.destroyed ≡ false
      → s.rejoin_timer ≡ none
      → s.rejoin_delay ≡ rejoin_ms
      → let t = (step o closed_by_server (turned_away o k s)).0 in
        (t.rejoin_timer ≡ some (min (doubled k rejoin_ms) rejoin_max_ms))
        × ((step o rejoin_times_out t).1 ≡ (connect ∷ []))
  turned_away-returns o k s live timer delay =
      let r = turned_away o k s in
      let (a, b, c) = turned-Waiting o k s live timer delay in
      let (a', b', c') = drops-sets o (codes "io server disconnect") r said-itself a b in
      let (a'', b'', c'', d'') =
        fires-returns o (step o closed_by_server r).0 r.rejoin_delay a' b' in
      (b' ∙ ap (λ x. some x) c, d'')
