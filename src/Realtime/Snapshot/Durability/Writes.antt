-- ===== src/Realtime/Snapshot/Durability/Writes.antt =====
-- back-end/src/realtime/snapshot-writer.ts: the steps of a write keep what is logged.
use skrivle.Prelude.{
  ℕ, zero, suc, ◌≡◌, refl, true, false, Option, none, some, List, ◌∷◌, ◌++◌, inl, inr, arith, Text,
  text_eq, has, Option-cases, Bool-cases, ap, has-append, Among, Among-append_right, [],
}
use mathlib.Core.Path.{subst}
use skrivle.Services.{Yjs, Redis}
use skrivle.Realtime.UpdateLog.{
  Outcome, runs, log_key, seal_prefix, trim_log, trim_through, decode_entries,
}
use skrivle.Realtime.UpdateLog.Trim.{trim_through-split, decode-append}
use skrivle.Realtime.DocManager.{Registry, peek_doc, mark_dirty}
use skrivle.Realtime.DocManager.Peek.{peek-mark_dirty}
use skrivle.Realtime.Snapshot.{
  Board, Flight, Moment, write_snapshot, persist_snapshot, start_waiting, settle, save_lands,
  save_fails, trim_ends,
}
use skrivle.Realtime.Snapshot.Steps.{IsFresh}
use skrivle.Realtime.Snapshot.Durability.{
  Durable, InFlight, SealedAt, Whole, Recovers, logged, starts-Durable,
}

module _ ⦃y : Yjs⦄ ⦃r : Redis (y.Update)⦄ (id : Text) where
  open y use {Doc, Update, Holds}
  open r use {Db, lrange}

  abbrev pub IsDurable : Board Doc Update Db → List Update → Doc → Type 0
  IsDurable b log g = Durable id b.docs b.db b.stored b.flight log g

  write-IsDurable :
      (m : Moment) (b : Board Doc Update Db) (log : List Update) (g : Doc)
      → IsFresh id m b
      → Durable id b.docs b.db b.stored none log g
      → b.flight ≡ none
      → IsDurable (write_snapshot id m b) log g
  unfolding write_snapshot
  write-IsDurable m b log g fresh v idle = elim (Option-cases (peek_doc id b.docs)) [
    | inl e ↦ rw (e, write_snapshot, idle) v
    | inr (doc, e) ↦
        rw (e, write_snapshot) (starts-Durable id b.docs b.db b.stored log g v m doc fresh e _)
  ]

  start_waiting-IsDurable :
      (n : ℕ) (m : Moment) (b : Board Doc Update Db) (log : List Update) (g : Doc)
      → IsFresh id m b
      → Durable id b.docs b.db b.stored none log g
      → b.flight ≡ none
      → IsDurable (start_waiting n id m b) log g
  unfolding start_waiting
  start_waiting-IsDurable zero m b log g fresh v idle = rw idle v
  start_waiting-IsDurable (suc n) m b log g fresh v idle =
      elim (Option-cases (peek_doc id b.docs)) [
        | inl e ↦
            rw (e, start_waiting)
              (start_waiting-IsDurable n m (record b { waiting = n }) log g fresh v idle)
        | inr (doc, e) ↦
            rw (e, start_waiting) (write-IsDurable m (record b { waiting = n }) log g fresh v idle)
      ]

  idle-Durable :
      (docs : Registry Doc) (db : Db) (stored : Option Update) (flight : Option (Flight Update))
      (log : List Update) (g : Doc)
      → Durable id docs db stored flight log g
      → Durable id docs db stored none log g
  idle-Durable docs db stored flight log g v = record {
    safe = v.safe;
    live = v.live;
    in_flight = λ w e. cc;
    stored_whole = v.stored_whole;
    known = v.known;
    readable_log = v.readable_log;
    held = v.held;
  }

  settle-IsDurable :
      (m : Moment) (b : Board Doc Update Db) (log : List Update) (g : Doc)
      → IsFresh id m b
      → Durable id b.docs b.db b.stored none log g
      → IsDurable (settle id m b) log g
  unfolding settle
  settle-IsDurable m b log g fresh v =
      start_waiting-IsDurable b.waiting m (record b { flight = none }) log g fresh v refl

  pub persist-IsDurable :
      (m : Moment) (b : Board Doc Update Db) (log : List Update) (g : Doc)
      → IsFresh id m b
      → IsDurable b log g
      → IsDurable (persist_snapshot id m b) log g
  unfolding persist_snapshot
  persist-IsDurable m b log g fresh v = elim (Option-cases b.flight) [
    | inl idle ↦
        rw (idle, persist_snapshot)
          (write-IsDurable m b log g fresh (idle-Durable _ _ _ _ log g v) idle)
    | inr (w, busy) ↦ rw (busy, persist_snapshot) v
  ]

  -- A failed write flags the board, and leaves the row and the log as they were.
  pub fail-IsDurable :
      (m : Moment) (b : Board Doc Update Db) (log : List Update) (g : Doc)
      → IsFresh id m b
      → IsDurable b log g
      → IsDurable (save_fails id m b) log g
  unfolding save_fails
  fail-IsDurable m b log g fresh v =
      settle-IsDurable m (record b { docs = mark_dirty id b.docs }) log g fresh
        (record {
          safe = v.safe;
          live = λ d e. v.live d (rw (peek-mark_dirty id b.docs) at e);
          in_flight = λ w e. cc;
          stored_whole = v.stored_whole;
          known = v.known;
          readable_log = v.readable_log;
          held = v.held;
        })

  landed-InFlight :
      (db : Db) (stored : Option Update) (g : Doc) (w : Flight Update)
      → InFlight id db stored g w
      → InFlight id db (some w.blob) g (record w { landed = true })
  landed-InFlight db stored g w f = record {
    covered = f.covered;
    sealed_at = f.sealed_at;
    landed_stored = λ e. refl;
    whole = f.whole;
  }

  -- A row that lands replaces one which the new blob and the log make up for.
  pub land-IsDurable :
      (b : Board Doc Update Db) (log : List Update) (g : Doc) (w : Flight Update)
      → b.flight ≡ some w
      → IsDurable b log g
      → IsDurable (save_lands b) log g
  unfolding save_lands
  land-IsDurable b log g w e v =
      rw (e, save_lands)
        (record {
          safe = (v.in_flight w e).covered;
          live = v.live;
          in_flight = λ w' e'.
              let same : record w { landed = true } ≡ w' = cc in
              subst (InFlight id b.db (some w.blob) g) same
                (landed-InFlight b.db b.stored g w (v.in_flight w e));
          stored_whole = λ blob e'.
              let same : w.blob ≡ blob = cc in
              subst (λ x. Whole id x g) same (v.in_flight w e).whole;
          known = v.known;
          readable_log = v.readable_log;
          held = v.held;
        })

  module _ (blob : Update) (log : List Update) (g : Doc) (db : Db) where
    abbrev CutOk : Option Text → Type 0
    CutOk sealed = (seal : Text) → sealed ≡ some seal → SealedAt id db blob g seal

    cut-post :
        (seal : Text) (s : SealedAt id db blob g seal)
        → lrange (trim_through (log_key id) seal db) (log_key id) ≡ s.post
    cut-post seal s = trim_through-split (log_key id) seal db s.pre s.post s.split s.first

    trim-Recovers :
        (o : Outcome) (sealed : Option Text)
        → CutOk sealed
        → Recovers id (some blob) (logged id db) g
        → Recovers id (some blob) (logged id (trim_log o id sealed db)) g
    unfolding trim_log
    trim-Recovers o none s c = c
    trim-Recovers o (some seal) s c = elim (Bool-cases (runs o)) [
      | inl ran ↦ rw (ran, cut-post seal (s seal refl)) ((s seal refl).covered)
      | inr missed ↦ rw missed c
    ]

    trim-known :
        (o : Outcome) (sealed : Option Text)
        → CutOk sealed
        → ((u : Update) → Among u (logged id db) → Among u log)
        → (u : Update) → Among u (logged id (trim_log o id sealed db))
        → Among u log
    unfolding trim_log
    trim-known o none s c u a = c u a
    trim-known o (some seal) s c u a = elim (Bool-cases (runs o)) [
      | inl ran ↦
          let at_seal = s seal refl in
          let kept : Among u (decode_entries at_seal.post) = rw (ran, cut-post seal at_seal) at a in
          let behind : Among u (decode_entries (seal ∷ at_seal.post)) =
            rw (decode-append (seal ∷ []) at_seal.post)
              (Among-append_right u (decode_entries (seal ∷ [])) _ kept) in
          c u (
            rw (at_seal.split, decode-append at_seal.pre (seal ∷ at_seal.post))
              (Among-append_right u (decode_entries at_seal.pre) _ behind))
      | inr missed ↦ let same : Among u (logged id db) = rw missed at a in c u same
    ]

    trim-fresh :
        (o : Outcome) (sealed : Option Text) (name : Text)
        → CutOk sealed
        → has name (lrange db (log_key id)) ≡ false
        → has name (lrange (trim_log o id sealed db) (log_key id)) ≡ false
    unfolding trim_log has
    trim-fresh o none name s fresh = fresh
    trim-fresh o (some seal) name s fresh = elim (Bool-cases (runs o)) [
      | inl ran ↦
          let at_seal = s seal refl in
          rw (ran, cut-post seal at_seal)
            (ground (
              arith,
              ap (has name) at_seal.split,
              has-append name at_seal.pre (seal ∷ at_seal.post),
            ))
      | inr missed ↦ rw missed fresh
    ]

  -- The log is cut only at the seal of a row that has landed.
  pub trim-IsDurable :
      (o : Outcome) (m : Moment) (b : Board Doc Update Db) (log : List Update) (g : Doc)
      (w : Flight Update)
      → b.flight ≡ some w
      → w.landed ≡ true
      → IsFresh id m b
      → IsDurable b log g
      → IsDurable (trim_ends o id m b) log g
  unfolding trim_ends
  trim-IsDurable o m b log g w e landed fresh v =
      let f = v.in_flight w e in
      rw (e, trim_ends)
        (settle-IsDurable m (record b { db = trim_log o id w.sealed b.db }) log g
          (trim-fresh w.blob log g b.db o w.sealed (seal_prefix ++ m.stamp) f.sealed_at fresh)
          (record {
            safe =
                rw (f.landed_stored landed)
                  (trim-Recovers w.blob log g b.db o w.sealed f.sealed_at f.covered);
            live = v.live;
            in_flight = λ w' e'. cc;
            stored_whole = v.stored_whole;
            known = trim-known w.blob log g b.db o w.sealed f.sealed_at v.known;
            readable_log = v.readable_log;
            held = v.held;
          }))
