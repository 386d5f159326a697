-- ===== src/Realtime/Snapshot/Durability/Reload.antt =====
-- back-end/src/realtime: along every run of a board's steps, what was logged can be loaded again.
use skrivle.Prelude.{
  ◌≡◌, refl, sym, ap, ◌∙◌, false, true, Option, none, some, List, [], ◌∷◌, inl, inr, arith, Text,
  text_eq, find, Among,
}
use mathlib.Core.Path.{subst}
use skrivle.Services.{Yjs, Redis}
use skrivle.Realtime.UpdateLog.{decode_entries, log_key}
use skrivle.Realtime.DocManager.{peek_doc, DocEntry, new_entry, load, rehydrate, recover}
use skrivle.Realtime.DocManager.Loading.{play, from_snapshot, doc-load}
use skrivle.Realtime.DocManager.Peek.{peek-track_socket, peek-untrack_socket, peek-release_doc}
use skrivle.Realtime.Snapshot.{Board}
use skrivle.Realtime.Snapshot.Steps.{
  Step, accepts, persists, lands, fails, trims, joins, leaves, opens, releases, crashes, Reach,
  here, next, entries,
}
use skrivle.Realtime.Snapshot.Durability.{logged}
use skrivle.Realtime.Snapshot.Durability.Writes.{
  IsDurable, persist-IsDurable, land-IsDurable, fail-IsDurable, trim-IsDurable,
}
use skrivle.Realtime.Snapshot.Durability.Edits.{
  loaded-Same, open-IsDurable, docs-IsDurable, crash-IsDurable,
}
use skrivle.Realtime.Snapshot.Durability.Accepts.{accept-IsDurable}

module _ ⦃y : Yjs⦄ ⦃r : Redis (y.Update)⦄ (id : Text) where
  open y use {
    Doc, Update, Holds, apply_update, fresh, fresh_least, encode_state, has_pending, holds_self,
  }
  open r use {Db, lrange}

  -- A step leads from a board that is recovered to one, with the document that stands for it.
  Step-IsDurable :
      {b b' : Board Doc Update Db} {log log' : List Update}
      → Step id b log b' log'
      → (g : Doc) → IsDurable id b log g
      → (g' : Doc) × IsDurable id b' log' g'
  Step-IsDurable (accepts b log o old new change open_now ran fits ok parts whole settled) g v =
      (new, accept-IsDurable id b log o old new g change open_now ran fits ok parts whole settled v)
  Step-IsDurable (persists b log m fresh_name) g v =
      (g, persist-IsDurable id m b log g fresh_name v)
  Step-IsDurable (lands b log w e n) g v = (g, land-IsDurable id b log g w e v)
  Step-IsDurable (fails b log w m e n fresh_name) g v =
      (g, fail-IsDurable id m b log g fresh_name v)
  Step-IsDurable (trims b log w o m e landed fresh_name) g v =
      (g, trim-IsDurable id o m b log g w e landed fresh_name v)
  Step-IsDurable (joins b log s) g v =
      (g, docs-IsDurable id b _ log g (λ d e. rw (peek-track_socket id s b.docs) at e) v)
  Step-IsDurable (leaves b log s) g v =
      (g, docs-IsDurable id b _ log g (λ d e. rw (peek-untrack_socket id s b.docs) at e) v)
  Step-IsDurable (opens b log) g v = (g, open-IsDurable id b log g v)
  Step-IsDurable (releases b log) g v =
      (g, docs-IsDurable id b _ log g (λ d e. absurd (cc (peek-release_doc id b.docs))) v)
  Step-IsDurable (crashes b log) g v = (g, crash-IsDurable id b log g v)

  Reach-IsDurable :
      {b : Board Doc Update Db} {log : List Update} {b' : Board Doc Update Db} {log' : List Update}
      → (g : Doc) → IsDurable id b log g
      → Reach id b log b' log'
      → (g' : Doc) × IsDurable id b' log' g'
  Reach-IsDurable g v here = (g, v)
  Reach-IsDurable g v (next run step) =
      let (g', v') = Reach-IsDurable g v run in Step-IsDurable step g' v'

  -- A board that has just been made: nothing in memory, no row, and no log.
  abbrev pub new_board : Db → Board Doc Update Db
  new_board db = record { docs = []; db = db; stored = none; flight = none; waiting = 0 }

  new-IsDurable : (db : Db) → lrange db (log_key id) ≡ [] → IsDurable id (new_board db) [] fresh
  unfolding decode_entries peek_doc find
  new-IsDurable db empty = record {
    safe = λ e settled base. rw empty (fresh_least e, settled);
    live = λ d e. absurd (ground (arith, e));
    in_flight = λ w e. cc;
    stored_whole = λ blob e. cc;
    known = λ u a. rw empty at a;
    readable_log = λ u h. elim h [ ];
    held = λ e h u a. elim a [ ];
  }

  load-total :
      (stored : Option Update) (ups : List Update)
      → ((blob : Update) → stored ≡ some blob → (apply_update fresh blob).1 ≡ true)
      → (entry : DocEntry Doc) × (load (some stored) (some ups) ≡ some entry)
  unfolding load rehydrate
  load-total none ups ok = (_, refl)
  load-total (some blob) ups ok = (
    recover (record new_entry { doc = (apply_update fresh blob).0; bytes = y.byte_length blob })
        ups,
    ground (arith, ok blob refl),
  )

  -- The document holds each of the changes.
  pub data HoldsAll (doc : Doc) : List Update → Type 0 where
    holds_none : HoldsAll doc []
    holds_more :
        (u : Update) (log : List Update) → Holds doc u → HoldsAll doc log → HoldsAll doc (u ∷ log)

  all-HoldsAll :
      (doc : Doc) (log : List Update)
      → ((u : Update) → Among u log → Holds doc u)
      → HoldsAll doc log
  all-HoldsAll doc [] each = holds_none
  all-HoldsAll doc (u ∷ log) each =
      holds_more u log (each u (inl refl)) (all-HoldsAll doc log (λ v h. each v (inr h)))

  -- However a board's edits (each with its append carried out, heard or not), its joins and departures,
  -- its saves (landing or failing, sealed and trimmed or not), its releases and crashes of the server
  -- interleave, from a board without row and log on: the row and the log that are then in storage load,
  -- the loaded document holds every change that was accepted, and it has nothing pending.
  pub reload-holds :
      (db : Db) (b : Board Doc Update Db) (log : List Update)
      → lrange db (log_key id) ≡ []
      → Reach id (new_board db) [] b log
      → (entry : DocEntry Doc) × (load (some b.stored) (some (decode_entries (entries id b)))
          ≡ some entry)
        × HoldsAll entry.doc log
        × (has_pending entry.doc ≡ false)
  reload-holds db b log empty run =
      let (g, v) = Reach-IsDurable fresh (new-IsDurable db empty) run in
      let (entry, e) =
        load-total b.stored (logged id b.db)
          (λ blob same. (v.stored_whole blob same).readable fresh) in
      let loaded = play (from_snapshot b.stored) (logged id b.db) in
      let whole = loaded-Same id b.docs b.db b.stored b.flight log g v in
      let same : loaded ≡ entry.doc = sym (doc-load b.stored (logged id b.db) entry e) in
      let all = whole.covers loaded (holds_self loaded whole.settled) in
      (
        entry,
        e,
        subst (λ d. HoldsAll d log) same (all-HoldsAll loaded log (v.held loaded all)),
        ap has_pending (sym same) ∙ whole.settled,
      )
