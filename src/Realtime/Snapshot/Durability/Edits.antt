-- ===== src/Realtime/Snapshot/Durability/Edits.antt =====
-- back-end/src/realtime: opening and leaving a board, its edits, and a crash keep what is logged.
use skrivle.Prelude.{
  ◌≡◌, refl, sym, ◌∙◌, false, none, Option, some, List, ◌⊎◌, inl, inr, arith, Text, text_eq,
  Option-cases, find, find-put, find-remove, ==_refl,
}
use mathlib.Core.Path.{subst}
use mathlib.Core.Option.{some-injective}
use skrivle.Services.{Yjs, Redis}
use skrivle.Realtime.DocManager.{Registry, DocEntry, peek_doc, acquire_doc, load}
use skrivle.Realtime.DocManager.Loading.{play, from_snapshot, doc-load}
use skrivle.Realtime.Snapshot.{Board, Flight}
use skrivle.Realtime.Snapshot.Steps.{open_board, crash}
use skrivle.Realtime.Snapshot.Durability.{Durable, HoldsIf, Same, Whole, logged, play-least}
use skrivle.Realtime.Snapshot.Durability.Writes.{IsDurable}

module _ ⦃y : Yjs⦄ ⦃r : Redis (y.Update)⦄ (id : Text) where
  open y use {
    Doc, Update, Holds, apply_update, encode_state, has_pending, fresh, fresh_settled, fresh_least,
    apply_settles, apply_brings, apply_least, holds_trans,
  }
  open r use {Db, lrange}

  -- What a snapshot makes of a new document: all of it, and nothing pending.
  from_snapshot-settled :
      (stored : Option Update) (g : Doc)
      → ((blob : Update) → stored ≡ some blob → Whole id blob g)
      → (has_pending (from_snapshot stored) ≡ false) × HoldsIf id stored (from_snapshot stored)
  from_snapshot-settled none g whole = (fresh_settled, λ b e. absurd (ground (arith, e)))
  from_snapshot-settled (some blob) g whole =
      let w = whole blob refl in
      (
        apply_settles fresh blob (w.complete fresh) (w.readable fresh) fresh_settled,
        λ b e.
            subst (Holds (apply_update fresh blob).0) (some-injective _ _ e)
              (apply_brings fresh blob (w.complete fresh) (w.readable fresh)),
      )

  from_snapshot-least :
      (stored : Option Update) (g e : Doc)
      → ((blob : Update) → stored ≡ some blob → Whole id blob g)
      → Holds e (encode_state g)
      → Holds e (encode_state (from_snapshot stored))
  from_snapshot-least none g e whole h = fresh_least e
  from_snapshot-least (some blob) g e whole h =
      apply_least fresh e blob (fresh_least e) ((whole blob refl).within e h)

  -- What the row and the log lead to is the board.
  pub loaded-Same :
      (docs : Registry Doc) (db : Db) (stored : Option Update) (flight : Option (Flight Update))
      (log : List Update) (g : Doc)
      → Durable id docs db stored flight log g
      → Same id (play (from_snapshot stored) (logged id db)) g
  loaded-Same docs db stored flight log g v =
      let start = from_snapshot stored in
      let (quiet, base) = from_snapshot-settled stored g v.stored_whole in
      let (all, settled) = v.safe start quiet base in
      record {
        within = λ e h.
            play-least id start e (logged id db) (from_snapshot-least stored g e v.stored_whole h)
              (λ u a. v.held e h u (v.known u a));
        covers = λ e h. holds_trans (play start (logged id db)) e (encode_state g) all h;
        settled = settled;
      }

  peek-acquire :
      (snapshot : Option Update) (ups : List Update) (docs : Registry Doc) (d : Doc)
      → peek_doc id (acquire_doc id (some snapshot) (some ups) docs).1 ≡ some d
      → (peek_doc id docs ≡ some d)
        ⊎ ((entry : DocEntry Doc) × (load (some snapshot) (some ups) ≡ some entry)
            × (entry.doc ≡ d))
  unfolding peek_doc acquire_doc
  peek-acquire snapshot ups docs d e = elim (Option-cases (find id docs)) [
    | inr (existing, f) ↦ inl (ground arith)
    | inl f ↦ elim (Option-cases (load (some snapshot) (some ups))) [
      | inl g ↦ absurd (ground (arith, find-remove id id docs, ==_refl id))
      | inr (entry, g) ↦ inr (entry, g, ground (arith, find-put id id entry docs, ==_refl id))
    ]
  ]

  pub open-IsDurable :
      (b : Board Doc Update Db) (log : List Update) (g : Doc)
      → IsDurable id b log g
      → IsDurable id (open_board id b) log g
  unfolding open_board
  open-IsDurable b log g v = record {
    safe = v.safe;
    live = λ d e. elim (peek-acquire b.stored (logged id b.db) b.docs d e) [
      | inl old ↦ v.live d old
      | inr (entry, f, same) ↦
          subst (λ x. Same id x g) (sym (doc-load b.stored (logged id b.db) entry f) ∙ same)
            (loaded-Same b.docs b.db b.stored b.flight log g v)
    ];
    in_flight = v.in_flight;
    stored_whole = v.stored_whole;
    known = v.known;
    readable_log = v.readable_log;
    held = v.held;
  }

  -- Only the document in memory is said to be the board: a change that leaves it alone keeps it.
  pub docs-IsDurable :
      (b : Board Doc Update Db) (docs : Registry Doc) (log : List Update) (g : Doc)
      → ((d : Doc) → peek_doc id docs ≡ some d → peek_doc id b.docs ≡ some d)
      → IsDurable id b log g
      → IsDurable id (record b { docs = docs }) log g
  docs-IsDurable b docs log g same v = record {
    safe = v.safe;
    live = λ d e. v.live d (same d e);
    in_flight = v.in_flight;
    stored_whole = v.stored_whole;
    known = v.known;
    readable_log = v.readable_log;
    held = v.held;
  }

  pub crash-IsDurable :
      (b : Board Doc Update Db) (log : List Update) (g : Doc)
      → IsDurable id b log g
      → IsDurable id (crash b) log g
  unfolding crash peek_doc find
  crash-IsDurable b log g v = record {
    safe = v.safe;
    live = λ d e. cc;
    in_flight = λ w e. cc;
    stored_whole = v.stored_whole;
    known = v.known;
    readable_log = v.readable_log;
    held = v.held;
  }
