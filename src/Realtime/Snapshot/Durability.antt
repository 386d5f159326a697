-- ===== src/Realtime/Snapshot/Durability.antt =====
-- back-end/src/realtime: what has been logged survives a crash at any moment.
pub mod Writes
pub mod Edits
pub mod Accepts
pub mod Reload
use mathlib.Core.Path.{subst}
use skrivle.Prelude.{
  ℕ, zero, suc, ◌≡◌, refl, sym, ap, ◌∙◌, Bool, true, false, Option, none, some, List, [], ◌∷◌, ◌++◌,
  ◌⊎◌, inl, inr, arith, Text, text_eq, ==_refl, has, Among, Among-append_left, Among-append_right,
  Among-append_cases, if◌then◌else◌, append_assoc, append-nil, Bool-cases, Option-cases,
}
use skrivle.Services.{Yjs, Redis}
use skrivle.Realtime.UpdateLog.{
  Outcome, runs, heard, answered, unheard, not_run, log_key, seal_prefix, update_entry,
  decode_entries, seal_log, trim_log,
}
use skrivle.Realtime.UpdateLog.Trim.{
  decode-append, decode-update_entry, decode-seal_entry, lrange-append_update, lrange-seal_log,
  trim_through-split,
}
use skrivle.Realtime.DocManager.{Registry, DocEntry, peek_doc, clear_dirty, set_bytes}
use skrivle.Realtime.DocManager.Loading.{Readable, play}
use skrivle.Realtime.DocManager.Peek.{peek-clear_dirty, peek-set_bytes}
use skrivle.Realtime.Snapshot.{Board, Flight, Moment, write_snapshot}

module _ ⦃y : Yjs⦄ ⦃r : Redis (y.Update)⦄ (id : Text) where
  open y use {
    Doc, Update, Holds, Fits, apply_update, encode_state, has_pending, holds_trans, fits_trans,
    apply_keeps, apply_brings, apply_settles, apply_least, holds_fits, fits_encode, encode_readable,
  }
  open r use {Db, lrange}

  abbrev pub logged : Db → List Update
  logged db = decode_entries (lrange db (log_key id))

  abbrev pub HoldsIf : Option Update → Doc → Type 0
  HoldsIf stored e = (blob : Update) → stored ≡ some blob → Holds e blob

  -- From any document with nothing pending that holds the snapshot, the log leads to one with nothing
  -- pending that holds all of `g`.
  abbrev pub Recovers : Option Update → List Update → Doc → Type 0
  Recovers stored log g =
      (e : Doc)
      → has_pending e ≡ false
      → HoldsIf stored e
      → Holds (play e log) (encode_state g) × (has_pending (play e log) ≡ false)

  -- Two documents with the same changes in them; the first has nothing pending.
  pub record Same (d g : Doc) : Type 0 where
    pub within : (e : Doc) → Holds e (encode_state g) → Holds e (encode_state d)
    pub covers : (e : Doc) → Holds e (encode_state d) → Holds e (encode_state g)
    pub settled : has_pending d ≡ false

  -- A snapshot that can be read, builds on nothing else, and has no change that `g` lacks.
  pub record Whole (blob : Update) (g : Doc) : Type 0 where
    pub readable : Readable blob
    pub complete : (e : Doc) → Fits e blob
    pub within : (e : Doc) → Holds e (encode_state g) → Holds e blob

  -- The log is cut at a seal; the blob and what stands after the seal recover the board.
  pub record SealedAt (db : Db) (blob : Update) (g : Doc) (seal : Text) : Type 0 where
    pub pre : List Text
    pub post : List Text
    pub split : lrange db (log_key id) ≡ pre ++ seal ∷ post
    pub first : has seal pre ≡ false
    pub covered : Recovers (some blob) (decode_entries post) g

  pub record InFlight (db : Db) (stored : Option Update) (g : Doc) (w : Flight Update)
      : Type 0 where
    pub covered : Recovers (some w.blob) (logged db) g
    pub sealed_at : (seal : Text) → w.sealed ≡ some seal → SealedAt db w.blob g seal
    pub landed_stored : w.landed ≡ true → stored ≡ some w.blob
    pub whole : Whole w.blob g

  -- `g` is the board with all of its accepted changes, which are those of `log` and more; the stored
  -- snapshot and the log recover it, the document in memory is the same, and a write in flight may
  -- replace the snapshot and cut the log at its seal.
  pub record Durable (docs : Registry Doc) (db : Db) (stored : Option Update)
      (flight : Option (Flight Update)) (log : List Update) (g : Doc) : Type 0 where
    pub safe : Recovers stored (logged db) g
    pub live : (doc : Doc) → peek_doc id docs ≡ some doc → Same doc g
    pub in_flight : (w : Flight Update) → flight ≡ some w → InFlight db stored g w
    pub stored_whole : (blob : Update) → stored ≡ some blob → Whole blob g
    pub known : (u : Update) → Among u (logged db) → Among u log
    pub readable_log : (u : Update) → Among u log → Readable u
    pub held : (e : Doc) → Holds e (encode_state g) → (u : Update) → Among u log → Holds e u

  pub play-keeps : (d : Doc) (us : List Update) (u : Update) → Holds d u → Holds (play d us) u
  play-keeps d [] u h = h
  play-keeps d (v ∷ us) u h = play-keeps (apply_update d v).0 us u (apply_keeps d v u h)

  -- Updates that a document holds already leave nothing pending in it.
  pub play-settles :
      (d : Doc) (us : List Update)
      → has_pending d ≡ false
      → ((u : Update) → Among u us → Readable u × Holds d u)
      → has_pending (play d us) ≡ false
  play-settles d [] settled each = settled
  play-settles d (v ∷ us) settled each =
      let (ok, there) = each v (inl refl) in
      play-settles (apply_update d v).0 us (apply_settles d v (holds_fits d v there) (ok d) settled)
        (λ u a. let (ok', h) = each u (inr a) in (ok', apply_keeps d v u h))

  -- A document that holds what the first one and the updates have holds what they lead to.
  pub play-least :
      (d e : Doc) (us : List Update)
      → Holds e (encode_state d)
      → ((u : Update) → Among u us → Holds e u)
      → Holds e (encode_state (play d us))
  play-least d e [] h each = h
  play-least d e (v ∷ us) h each =
      play-least (apply_update d v).0 e us (apply_least d e v h (each v (inl refl)))
        (λ u a. each u (inr a))

  pub play-append : (d : Doc) (us vs : List Update) → play d (us ++ vs) ≡ play (play d us) vs
  play-append d [] vs = refl
  play-append d (u ∷ us) vs = play-append (apply_update d u).0 us vs

  -- A seal adds no update to a log.
  logged-seal_log :
      (o : Outcome) (stamp : Text) (db : Db) → logged (seal_log o id stamp db).1 ≡ logged db
  logged-seal_log o stamp db = elim (Bool-cases (runs o)) [
    | inl ran ↦
        rw
          (
            lrange-seal_log o id stamp db,
            ran,
            decode-append _ ((seal_prefix ++ stamp) ∷ []),
            decode-seal_entry stamp,
          )
          (append-nil (logged db))
    | inr missed ↦ rw (lrange-seal_log o id stamp db, missed)
  ]

  sealed-split :
      (o : Outcome) (stamp seal : Text) (db : Db)
      → has (seal_prefix ++ stamp) (lrange db (log_key id)) ≡ false
      → (seal_log o id stamp db).0 ≡ some seal
      → (lrange (seal_log o id stamp db).1 (log_key id) ≡ lrange db (log_key id) ++ seal ∷ [])
        × (has seal (lrange db (log_key id)) ≡ false)
  unfolding seal_log
  sealed-split answered stamp seal db fresh e = ground (arith, lrange-seal_log answered id stamp db)
  sealed-split unheard stamp seal db fresh e = ground arith
  sealed-split not_run stamp seal db fresh e = ground arith

  module _ (docs : Registry Doc) (db : Db) (stored : Option Update) (log : List Update) (g : Doc)
      (v : Durable docs db stored none log g) where
    module _ (m : Moment) (doc : Doc)
        (fresh : has (seal_prefix ++ m.stamp) (lrange db (log_key id)) ≡ false)
        (open_now : peek_doc id docs ≡ some doc) where
      abbrev started : Flight Update
      started = record {
        blob = encode_state doc;
        sealed = (seal_log m.pushed id m.stamp db).0;
        landed = false;
      }

      -- What holds the blob holds the board, and so does not need the log.
      blob-Recovers :
          (us : List Update)
          → ((u : Update) → Among u us → Among u log)
          → Recovers (some (encode_state doc)) us g
      blob-Recovers us known e settled base =
          let all = (v.live doc open_now).covers e (base (encode_state doc) refl) in
          (
            play-keeps e us (encode_state g) all,
            play-settles e us settled
                (λ u a. (v.readable_log u (known u a), v.held e all u (known u a))),
          )

      started-InFlight : InFlight (seal_log m.pushed id m.stamp db).1 stored g started
      unfolding decode_entries
      started-InFlight = record {
        covered = rw logged-seal_log (blob-Recovers (logged db) v.known);
        sealed_at = λ seal e.
            let (split, first) = sealed-split m.pushed m.stamp seal db fresh e in
            record {
              pre = lrange db (log_key id);
              post = [];
              split = split;
              first = first;
              covered = blob-Recovers [] (λ u a. elim a [ ]);
            };
        landed_stored = λ e. cc;
        whole = record {
          readable = λ d. encode_readable d doc;
          complete = λ e. fits_encode doc e (v.live doc open_now).settled;
          within = (v.live doc open_now).within;
        };
      }

      -- A write that starts takes a blob with all of the board in it.
      pub starts-Durable :
          (n : ℕ)
          → Durable
              (set_bytes id n m.now (clear_dirty id docs))
              (seal_log m.pushed id m.stamp db).1
              stored
              (some started)
              log
              g
      starts-Durable n = record {
        safe = rw logged-seal_log v.safe;
        live = λ d e.
            v.live d
              (rw (peek-set_bytes id n m.now (clear_dirty id docs), peek-clear_dirty id docs) at e);
        in_flight = λ w e.
            let same : started ≡ w = cc in
            subst (InFlight (seal_log m.pushed id m.stamp db).1 stored g) same started-InFlight;
        stored_whole = v.stored_whole;
        known = rw logged-seal_log v.known;
        readable_log = v.readable_log;
        held = v.held;
      }
