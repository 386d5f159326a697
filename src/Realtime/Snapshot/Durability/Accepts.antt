-- ===== src/Realtime/Snapshot/Durability/Accepts.antt =====
-- back-end/src/realtime: an accepted change joins the log, and the document that holds it.
use skrivle.Prelude.{
  ◌≡◌, ap, ◌∙◌, true, some, List, [], ◌∷◌, ◌++◌, inl, inr, arith, Text, text_eq, Among,
  Among-append_cases, false, Option, Option-cases, find, append_assoc,
}
use mathlib.Core.Path.{subst}
use skrivle.Services.{Yjs, Redis}
use skrivle.Realtime.UpdateLog.{Outcome, runs, update_entry, decode_entries, append_update}
use skrivle.Realtime.UpdateLog.Trim.{decode-append, decode-update_entry, lrange-append_update}
use skrivle.Realtime.DocManager.{Registry, peek_doc}
use skrivle.Realtime.DocManager.Loading.{Readable, play}
use skrivle.Realtime.DocManager.Peek.{peek-mark_dirty, peek-add_bytes}
use skrivle.Realtime.Bridge.{save_change, set_doc}
use skrivle.Realtime.Bridge.Relay.{find-modify}
use skrivle.Realtime.Snapshot.{Board}
use skrivle.Realtime.Snapshot.Steps.{accept}
use skrivle.Realtime.Snapshot.Durability.{SealedAt, Recovers, Same, Whole, logged, play-append}
use skrivle.Realtime.Snapshot.Durability.Writes.{IsDurable}

module _ ⦃y : Yjs⦄ ⦃r : Redis (y.Update)⦄ (id : Text) where
  open y use {
    Doc, Update, apply_update, Holds, Fits, encode_state, has_pending, fits_trans, apply_keeps,
    apply_brings, apply_settles,
  }
  open r use {Db, lrange}

  -- What an accepted change is to the document that it makes of the old one.
  record Accepted (old new : Doc) (change : Update) : Type 0 where
    fits : Fits old change
    readable : Readable change
    parts : (e : Doc) → Holds e (encode_state new) → Holds e (encode_state old) × Holds e change
    whole : (e : Doc) → Holds e (encode_state old) → Holds e change → Holds e (encode_state new)
    settled : has_pending new ≡ false

  module _ (o : Outcome) (ran : runs o ≡ true) (old new g : Doc) (change : Update) (db : Db)
      (a : Accepted old new change) (same : Same id old g) where
    abbrev db' : Db
    db' = append_update o id change db

    logged-ran : logged id db' ≡ logged id db ++ change ∷ []
    logged-ran =
        rw (lrange-append_update o id change db, ran, decode-append _ (update_entry change ∷ []))
          (ap (◌++◌ (logged id db)) (decode-update_entry change))

    -- A log that leads to the old document leads to the new one with the change at its end.
    Recovers-grown :
        (stored : Option Update) (us : List Update)
        → Recovers id stored us g
        → Recovers id stored (us ++ change ∷ []) new
    Recovers-grown stored us c e settled base =
        let (all, quiet) = c e settled base in
        let before = same.within (play e us) all in
        let fit = fits_trans old (play e us) change a.fits before in
        let ok = a.readable (play e us) in
        rw (play-append id e us (change ∷ [])) (
          a.whole (apply_update (play e us) change).0
              (apply_keeps (play e us) change (encode_state old) before)
              (apply_brings (play e us) change fit ok),
          apply_settles (play e us) change fit ok quiet,
        )

    Whole-grown : (blob : Update) → Whole id blob g → Whole id blob new
    Whole-grown blob w = record {
      readable = w.readable;
      complete = w.complete;
      within = λ e h. w.within e (same.covers e (a.parts e h).0);
    }

    SealedAt-grown :
        (blob : Update) (seal : Text) → SealedAt id db blob g seal → SealedAt id db' blob new seal
    SealedAt-grown blob seal s = record {
      pre = s.pre;
      post = s.post ++ update_entry change ∷ [];
      split =
          rw (lrange-append_update o id change db, ran, s.split)
            (append_assoc s.pre (seal ∷ s.post) (update_entry change ∷ []));
      first = s.first;
      covered =
          rw
            (decode-append s.post (update_entry change ∷ [])
              ∙ ap (◌++◌ (decode_entries s.post)) (decode-update_entry change))
            (Recovers-grown (some blob) (decode_entries s.post) s.covered);
    }

    known-grown :
        (log : List Update)
        → ((u : Update) → Among u (logged id db) → Among u log)
        → (u : Update) → Among u (logged id db')
        → Among u (change ∷ log)
    known-grown log k u h =
        let h' : Among u (logged id db ++ change ∷ []) = rw logged-ran at h in
        elim (Among-append_cases u (logged id db) (change ∷ []) h') [
          | inl old_one ↦ inr (k u old_one)
          | inr (inl e) ↦ inl e
          | inr (inr none_left) ↦ elim none_left [ ]
        ]

  peek-accept :
      (o : Outcome) (old new : Doc) (change : Update) (docs : Registry Doc) (db : Db)
      → peek_doc id docs ≡ some old
      → peek_doc id (save_change o id change (set_doc id new docs) db).0 ≡ some new
  unfolding save_change set_doc
  peek-accept o old new change docs db e =
      rw (peek-mark_dirty id _, peek-add_bytes id _ _)
        (unfold peek_doc in
          elim (Option-cases (find id docs)) [
            | inl f ↦ absurd (ground arith)
            | inr (entry, f) ↦
                ground (arith, find-modify id (λ x. record x { doc = new }) docs entry f)
          ])

  pub accept-IsDurable :
      (b : Board Doc Update Db) (log : List Update) (o : Outcome) (old new g : Doc)
      (change : Update)
      → peek_doc id b.docs ≡ some old
      → runs o ≡ true
      → Fits old change
      → Readable change
      → ((e : Doc) → Holds e (encode_state new) → Holds e (encode_state old) × Holds e change)
      → ((e : Doc) → Holds e (encode_state old) → Holds e change → Holds e (encode_state new))
      → has_pending new ≡ false
      → IsDurable id b log g
      → IsDurable id (accept o id new change b) (change ∷ log) new
  unfolding accept save_change
  accept-IsDurable b log o old new g change open_now ran fits readable parts whole settled v =
      let a : Accepted old new change = record {
        fits = fits;
        readable = readable;
        parts = parts;
        whole = whole;
        settled = settled;
      } in
      let same = v.live old open_now in
      record {
        safe =
            rw (logged-ran o ran old new g change b.db a same)
              (Recovers-grown o ran old new g change b.db a same b.stored (logged id b.db) v.safe);
        live = λ d e.
            let at : new ≡ d = cc (peek-accept o old new change b.docs b.db open_now) in
            subst (λ x. Same id x new) at
              (record { within = λ e h. h; covers = λ e h. h; settled = settled });
        in_flight = λ w e.
            let f = v.in_flight w e in
            record {
              covered = rw (logged-ran o ran old new g change b.db a same) (
                  Recovers-grown o ran old new g change b.db a same (some w.blob) (logged id b.db)
                    f.covered);
              sealed_at = λ seal s.
                  SealedAt-grown o ran old new g change b.db a same w.blob seal
                    (f.sealed_at seal s);
              landed_stored = f.landed_stored;
              whole = Whole-grown o ran old new g change b.db a same w.blob f.whole;
            };
        stored_whole =
            λ blob e. Whole-grown o ran old new g change b.db a same blob (v.stored_whole blob e);
        known = known-grown o ran old new g change b.db a same log v.known;
        readable_log = λ u h. elim h [
          | inl e ↦ subst Readable e readable
          | inr before ↦ v.readable_log u before
        ];
        held = λ e h u among. elim among [
          | inl at ↦ subst (Holds e) at (parts e h).1
          | inr before ↦ v.held e (same.covers e (parts e h).0) u before
        ];
      }
