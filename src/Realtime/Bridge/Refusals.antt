-- ===== src/Realtime/Bridge/Refusals.antt =====
-- back-end/src/realtime/yjs-bridge.ts: which updates are turned away, and what a refusal leaves.
use skrivle.Prelude.{
  ℕ, ◌≡◌, ◌≢◌, refl, ap, ◌==◌, ==_iff, Bool-cases, Option, Bool, true, false, none, some, ◌⊎◌, inl,
  inr, arith, Text, text_eq, ==_refl, find, find-put, Option-cases,
}
use skrivle.Services.{Yjs, Redis}
use skrivle.Realtime.UpdateLog.{Outcome}
use skrivle.Realtime.DocManager.{DocEntry, Registry, has_room, measure, peek_doc}
use skrivle.Realtime.Bridge.{too_large, board_full, Applied, make_room, admit, apply_client_update}

module _ ⦃y : Yjs⦄ ⦃r : Redis (y.Update)⦄ where
  open y use {
    Doc, Update, apply_update, byte_length, encode_state, decode_structs, diff_update, observed,
    drop_pending,
  }
  open r use {Db}

  -- All of a board but its size and when that was last measured.
  pub unmeasured : Option (DocEntry Doc) → Option (DocEntry Doc)
  unmeasured none = none
  unmeasured (some entry) = some (record entry { bytes = 0; measured_at = 0 })

  -- What a call leaves that changes nothing: nothing to relay, the log, no resync, and of every board
  -- in memory its document, who is on it and whether it waits for a snapshot.
  pub record Untouched (id : Text) (docs : Registry Doc) (db : Db) (a : Applied Doc Update Db)
      : Type 0 where
    pub quiet : a.relayed ≡ none
    pub unlogged : a.db ≡ db
    pub caught_up : a.behind ≡ false
    pub boards : (k : Text) → unmeasured (find k a.docs) ≡ unmeasured (find k docs)

  peek-has_room :
      (id : Text) (n now : ℕ) (docs : Registry Doc)
      → peek_doc id (has_room id n now docs).1 ≡ peek_doc id docs
  unfolding peek_doc has_room
  peek-has_room id n now docs = elim (Option-cases (find id docs)) [
    | inl e ↦ ground arith
    | inr (entry, e) ↦ ground (arith, find-put id id (measure now entry) docs, ==_refl id)
  ]

  pub peek-admit :
      (id : Text) (now : ℕ) (update : Update) (doc : Doc) (docs : Registry Doc)
      → peek_doc id (admit id now update doc docs).1 ≡ peek_doc id docs
  unfolding admit make_room
  peek-admit id now update doc docs = ground (
    arith,
    peek-has_room id (byte_length update) now docs,
    peek-has_room id (byte_length (diff_update update doc)) now
        (has_room id (byte_length update) now docs).1,
  )

  seen-has_room :
      (k id : Text) (n now : ℕ) (docs : Registry Doc)
      → unmeasured (find k (has_room id n now docs).1) ≡ unmeasured (find k docs)
  unfolding unmeasured has_room measure
  seen-has_room k id n now docs = elim (Option-cases (find id docs)) [
    | inl e ↦ ground arith
    | inr (entry, e) ↦ elim (Bool-cases (id == k)) [
      | inl same ↦
          let at : id ≡ k = (==_iff id k).0 same in
          ground (arith, find-put id k (measure now entry) docs, ap (λ j. find j docs) at)
      | inr other ↦ ground (arith, find-put id k (measure now entry) docs)
    ]
  ]

  seen-admit :
      (k id : Text) (now : ℕ) (update : Update) (doc : Doc) (docs : Registry Doc)
      → unmeasured (find k (admit id now update doc docs).1) ≡ unmeasured (find k docs)
  unfolding admit make_room
  seen-admit k id now update doc docs = ground (
    arith,
    seen-has_room k id (byte_length update) now docs,
    seen-has_room k id (byte_length (diff_update update doc)) now
        (has_room id (byte_length update) now docs).1,
  )

  -- An update that is too large, or that a full board turns away, or that reaches a board which is
  -- no longer the one the socket joined, or whose bytes cannot be decoded, is not logged, is not sent
  -- to anybody, does not ask for a resync, and leaves every board in memory as it was, but for its
  -- size, which may be measured anew.
  pub refused-Untouched :
      (current : Bool) (o : Outcome) (now : ℕ) (id : Text) (update : Update) (doc : Doc)
      (docs : Registry Doc) (db : Db)
      → (current ≡ false)
        ⊎ ((apply_client_update current o now id update doc docs db).status ≡ too_large)
        ⊎ ((apply_client_update current o now id update doc docs db).status ≡ board_full)
        ⊎ (decode_structs update ≡ none)
      → Untouched id docs db (apply_client_update current o now id update doc docs db)
  unfolding apply_client_update admit
  refused-Untouched false o now id update doc docs db h = record {
    quiet = refl;
    unlogged = refl;
    caught_up = refl;
    boards = λ k. refl;
  }
  refused-Untouched true o now id update doc docs db h = record {
    quiet = ground arith;
    unlogged = ground arith;
    caught_up = ground arith;
    boards = λ k. ground (arith, seen-admit k id now update doc docs);
  }

  -- A board is never too full for an update that only deletes: one of a size that may be sent is
  -- never refused for room.
  pub deletion-admitted :
      (current : Bool) (o : Outcome) (now : ℕ) (id : Text) (update : Update) (doc : Doc)
      (docs : Registry Doc) (db : Db)
      → decode_structs update ≡ some 0
      → (apply_client_update current o now id update doc docs db).status ≢ board_full
  unfolding apply_client_update admit
  deletion-admitted false o now id update doc docs db h = ground arith
  deletion-admitted true o now id update doc docs db h = ground arith
