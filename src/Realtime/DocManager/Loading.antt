-- ===== src/Realtime/DocManager/Loading.antt =====
-- back-end/src/realtime/doc-manager.ts: what a load brings back.
use skrivle.Prelude.{
  ◌≡◌, refl, ap, ◌∙◌, true, false, not, Option, none, some, List, [], ◌∷◌, arith, Text, text_eq,
  ==_refl, find, find-remove, inl, inr, Option-cases,
}
use skrivle.Services.{Yjs}
use skrivle.Realtime.DocManager.{
  DocEntry, Registry, is_empty, replay_one, replay, rehydrate, recover, load, acquire_doc, peek_doc,
}

module _ ⦃y : Yjs⦄ where
  open y use {Doc, Update, apply_update}

  -- Every update of a list can be applied: Yjs throws on none of them.
  abbrev pub Readable : Update → Type 0
  Readable u = (d : Doc) → (apply_update d u).1 ≡ true

  -- The updates of a list, applied one after the other.
  abbrev pub play : Doc → List Update → Doc
  play d [] = d
  play d (u ∷ us) = play (apply_update d u).0 us

  doc-replay :
      (entry : DocEntry Doc) (logged : List Update)
      → (replay entry logged).doc ≡ play entry.doc logged
  unfolding replay
  doc-replay entry [] = refl
  doc-replay entry (u ∷ logged) = doc-replay (replay_one entry u) logged

  doc-recover :
      (entry : DocEntry Doc) (logged : List Update)
      → (recover entry logged).doc ≡ (replay entry logged).doc
  unfolding recover
  doc-recover entry [] = refl
  doc-recover entry (u ∷ logged) = refl

  load-some :
      (snapshot : Option Update) (logged : List Update) (entry : DocEntry Doc)
      → load (some snapshot) (some logged) ≡ some entry
      → (start : DocEntry Doc) × (rehydrate snapshot ≡ some start) × (entry ≡ recover start logged)
  unfolding load
  load-some snapshot logged entry e = elim (Option-cases (rehydrate snapshot)) [
    | inl missing ↦ absurd (ground arith)
    | inr (start, found) ↦ (start, found, ground arith)
  ]

  -- A document made from a snapshot, if there is one.
  abbrev pub from_snapshot : Option Update → Doc
  from_snapshot none = y.fresh
  from_snapshot (some blob) = (apply_update y.fresh blob).0

  doc-rehydrate :
      (snapshot : Option Update) (start : DocEntry Doc)
      → rehydrate snapshot ≡ some start
      → start.doc ≡ from_snapshot snapshot
  unfolding rehydrate
  doc-rehydrate none start e = ground (arith, e)
  doc-rehydrate (some blob) start e = ground (arith, e)

  -- What a load brings back: the snapshot, with every update of the log applied to it.
  pub doc-load :
      (snapshot : Option Update) (logged : List Update) (entry : DocEntry Doc)
      → load (some snapshot) (some logged) ≡ some entry
      → entry.doc ≡ play (from_snapshot snapshot) logged
  doc-load snapshot logged entry e =
      let (start, found, eq) = load-some snapshot logged entry e in
      ap (λ x. x.doc) eq
      ∙ doc-recover start logged
      ∙ doc-replay start logged
      ∙ ap (λ d. play d logged) (doc-rehydrate snapshot start found)

  rehydrate-clean :
      (snapshot : Option Update) (start : DocEntry Doc)
      → rehydrate snapshot ≡ some start
      → (start.dirty ≡ false) × (start.sockets ≡ [])
  unfolding rehydrate
  rehydrate-clean none start e = ground arith
  rehydrate-clean (some blob) start e = ground arith

  flags-replay :
      (entry : DocEntry Doc) (logged : List Update)
      → ((replay entry logged).dirty ≡ entry.dirty)
        × ((replay entry logged).sockets ≡ entry.sockets)
  unfolding replay
  flags-replay entry [] = (refl, refl)
  flags-replay entry (u ∷ logged) = flags-replay (replay_one entry u) logged

  dirty-recover :
      (entry : DocEntry Doc) (logged : List Update)
      → entry.dirty ≡ false
      → (recover entry logged).dirty ≡ not (is_empty logged)
  unfolding recover
  dirty-recover entry [] clean = ground (arith, flags-replay entry [])
  dirty-recover entry (u ∷ logged) clean = refl

  -- A board just loaded waits for a snapshot exactly when its log held work.
  pub load-dirty :
      (snapshot : Option Update) (logged : List Update) (entry : DocEntry Doc)
      → load (some snapshot) (some logged) ≡ some entry
      → (entry.dirty ≡ not (is_empty logged))
  load-dirty snapshot logged entry e =
      let (start, found, eq) = load-some snapshot logged entry e in
      rw eq (dirty-recover start logged (rehydrate-clean snapshot start found).0)

  -- A board whose stored document or log cannot be read is not served, and leaves no entry behind
  -- that could be served later.
  pub acquire-fails :
      (id : Text) (snapshot : Option (Option Update)) (logged : Option (List Update))
      (docs : Registry Doc)
      → find id docs ≡ none
      → load snapshot logged ≡ none
      → ((acquire_doc id snapshot logged docs).0 ≡ none)
        × (peek_doc id (acquire_doc id snapshot logged docs).1 ≡ none)
  unfolding acquire_doc peek_doc
  acquire-fails id snapshot logged docs absent failed =
      ground (arith, find-remove id id docs, ==_refl id)
