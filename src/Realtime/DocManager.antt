-- ===== src/Realtime/DocManager.antt =====
-- back-end/src/realtime/doc-manager.ts: the documents in memory, one for each board that is open.
-- The registry is passed along; a load is one step, since a second caller waits for the first's
-- `ready`, and the answers of its two reads (`loadDocState` and `readUpdates`) are arguments, `none`
-- when a read is rejected. `doc.destroy()` frees memory and has no counterpart.
pub mod Loading
pub mod Room
pub mod Peek
use skrivle.Prelude.{
  ℕ, ◌+◌, ◌-◌, ◌≤◌, Bool, true, false, ◌&&◌, Option, none, some, List, [], ◌∷◌, map, Text, text_eq,
  ◌==◌, length, filter, ltb, leb, if◌then◌else◌, find, put, remove, add, without,
}
use skrivle.Services.{Yjs}
use skrivle.Realtime.Limits.{max_board_bytes}

-- DocEntry, less `ready`.
pub record DocEntry (Doc : Type 0) : Type 0 where
  pub doc : Doc
  pub sockets : List Text
  pub dirty : Bool
  pub bytes : ℕ
  pub measured_at : ℕ

abbrev pub Registry : Type 0 → Type 0
Registry Doc = List (Text × DocEntry Doc)

abbrev pub measure_min_ms : ℕ
measure_min_ms = 1000

abbrev pub is_empty {ℓ} : {A : Type ℓ} → List A → Bool
is_empty [] = true
is_empty (x ∷ xs) = false

-- docs.get(id) and, if it is there, a change of its entry.
unfoldable pub modify :
    {Doc : Type 0} → Text → (DocEntry Doc → DocEntry Doc) → Registry Doc → Registry Doc
modify id change docs = elim (find id docs) [
  | none ↦ docs
  | some entry ↦ put id (change entry) docs
]

module _ ⦃y : Yjs⦄ where
  open y use {Doc, Update, fresh, apply_update, encode_state, byte_length}

  abbrev pub new_entry : DocEntry Doc
  new_entry = record { doc = fresh; sockets = []; dirty = false; bytes = 0; measured_at = 0 }

  -- One logged update: an unreadable one is passed over, and its bytes are not counted.
  unfoldable pub replay_one : DocEntry Doc → Update → DocEntry Doc
  replay_one entry update =
      let (doc, applied) = apply_update entry.doc update in
      record entry {
        doc = doc;
        bytes = if applied then entry.bytes + byte_length update else entry.bytes;
      }

  unfoldable pub replay : DocEntry Doc → List Update → DocEntry Doc
  unfolding replay_one
  replay entry [] = entry
  replay entry (update ∷ logged) = replay (replay_one entry update) logged

  -- The snapshot; `none` when applying it throws.
  unfoldable pub rehydrate : Option Update → Option (DocEntry Doc)
  rehydrate none = some new_entry
  rehydrate (some snapshot) =
      let (doc, applied) = apply_update fresh snapshot in
      if applied then some (record new_entry { doc = doc; bytes = byte_length snapshot }) else none

  unfoldable pub recover : DocEntry Doc → List Update → DocEntry Doc
  unfolding replay
  recover entry logged =
      let entry' = replay entry logged in
      if is_empty logged then entry' else record entry' { dirty = true }

  -- The body of `ready`.
  unfoldable pub load : Option (Option Update) → Option (List Update) → Option (DocEntry Doc)
  unfolding rehydrate recover
  load none logged = none
  load (some snapshot) logged = elim (rehydrate snapshot) [
    | none ↦ none
    | some entry ↦ elim logged [ none ↦ none | some updates ↦ some (recover entry updates) ]
  ]

  -- acquireDoc: the document, or `none` when it throws, and the registry.
  unfoldable pub acquire_doc :
      Text
      → Option (Option Update)
      → Option (List Update)
      → Registry Doc
      → Option Doc × Registry Doc
  unfolding load
  acquire_doc id snapshot logged docs = elim (find id docs) [
    | some existing ↦ (some existing.doc, docs)
    | none ↦ elim (load snapshot logged) [
      | none ↦ (none, remove id docs)
      | some entry ↦ (some entry.doc, put id entry docs)
    ]
  ]

  unfoldable pub peek_doc : Text → Registry Doc → Option Doc
  peek_doc id docs = elim (find id docs) [ none ↦ none | some entry ↦ some entry.doc ]

  unfoldable pub track_socket : Text → Text → Registry Doc → Registry Doc
  unfolding modify
  track_socket id socket = modify id (λ entry. record entry { sockets = add socket entry.sockets })

  unfoldable pub untrack_socket : Text → Text → Registry Doc → Bool × Registry Doc
  untrack_socket id socket docs = elim (find id docs) [
    | none ↦ (false, docs)
    | some entry ↦
        let sockets = without socket entry.sockets in
        (is_empty sockets, put id (record entry { sockets = sockets }) docs)
  ]

  unfoldable pub socket_count : Text → Registry Doc → ℕ
  socket_count id docs = elim (find id docs) [ none ↦ 0 | some entry ↦ length entry.sockets ]

  unfoldable pub mark_dirty : Text → Registry Doc → Registry Doc
  unfolding modify
  mark_dirty id = modify id (λ entry. record entry { dirty = true })

  unfoldable pub clear_dirty : Text → Registry Doc → Registry Doc
  unfolding modify
  clear_dirty id = modify id (λ entry. record entry { dirty = false })

  abbrev pub fits : ℕ → ℕ → Bool
  fits bytes incoming = leb (bytes + incoming) max_board_bytes

  -- The measurement of `hasRoom`, at most once in `measure_min_ms`.
  unfoldable pub measure : ℕ → DocEntry Doc → DocEntry Doc
  measure now entry =
      if leb measure_min_ms (now - entry.measured_at)
      then record entry { bytes = byte_length (encode_state entry.doc); measured_at = now }
      else entry

  unfoldable pub has_room : Text → ℕ → ℕ → Registry Doc → Bool × Registry Doc
  unfolding measure
  has_room id incoming now docs = elim (find id docs) [
    | none ↦ (true, docs)
    | some entry ↦
        if fits entry.bytes incoming
        then (true, docs)
        else (let entry' = measure now entry in (fits entry'.bytes incoming, put id entry' docs))
  ]

  unfoldable pub add_bytes : Text → ℕ → Registry Doc → Registry Doc
  unfolding modify
  add_bytes id bytes = modify id (λ entry. record entry { bytes = entry.bytes + bytes })

  unfoldable pub set_bytes : Text → ℕ → ℕ → Registry Doc → Registry Doc
  unfolding modify
  set_bytes id bytes now = modify id (λ entry. record entry { bytes = bytes; measured_at = now })

  unfoldable pub dirty_board_ids : Registry Doc → List Text
  dirty_board_ids docs = map (λ e. e.0) (filter (λ e. e.1.dirty) docs)

  unfoldable pub release_doc : Text → Registry Doc → Registry Doc
  release_doc = remove
