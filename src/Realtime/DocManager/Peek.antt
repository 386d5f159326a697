-- ===== src/Realtime/DocManager/Peek.antt =====
-- back-end/src/realtime/doc-manager.ts: which operations leave a board's document alone.
use skrivle.Prelude.{
  ℕ, ◌≡◌, refl, none, arith, Text, text_eq, ==_refl, find, without, find-put, find-remove,
  Option-cases, inl, inr,
}
use skrivle.Services.{Yjs}
use skrivle.Realtime.DocManager.{
  DocEntry, Registry, modify, peek_doc, track_socket, untrack_socket, mark_dirty, clear_dirty,
  add_bytes, set_bytes, release_doc,
}

module _ ⦃y : Yjs⦄ where
  open y use {Doc}

  peek-modify :
      (id : Text) (change : DocEntry Doc → DocEntry Doc) (docs : Registry Doc)
      → ((e : DocEntry Doc) → (change e).doc ≡ e.doc)
      → peek_doc id (modify id change docs) ≡ peek_doc id docs
  unfolding modify peek_doc
  peek-modify id change docs same = elim (Option-cases (find id docs)) [
    | inl e ↦ ground arith
    | inr (entry, e) ↦ ground (arith, find-put id id (change entry) docs, ==_refl id, same entry)
  ]

  pub peek-track_socket :
      (id s : Text) (docs : Registry Doc) → peek_doc id (track_socket id s docs) ≡ peek_doc id docs
  unfolding track_socket
  peek-track_socket id s docs = peek-modify id _ docs (λ e. refl)

  pub peek-mark_dirty :
      (id : Text) (docs : Registry Doc) → peek_doc id (mark_dirty id docs) ≡ peek_doc id docs
  unfolding mark_dirty
  peek-mark_dirty id docs = peek-modify id _ docs (λ e. refl)

  pub peek-clear_dirty :
      (id : Text) (docs : Registry Doc) → peek_doc id (clear_dirty id docs) ≡ peek_doc id docs
  unfolding clear_dirty
  peek-clear_dirty id docs = peek-modify id _ docs (λ e. refl)

  pub peek-add_bytes :
      (id : Text) (n : ℕ) (docs : Registry Doc)
      → peek_doc id (add_bytes id n docs) ≡ peek_doc id docs
  unfolding add_bytes
  peek-add_bytes id n docs = peek-modify id _ docs (λ e. refl)

  pub peek-set_bytes :
      (id : Text) (n now : ℕ) (docs : Registry Doc)
      → peek_doc id (set_bytes id n now docs) ≡ peek_doc id docs
  unfolding set_bytes
  peek-set_bytes id n now docs = peek-modify id _ docs (λ e. refl)

  pub peek-untrack_socket :
      (id s : Text) (docs : Registry Doc)
      → peek_doc id (untrack_socket id s docs).1 ≡ peek_doc id docs
  unfolding untrack_socket peek_doc
  peek-untrack_socket id s docs = elim (Option-cases (find id docs)) [
    | inl e ↦ ground arith
    | inr (entry, e) ↦ ground (
      arith,
      find-put id id (record entry { sockets = without s entry.sockets }) docs,
      ==_refl id,
    )
  ]

  pub peek-release_doc :
      (id : Text) (docs : Registry Doc) → peek_doc id (release_doc id docs) ≡ none
  unfolding release_doc peek_doc
  peek-release_doc id docs = ground (arith, find-remove id id docs, ==_refl id)
