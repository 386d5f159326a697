-- ===== src/Realtime/Bridge/Relay.antt =====
-- back-end/src/realtime/yjs-bridge.ts: what is sent to the room is what is logged and saved.
use skrivle.Prelude.{◌+◌, ◌≡◌, true, some, arith, Text, text_eq, ==_refl, find, find-put}
use skrivle.Services.{Yjs, Redis}
use skrivle.Realtime.UpdateLog.{Outcome, append_update}
use skrivle.Realtime.DocManager.{Registry, DocEntry, modify, add_bytes, mark_dirty}
use skrivle.Realtime.Bridge.{merged, save_change, set_doc, integrate}

module _ ⦃y : Yjs⦄ ⦃r : Redis (y.Update)⦄ where
  open y use {Doc, Update, apply_update, byte_length, observed, drop_pending}
  open r use {Db}

  pub find-modify :
      (id : Text) (change : DocEntry Doc → DocEntry Doc) (docs : Registry Doc)
      (entry : DocEntry Doc)
      → find id docs ≡ some entry
      → find id (modify id change docs) ≡ some (change entry)
  unfolding modify
  find-modify id change docs entry e =
      ground (arith, find-put id id (change entry) docs, ==_refl id)

  abbrev pub changed_entry : DocEntry Doc → Doc → Update → DocEntry Doc
  changed_entry entry doc c = record entry {
    doc = doc;
    bytes = entry.bytes + byte_length c;
    dirty = true;
  }

  find-save_change :
      (o : Outcome) (id : Text) (c : Update) (doc : Doc) (docs : Registry Doc) (db : Db)
      (entry : DocEntry Doc)
      → find id docs ≡ some entry
      → find id (save_change o id c (set_doc id doc docs) db).0 ≡ some (changed_entry entry doc c)
  unfolding save_change set_doc mark_dirty add_bytes
  find-save_change o id c doc docs db entry e =
      find-modify id _ _ _ (find-modify id _ _ _ (find-modify id _ docs entry e))

  -- When an update that passed the guards changed the document, the one change that Yjs reported is
  -- what is logged, what the room is sent, and what the board's size grows by; the board is flagged
  -- for a snapshot, and its document is the one with the update applied and nothing left pending.
  pub integrate-saves :
      (o : Outcome) (id : Text) (update c : Update) (doc : Doc) (docs : Registry Doc) (db : Db)
      (entry : DocEntry Doc)
      → find id docs ≡ some entry
      → merged (observed doc update) ≡ some c
      → ((integrate o id update doc docs db).relayed ≡ some c)
        × ((integrate o id update doc docs db).db ≡ append_update o id c db)
        × (find id (integrate o id update doc docs db).docs
            ≡ some (changed_entry entry (drop_pending (apply_update doc update).0) c))
  unfolding integrate save_change
  integrate-saves o id update c doc docs db entry found e = ground (
    arith,
    find-save_change o id c (drop_pending (apply_update doc update).0) docs db entry found,
  )
