-- ===== src/Realtime/Bridge/Applying.antt =====
-- back-end/src/realtime/yjs-bridge.ts: where the registry's document stands after an update that was
-- applied.
use skrivle.Prelude.{
  ℕ, Bool, ◌≡◌, ◌∙◌, true, false, some, Option-cases, inl, inr, arith, Text, text_eq, ==_refl, find,
  find-put,
}
use skrivle.Services.{Yjs, Redis}
use skrivle.Realtime.UpdateLog.{Outcome}
use skrivle.Realtime.DocManager.{Registry, modify, peek_doc, add_bytes}
use skrivle.Realtime.DocManager.Peek.{peek-mark_dirty, peek-add_bytes}
use skrivle.Realtime.Bridge.{
  applied, admit, merged, save_change, set_doc, refused, integrate, apply_client_update,
}
use skrivle.Realtime.Bridge.Refusals.{peek-admit}

module _ ⦃y : Yjs⦄ ⦃r : Redis (y.Update)⦄ where
  open y use {Doc, Update, apply_update, drop_pending, observed, byte_length}
  open r use {Db}

  peek-set_doc :
      (id : Text) (d e : Doc) (docs : Registry Doc)
      → peek_doc id docs ≡ some e
      → peek_doc id (set_doc id d docs) ≡ some d
  unfolding peek_doc set_doc modify
  peek-set_doc id d e docs h = elim (Option-cases (find id docs)) [
    | inl n ↦ ground arith
    | inr (entry, s) ↦ ground (arith, find-put id id (record entry { doc = d }) docs, ==_refl id)
  ]

  peek-integrate :
      (o : Outcome) (id : Text) (update : Update) (doc e : Doc) (docs : Registry Doc) (db : Db)
      → peek_doc id docs ≡ some e
      → peek_doc id (integrate o id update doc docs db).docs
        ≡ some (drop_pending (apply_update doc update).0)
  unfolding integrate save_change
  peek-integrate o id update doc e docs db h =
      let d = drop_pending (apply_update doc update).0 in
      let there = peek-set_doc id d e docs h in
      elim (Option-cases (merged (observed doc update))) [
        | inl n ↦ ground (arith, there)
        | inr (c, s) ↦ ground (
          arith,
          there,
          peek-add_bytes id (byte_length c) (set_doc id d docs),
          peek-mark_dirty id (add_bytes id (byte_length c) (set_doc id d docs)),
        )
      ]

  -- An update that was applied is in the document that the registry holds from then on.
  pub peek-applied :
      (current : Bool) (o : Outcome) (now : ℕ) (id : Text) (update : Update) (doc e : Doc)
      (docs : Registry Doc) (db : Db)
      → peek_doc id docs ≡ some e
      → (apply_client_update current o now id update doc docs db).status ≡ applied
      → peek_doc id (apply_client_update current o now id update doc docs db).docs
        ≡ some (drop_pending (apply_update doc update).0)
  unfolding apply_client_update refused admit
  peek-applied false o now id update doc e docs db h ok = ground arith
  peek-applied true o now id update doc e docs db h ok =
      let docs' = (admit id now update doc docs).1 in
      let there = peek-admit id now update doc docs in
      elim (Option-cases (admit id now update doc docs).0) [
        | inl n ↦
            rw (apply_client_update, n) (peek-integrate o id update doc e docs' db (there ∙ h))
        | inr (status, s) ↦ ground arith
      ]
