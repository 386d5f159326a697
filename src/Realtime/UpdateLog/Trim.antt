-- ===== src/Realtime/UpdateLog/Trim.antt =====
-- back-end/src/realtime/update-log.ts: what is in a log after each operation on it.
use skrivle.Prelude.{
  suc, ◌+◌, ◌≡◌, refl, ap, true, false, none, some, List, [], ◌∷◌, ◌++◌, arith, Text, text_eq,
  nat_eq, ==_refl, drop, length, filter-append, has, if◌then◌else◌,
}
use mathlib.Core.List.{map-append}
use skrivle.Services.{Yjs, Redis, index_of}
use skrivle.Realtime.UpdateLog.{
  Outcome, runs, answered, update_prefix, seal_prefix, log_key, starts_with, update_entry,
  append_update, decode_entries, read_updates, seal_log, trim_through,
}

index_of-none : (x : Text) (xs : List Text) → has x xs ≡ false → index_of x xs ≡ none
unfolding index_of has
index_of-none x [] h = refl
index_of-none x (y ∷ ys) h = ground (arith, index_of-none x ys)

index_of-split :
    (x : Text) (pre post : List Text)
    → has x pre ≡ false
    → index_of x (pre ++ x ∷ post) ≡ some (length pre)
unfolding index_of has
index_of-split x [] post h = ground (arith, ==_refl x)
index_of-split x (y ∷ pre) post h = ground (arith, index_of-split x pre post)

drop-split : (x : Text) (pre post : List Text) → drop (length pre + 1) (pre ++ x ∷ post) ≡ post
drop-split x [] post = refl
drop-split x (y ∷ pre) post =
    let e : suc (length pre) + 1 ≡ suc (length pre + 1) = omega arith in
    rw e (drop-split x pre post)

starts_with-append : (p s : Text) → starts_with p (p ++ s) ≡ true
unfolding starts_with
starts_with-append [] s = refl
starts_with-append (c ∷ p) s = ground (arith, ==_refl c, starts_with-append p s)

module _ ⦃y : Yjs⦄ ⦃r : Redis (y.Update)⦄ where
  open y use {Update}
  open r use {Db, lrange}

  pub decode-append :
      (xs ys : List Text) → decode_entries (xs ++ ys) ≡ decode_entries xs ++ decode_entries ys
  unfolding decode_entries
  decode-append xs ys = rw (filter-append (starts_with update_prefix) xs ys) (map-append _ _ _)

  pub decode-update_entry : (u : Update) → decode_entries (update_entry u ∷ []) ≡ u ∷ []
  unfolding decode_entries starts_with
  decode-update_entry u = ap (λ x. x ∷ []) (r.from_base64-to_base64 u)

  pub decode-seal_entry : (stamp : Text) → decode_entries ((seal_prefix ++ stamp) ∷ []) ≡ []
  unfolding decode_entries starts_with
  decode-seal_entry stamp = refl

  -- The script cuts the list just past the first copy of the seal, and keeps what follows it.
  pub trim_through-split :
      (key seal : Text) (db : Db) (pre post : List Text)
      → lrange db key ≡ pre ++ seal ∷ post
      → has seal pre ≡ false
      → lrange (trim_through key seal db) key ≡ post
  unfolding trim_through
  trim_through-split key seal db pre post e h = ground (
    arith,
    r.lpos-lrange key seal db,
    ap (index_of seal) e,
    index_of-split seal pre post h,
    r.lrange-ltrim key key (length pre + 1) db,
    ==_refl key,
    ap (drop (length pre + 1)) e,
    drop-split seal pre post,
  )

  -- Without the seal it leaves the list alone.
  pub trim_through-absent :
      (key seal : Text) (db : Db) → has seal (lrange db key) ≡ false → trim_through key seal db ≡ db
  unfolding trim_through
  trim_through-absent key seal db h =
      ground (arith, r.lpos-lrange key seal db, index_of-none seal (lrange db key) h)

  pub lrange-append_update :
      (o : Outcome) (id : Text) (u : Update) (db : Db)
      → lrange (append_update o id u db) (log_key id)
        ≡ (if runs o then lrange db (log_key id) ++ update_entry u ∷ [] else lrange db (log_key id))
  unfolding append_update
  lrange-append_update o id u db =
      ground
        (arith, r.lrange-rpush (log_key id) (log_key id) (update_entry u) db, ==_refl (log_key id))

  pub lrange-seal_log :
      (o : Outcome) (id stamp : Text) (db : Db)
      → lrange (seal_log o id stamp db).1 (log_key id) ≡ (
          if runs o
          then lrange db (log_key id) ++ (seal_prefix ++ stamp) ∷ []
          else lrange db (log_key id))
  unfolding seal_log
  lrange-seal_log o id stamp db = ground (
    arith,
    r.lrange-rpush (log_key id) (log_key id) (seal_prefix ++ stamp) db,
    ==_refl (log_key id),
  )

  -- What was appended is read back, after what was there: for an append that Redis carried out and
  -- a read that it answers, whether or not the append's caller heard.
  pub read-append :
      (o : Outcome) (id : Text) (u : Update) (db : Db)
      → runs o ≡ true
      → read_updates answered id (append_update o id u db)
        ≡ some (decode_entries (lrange db (log_key id)) ++ u ∷ [])
  unfolding read_updates
  read-append o id u db h = rw (
    lrange-append_update o id u db,
    h,
    decode-append (lrange db (log_key id)) (update_entry u ∷ []),
    decode-update_entry u,
  )
