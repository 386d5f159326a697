-- ===== src/Realtime/UpdateLog.antt =====
-- back-end/src/realtime/update-log.ts: what a board has accepted since its last snapshot, and
-- `updateLog` of back-end/src/redis/keys.ts. Whether a Redis command takes effect, and whether its
-- caller hears of it, is an argument: `bounded` fails a command that Redis does not take at once or
-- in time, and one that is given up on may still be carried out.
pub mod Trim
use skrivle.Prelude.{
  ℕ, ◌+◌, Bool, true, false, Option, none, some, List, [], ◌∷◌, ◌++◌, map, ◌&&◌, Text, text_eq,
  nat_eq, codes, ◌==◌, drop, length, filter, if◌then◌else◌,
}
use skrivle.Services.{Yjs, Redis}

-- What became of a command.
pub data Outcome : Type 0 where
  answered unheard not_run : Outcome

abbrev pub runs : Outcome → Bool
runs answered = true
runs unheard = true
runs not_run = false

abbrev pub heard : Outcome → Bool
heard answered = true
heard unheard = false
heard not_run = false

abbrev pub update_prefix : Text
update_prefix = codes "u:"

abbrev pub seal_prefix : Text
seal_prefix = codes "s:"

-- keys.updateLog
unfoldable pub log_key : Text → Text
log_key board_id = codes "ulog:" ++ board_id

-- String.prototype.startsWith
unfoldable pub starts_with : Text → Text → Bool
starts_with [] s = true
starts_with (c ∷ p) [] = false
starts_with (c ∷ p) (d ∷ s) = c == d && starts_with p s

module _ ⦃y : Yjs⦄ ⦃r : Redis (y.Update)⦄ where
  open y use {Update}
  open r use {Db, lrange, rpush, lpos, ltrim, del, to_base64, from_base64}

  abbrev pub update_entry : Update → Text
  update_entry u = update_prefix ++ to_base64 u

  -- appendUpdate
  unfoldable pub append_update : Outcome → Text → Update → Db → Db
  append_update o board_id update db =
      if runs o then rpush (log_key board_id) (update_entry update) db else db

  -- What `readUpdates` makes of the entries: the updates' bytes, oldest first.
  unfoldable pub decode_entries : List Text → List Update
  decode_entries entries =
      map (λ e. from_base64 (drop (length update_prefix) e))
        (filter (starts_with update_prefix) entries)

  -- readUpdates; `none` is the rejection of a log that could not be read.
  unfoldable pub read_updates : Outcome → Text → Db → Option (List Update)
  unfolding decode_entries
  read_updates o board_id db =
      if heard o then some (decode_entries (lrange db (log_key board_id))) else none

  -- sealLog: the seal that `Date.now()` and the counter name, and null unless its push was answered.
  unfoldable pub seal_log : Outcome → Text → Text → Db → Option Text × Db
  seal_log o board_id stamp db =
      let seal = seal_prefix ++ stamp in
      let db' = if runs o then rpush (log_key board_id) seal db else db in
      (if heard o then some seal else none, db')

  -- TRIM_THROUGH
  unfoldable pub trim_through : Text → Text → Db → Db
  trim_through key seal db = elim (lpos db key seal) [ none ↦ db | some at ↦ ltrim key (at + 1) db ]

  -- trimLog
  unfoldable pub trim_log : Outcome → Text → Option Text → Db → Db
  trim_log o board_id none db = db
  trim_log o board_id (some seal) db =
      if runs o then trim_through (log_key board_id) seal db else db

  -- dropLogs: one DEL names every key.
  unfoldable pub del_all : List Text → Db → Db
  del_all [] db = db
  del_all (id ∷ ids) db = del_all ids (del (log_key id) db)

  unfoldable pub drop_logs : Outcome → List Text → Db → Db
  unfolding del_all
  drop_logs o board_ids db = if runs o then del_all board_ids db else db
