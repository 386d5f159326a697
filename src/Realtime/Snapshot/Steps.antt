-- ===== src/Realtime/Snapshot/Steps.antt =====
-- back-end/src/realtime: what can happen to a board, as steps between its states. The parts of the
-- handlers that run between two awaits are single steps, and Redis runs the commands of its one
-- connection in the order in which they were issued.
use skrivle.Prelude.{◌≡◌, true, false, none, some, List, [], ◌∷◌, Text, text_eq, has, ◌++◌}
use skrivle.Services.{Yjs, Redis}
use skrivle.Realtime.UpdateLog.{Outcome, runs, log_key, seal_prefix, decode_entries}
use skrivle.Realtime.DocManager.{peek_doc, acquire_doc, track_socket, untrack_socket, release_doc}
use skrivle.Realtime.DocManager.Loading.{Readable}
use skrivle.Realtime.Bridge.{save_change, set_doc}
use skrivle.Realtime.Snapshot.{
  Board, Flight, Moment, persist_snapshot, save_lands, save_fails, trim_ends,
}

module _ ⦃y : Yjs⦄ ⦃r : Redis (y.Update)⦄ where
  open y use {Doc, Update, Holds, Fits, encode_state, has_pending}
  open r use {Db, lrange}

  abbrev pub entries : Text → Board Doc Update Db → List Text
  entries id b = lrange b.db (log_key id)

  -- The tail of applyClientUpdate, on a board: its document is now `doc`, and `change` is saved.
  unfoldable pub accept : Outcome → Text → Doc → Update → Board Doc Update Db → Board Doc Update Db
  accept o id doc change b =
      let (docs, db) = save_change o id change (set_doc id doc b.docs) b.db in
      record b { docs = docs; db = db }

  -- The process is gone, and with it all that is in memory.
  unfoldable pub crash : Board Doc Update Db → Board Doc Update Db
  crash b = record b { docs = []; flight = none; waiting = 0 }

  -- acquireDoc with both reads answered.
  unfoldable pub open_board : Text → Board Doc Update Db → Board Doc Update Db
  open_board id b = record b {
    docs = (acquire_doc id (some b.stored) (some (decode_entries (entries id b))) b.docs).1;
  }

  abbrev pub IsFresh : Text → Moment → Board Doc Update Db → Type 0
  IsFresh id m b = has (seal_prefix ++ m.stamp) (entries id b) ≡ false

  -- `log` lists the changes that were accepted. Redis carries out the append of each, heard or not: one
  -- that it does not carry out leaves a gap in the log, on which later entries may build. Yjs's part
  -- in an accepted change is its premises: what it reports builds on the old document, can be
  -- applied to any document and is the difference of the new document to the old one, and nothing
  -- is left pending. A seal's name is new to the log: it has the time and a counter.
  pub data Step (id : Text)
      : Board Doc Update Db → List Update → Board Doc Update Db → List Update → Type 0 where
    accepts :
        (b : Board Doc Update Db) (log : List Update) (o : Outcome) (old new : Doc)
        (change : Update)
        → peek_doc id b.docs ≡ some old
        → runs o ≡ true
        → Fits old change
        → Readable change
        → ((e : Doc) → Holds e (encode_state new) → Holds e (encode_state old) × Holds e change)
        → ((e : Doc) → Holds e (encode_state old) → Holds e change → Holds e (encode_state new))
        → has_pending new ≡ false
        → Step id b log (accept o id new change b) (change ∷ log)
    persists :
        (b : Board Doc Update Db) (log : List Update) (m : Moment)
        → IsFresh id m b
        → Step id b log (persist_snapshot id m b) log
    lands :
        (b : Board Doc Update Db) (log : List Update) (w : Flight Update)
        → b.flight ≡ some w
        → w.landed ≡ false
        → Step id b log (save_lands b) log
    fails :
        (b : Board Doc Update Db) (log : List Update) (w : Flight Update) (m : Moment)
        → b.flight ≡ some w
        → w.landed ≡ false
        → IsFresh id m b
        → Step id b log (save_fails id m b) log
    trims :
        (b : Board Doc Update Db) (log : List Update) (w : Flight Update) (o : Outcome) (m : Moment)
        → b.flight ≡ some w
        → w.landed ≡ true
        → IsFresh id m b
        → Step id b log (trim_ends o id m b) log
    joins :
        (b : Board Doc Update Db) (log : List Update) (socket : Text)
        → Step id b log (record b { docs = track_socket id socket b.docs }) log
    leaves :
        (b : Board Doc Update Db) (log : List Update) (socket : Text)
        → Step id b log (record b { docs = (untrack_socket id socket b.docs).1 }) log
    opens : (b : Board Doc Update Db) (log : List Update) → Step id b log (open_board id b) log
    releases :
        (b : Board Doc Update Db) (log : List Update)
        → Step id b log (record b { docs = release_doc id b.docs }) log
    crashes : (b : Board Doc Update Db) (log : List Update) → Step id b log (crash b) log

  pub data Reach (id : Text) (b : Board Doc Update Db) (log : List Update)
      : Board Doc Update Db → List Update → Type 0 where
    here : Reach id b log b log
    next :
        {b' b'' : Board Doc Update Db} {log' log'' : List Update}
        → Reach id b log b' log'
        → Step id b' log' b'' log''
        → Reach id b log b'' log''
