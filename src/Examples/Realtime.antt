-- ===== src/Examples/Realtime.antt =====
-- Runs of the real-time server on documents and lists that compute.
use skrivle.Prelude.{
  ℕ, ◌+◌, ◌*◌, ◌≤◌, ◌≡◌, refl, true, false, inl, inr, some, List, [], ◌∷◌, Text, codes, text_eq,
  nat_eq, has, find, put, text_beq, arith,
}
use skrivle.Examples.Services.{list_yjs, list_redis}
use skrivle.Realtime.Limits.{
  Bucket, per, units, sync_update, sync_bytes, new_bucket, resync_after_ms, refilled,
}
use skrivle.Realtime.Limits as Limits
use skrivle.Realtime.Limits.Budget.{spend, spend-le}
use skrivle.Realtime.UpdateLog.{answered, unheard, log_key, append_update, decode_entries}
use skrivle.Realtime.DocManager.{
  DocEntry, Registry, replay, rehydrate, recover, load, acquire_doc, peek_doc, has_room, measure,
  modify,
}
use skrivle.Realtime.Bridge.{refused, admit, make_room, save_change, set_doc, apply_client_update}
use skrivle.Realtime.Bridge.Refusals.{Untouched, refused-Untouched}
use skrivle.Realtime.Snapshot.{Board, Moment, persist_snapshot}
use skrivle.Realtime.Snapshot.Steps.{
  Reach, here, next, accepts, persists, opens, crashes, entries, accept, open_board, crash,
}
use skrivle.Realtime.Snapshot.Durability.Reload.{new_board, HoldsAll, reload-holds}
use skrivle.Realtime.Gateway.{new_socket, throttle, on_sync_update}
use skrivle.Realtime.Gateway.CatchUp.{owes, held_back-owes}

abbrev board_id : Text
board_id = codes "b"

abbrev stroke : List ℕ
stroke = 3 ∷ []

abbrev entry_of : List ℕ → ℕ → ℕ → DocEntry (List ℕ)
entry_of doc bytes at = record {
  doc = doc;
  sockets = [];
  dirty = false;
  bytes = bytes;
  measured_at = at;
}

abbrev docs_of : DocEntry (List ℕ) → Registry (List ℕ)
docs_of entry = (board_id, entry) ∷ []

abbrev Store : Type 0
Store = List (Text × List Text)

abbrev RunState : Type 0
RunState = Board (List ℕ) (List ℕ) Store

abbrev made : RunState
made = new_board board_id []

abbrev opened : RunState
opened = open_board board_id made

abbrev drawn : RunState
drawn = accept unheard board_id stroke stroke opened

abbrev moment : Moment
moment = record { stamp = codes "1-1"; pushed = answered; now = 7 }

abbrev saving : RunState
saving = persist_snapshot board_id moment drawn

abbrev crashed : RunState
crashed = crash saving

stroke_run : Reach board_id made [] crashed (stroke ∷ [])
unfolding open_board acquire_doc load rehydrate recover replay peek_doc find accept save_change
    set_doc modify append_update has put text_beq decode_entries log_key
stroke_run =
    next
      (next
        (next (next here (opens made [])) (
          accepts opened [] unheard [] stroke stroke refl refl tt (λ d. refl)
            (λ e h. ((λ n a. elim a [ ]), h)) (λ e h k. k) refl))
        (persists drawn (stroke ∷ []) moment refl))
      (crashes saving (stroke ∷ []))

-- The server opens a board, takes a stroke, starts to save it and crashes.
reload-holds_example :
    (entry : DocEntry (List ℕ)) × (load
        (some crashed.stored)
        (some (decode_entries (entries board_id crashed)))
      ≡ some entry)
    × HoldsAll board_id entry.doc (stroke ∷ [])
    × (list_yjs.has_pending entry.doc ≡ false)
unfolding log_key find
reload-holds_example = reload-holds board_id [] crashed (stroke ∷ []) refl stroke_run

-- The board is full: its document was measured just now, and its size is at the ceiling.
refused-Untouched_example : Untouched board_id (docs_of (entry_of (1 ∷ []) 4194304 0)) [] (
    apply_client_update true answered 9 board_id stroke
      (1 ∷ [])
      (docs_of (entry_of (1 ∷ []) 4194304 0))
      [])
unfolding apply_client_update admit make_room has_room measure refused find text_beq put
refused-Untouched_example =
    refused-Untouched true answered 9 board_id stroke (1 ∷ [])
      (docs_of (entry_of (1 ∷ []) 4194304 0)) [] (inr (inr (inl refl)))

abbrev drained : Bucket
drained = record { tokens = 0; at = 5 }

spend-le_example :
    (spend sync_update (new_bucket sync_update 5) ((200, 6) ∷ (100, 7) ∷ [])).1 * units + 5 * 300
    ≤ 240 * units
      + (spend sync_update (new_bucket sync_update 5) ((200, 6) ∷ (100, 7) ∷ [])).0.at * 300
spend-le_example =
    spend-le sync_update 5 ((200, 6) ∷ (100, 7) ∷ []) (omega arith, (omega arith, tt))

-- The first update of a socket, to a full board.
held_back-owes_example :
    owes
      (on_sync_update 1 true answered 9 board_id
        (some stroke)
        (1 ∷ [])
        (new_socket 1 0)
        (docs_of (entry_of (1 ∷ []) 4194304 0))
        []).socket
    ≡ true
unfolding on_sync_update throttle new_socket new_bucket per Limits.take refilled apply_client_update
    admit make_room has_room measure refused find text_beq put
held_back-owes_example =
    held_back-owes 1 9 true answered board_id stroke (1 ∷ []) (new_socket 1 0)
      (docs_of (entry_of (1 ∷ []) 4194304 0)) [] refl
