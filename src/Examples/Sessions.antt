-- ===== src/Examples/Sessions.antt =====
-- A browser on a board: offline work, the server's closes, the cursor.
use skrivle.Prelude.{
  ℕ, ◌≡◌, ◌⊎◌, inl, refl, true, false, none, some, List, [], ◌∷◌, Text, codes, text_eq, text_beq,
  find, nat_eq, Among-append_right,
}
use skrivle.Examples.Numbers.{halves}
use skrivle.Examples.Services.{list_yjs, list_redis}
use skrivle.Realtime.DocManager.{Registry, new_entry}
use skrivle.Browser.Copies.{CopyEntry}
use skrivle.Browser.Cursor.{Point, Throttle, negligible, flush, set_cursor}
use skrivle.Browser.Cursor.Arrival.{pointer, timer, follow, follow-arrives, flush-stale}
use skrivle.Browser.Session.State.{local, Options, BoardJoined}
use skrivle.Browser.Session.Local.{Session, connect}
use skrivle.Browser.Session.Steps.{
  Event, opens, joins, edited, hydrate_times_out, rejoin_times_out, create_board_session, step,
}
use skrivle.Browser.Session.Outbox.{flagged, OnWire, Course, begun, edits}
use skrivle.Browser.Session.Outbox.Flagged.{Course-flagged_or_sent}
use skrivle.Browser.Session.Settling.{run, joined-shown}
use skrivle.Browser.Session.Rejoining.{closed_by_server, turned_away, doubled, turned_away-returns}

abbrev here : Point
here = record { x = 10; y = 10 }

abbrev away : Point
away = record { x = 90; y = 10 }

abbrev pointing : Throttle
pointing = record { pending = none; has_pending = false; published = some here; flush_timer = true }

follow-arrives_example :
    follow (pointer 0 (some away) ∷ timer 50 ∷ timer 100 ∷ []) pointing ≡ record {
      pending = some away;
      has_pending = false;
      published = some away;
      flush_timer = false;
    }
unfolding negligible
follow-arrives_example = follow-arrives 0 50 100 (some away) pointing refl

flush-stale_example :
    (flush 50
      (set_cursor 20
        (some here)
        (set_cursor 10 (some away) pointing).throttle).throttle).throttle.published
    ≡ some away
unfolding negligible
flush-stale_example = flush-stale 10 20 50 here away here pointing refl refl refl refl

abbrev options : Options
options = record {
  name = codes "Ann";
  avatar_url = none;
  client_id = 7;
  palette = codes "red" ∷ [];
  copy_name = codes "c";
  storage = true;
}

abbrev clean : CopyEntry
clean = record { at = 0; unsynced = false }

abbrev fresh_session : Session
fresh_session = create_board_session options [] (some true) ((codes "c", clean) ∷ [])

abbrev edit : Event
edit = edited local (5 ∷ []) (5 ∷ [])

-- Drawn before the socket is up.
abbrev offline : Session
offline = (step options edit fresh_session).0

abbrev offline_course : Course options fresh_session offline ((5 ∷ []) ∷ []) []
unfolding step create_board_session
offline_course =
    edits begun local (5 ∷ []) (5 ∷ [])
      (λ w h n a. Among-append_right n (5 ∷ []) [] (elim (h n a) [ ])) (λ n a. a)

Course-flagged_or_sent_example : (flagged (codes "c") offline.index ≡ true) ⊎ OnWire (5 ∷ []) []
unfolding find text_beq create_board_session
Course-flagged_or_sent_example =
    Course-flagged_or_sent options fresh_session offline ((5 ∷ []) ∷ []) [] (5 ∷ []) refl refl refl
      offline_course (inl refl)

abbrev welcome : BoardJoined
welcome = record {
  color = some (codes "red");
  id = none;
  name = some (codes "Ann");
  signed_in = none;
}

joined-shown_example :
    (step options hydrate_times_out
      (run options (opens ∷ joins welcome ∷ []) fresh_session).0).0.state.hydrated
    ≡ true
unfolding run step create_board_session
joined-shown_example =
    joined-shown options [] (some true) ((codes "c", clean) ∷ []) (opens ∷ joins welcome ∷ []) refl
      refl

turned_away-returns_example :
    ((step options closed_by_server (turned_away options 4 fresh_session)).0.rejoin_timer
      ≡ some 30000)
    × ((step options rejoin_times_out
          (step options closed_by_server (turned_away options 4 fresh_session)).0).1
        ≡ (connect ∷ []))
unfolding doubled create_board_session
turned_away-returns_example = turned_away-returns options 4 fresh_session refl refl refl

abbrev board_docs : Registry (List ℕ)
board_docs = (codes "b", record new_entry { doc = 1 ∷ [] }) ∷ []

abbrev drawing : Session
drawing = create_board_session options (5 ∷ []) none []

abbrev served : List (Text × List Text)
served = []
