-- ===== src/Examples/Presence.antt =====
-- Cursors: who may move them, and what becomes of them.
use skrivle.Prelude.{
  ℕ, ◌≡◌, refl, true, false, ◌&&◌, Option, none, some, [], ◌∷◌, Text, codes, text_eq, nat_eq,
  text_beq, has, find, if◌then◌else◌, arith,
}
use skrivle.Examples.Services.{plain_lib0, map_awareness}
use skrivle.Realtime.Awareness.{
  Owner, AwarenessSocket, Room, Entry, Relay, claim, claim_all, decode_count, decode_entries,
  encode_each, encode_entries, relay_own, apply_client_awareness, release_clients,
}
use skrivle.Realtime.Awareness.Entries.{decode-encode}
use skrivle.Realtime.Awareness.Claims.{foreign-untouched}
use skrivle.Realtime.Awareness.Departures.{left, last_held, departure}

abbrev ann : AwarenessSocket
ann = record { id = codes "s1"; presence_key = codes "ann"; awareness_clients = 7 ∷ [] }

abbrev ben : AwarenessSocket
ben = record { id = codes "s2"; presence_key = codes "ben"; awareness_clients = [] }

abbrev anns : Owner
anns = record { key = codes "ann"; sockets = codes "s1" ∷ [] }

abbrev room : Room (ℕ → Option Text)
room = record { states = λ c. some (codes "{}"); owners = (7, anns) ∷ [] }

abbrev moved : Entry
moved = record { client_id = 7; clock = 2; state = codes "1"; retraction = false }

abbrev gone : Entry
gone = record { client_id = 8; clock = 1; state = codes "null"; retraction = true }

abbrev relayed : Relay
relayed = record { room = room; socket = ben; allowed = none }

-- Somebody else tries to move the cursor.
foreign-untouched_example :
    (find 7 relayed.room.owners ≡ some anns) × (relayed.room.states 7 ≡ room.states 7)
unfolding apply_client_awareness decode_entries decode_count encode_entries encode_each claim_all
    claim relay_own find text_beq
foreign-untouched_example =
    foreign-untouched room (encode_entries (moved ∷ [])) ben relayed 7 anns refl refl
      (λ e. ground arith)

decode-encode_example :
    decode_entries (encode_entries (moved ∷ gone ∷ [])) ≡ some (moved ∷ gone ∷ [])
unfolding text_beq
decode-encode_example = decode-encode (moved ∷ gone ∷ []) (refl, (refl, tt))

departure_example :
    (find 7 (release_clients room ann).0.owners ≡ (
      if has 7 ann.awareness_clients then left ann.id (find 7 room.owners) else find 7 room.owners))
    × ((release_clients room ann).0.states 7 ≡ (
        if has 7 ann.awareness_clients && last_held ann.id (find 7 room.owners)
        then none
        else room.states 7))
departure_example = departure room ann 7

abbrev twice : Owner
twice = record { key = codes "ann"; sockets = codes "s1" ∷ codes "s3" ∷ [] }

abbrev rejoined : Room (ℕ → Option Text)
rejoined = record { states = λ c. some (codes "{}"); owners = (7, twice) ∷ [] }
