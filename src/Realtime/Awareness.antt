-- ===== src/Realtime/Awareness.antt =====
-- back-end/src/realtime/awareness.ts: who may speak for a client id, and what is relayed.
-- The registry of rooms is a room at a time here; the socket, whose set of client ids these
-- functions change, comes back beside it.
pub mod Entries
pub mod Claims
pub mod Departures
use skrivle.Prelude.{
  ℕ, zero, suc, ◌+◌, ◌≤◌, Bool, true, false, not, ◌&&◌, Option, none, some, List, [], ◌∷◌, ◌++◌,
  map, Text, text_eq, nat_eq, ◌==◌, length, leb, if◌then◌else◌, find, put, remove, has, add,
  without,
}
use skrivle.Services.{Lib0, AwarenessProtocol}
use skrivle.Realtime.Limits.{max_client_ids_per_socket}
use skrivle.Realtime.DocManager.{is_empty}

pub record Owner : Type 0 where
  pub key : Text
  pub sockets : List Text

abbrev pub Owners : Type 0
Owners = List (ℕ × Owner)

pub record AwarenessSocket : Type 0 where
  pub id : Text
  pub presence_key : Text
  pub awareness_clients : List ℕ

pub record Room (States : Type 0) : Type 0 where
  pub states : States
  pub owners : Owners

pub record Entry : Type 0 where
  pub client_id : ℕ
  pub clock : ℕ
  pub state : Text
  pub retraction : Bool

module _ ⦃l : Lib0⦄ where
  open l use {encode_uint, encode_string, read_uint, read_string, parses_to_null}

  -- The loop of decodeEntries; `none` is a throw, of lib0 or of JSON.parse.
  unfoldable pub decode_count : ℕ → List ℕ → Option (List Entry)
  decode_count zero bytes = some []
  decode_count (suc n) bytes = elim (read_uint bytes) [
    | none ↦ none
    | some (client_id, bytes') ↦ elim (read_uint bytes') [
      | none ↦ none
      | some (clock, bytes'') ↦ elim (read_string bytes'') [
        | none ↦ none
        | some (state, rest) ↦ elim (parses_to_null state) [
          | none ↦ none
          | some retraction ↦ elim (decode_count n rest) [
            | none ↦ none
            | some entries ↦ some (
                record {
                  client_id = client_id;
                  clock = clock;
                  state = state;
                  retraction = retraction;
                }
                ∷ entries)
          ]
        ]
      ]
    ]
  ]

  unfoldable pub decode_entries : List ℕ → Option (List Entry)
  unfolding decode_count
  decode_entries update = elim (read_uint update) [
    | none ↦ none
    | some (count, bytes) ↦ decode_count count bytes
  ]

  unfoldable pub encode_each : List Entry → List ℕ
  encode_each [] = []
  encode_each (e ∷ entries) =
      encode_uint e.client_id
      ++ (encode_uint e.clock ++ (encode_string e.state ++ encode_each entries))

  unfoldable pub encode_entries : List Entry → List ℕ
  unfolding encode_each
  encode_entries entries = encode_uint (length entries) ++ encode_each entries

-- What a claim changes.
pub record Claimed : Type 0 where
  pub allowed : Bool
  pub owners : Owners
  pub socket : AwarenessSocket

abbrev pub denied : Owners → AwarenessSocket → Claimed
denied owners socket = record { allowed = false; owners = owners; socket = socket }

-- The socket speaks for the id from now on, under this owner.
abbrev pub granted : ℕ → Owner → Owners → AwarenessSocket → Claimed
granted client_id owner owners socket = record {
  allowed = true;
  owners = put client_id owner owners;
  socket = record socket { awareness_clients = add client_id socket.awareness_clients };
}

unfoldable pub claim : Owners → AwarenessSocket → Entry → Claimed
claim owners socket e = elim (find e.client_id owners) [
  | some owner ↦
      if owner.key == socket.presence_key
      then granted e.client_id (record owner { sockets = add socket.id owner.sockets }) owners
          socket
      else denied owners socket
  | none ↦
      if e.retraction
      then denied owners socket
      else if leb max_client_ids_per_socket (length socket.awareness_clients)
      then denied owners socket
      else granted e.client_id (record { key = socket.presence_key; sockets = socket.id ∷ [] })
          owners socket
]

-- entries.filter((entry) => claim(room, socket, entry))
pub record Filtered : Type 0 where
  pub own : List Entry
  pub owners : Owners
  pub socket : AwarenessSocket

unfoldable pub claim_all : Owners → AwarenessSocket → List Entry → Filtered
claim_all owners socket [] = record { own = []; owners = owners; socket = socket }
claim_all owners socket (e ∷ entries) =
    let c = claim owners socket e in
    let rest = claim_all c.owners c.socket entries in
    record {
      own = if c.allowed then e ∷ rest.own else rest.own;
      owners = rest.owners;
      socket = rest.socket;
    }

-- releaseClients, the loop: the owners left, and the ids that nobody holds any more.
unfoldable pub release_one : Text → ℕ → Owners × List ℕ → Owners × List ℕ
release_one socket_id client_id (owners, gone) = elim (find client_id owners) [
  | none ↦ (owners, gone)
  | some owner ↦
      let sockets = without socket_id owner.sockets in
      if is_empty sockets
      then (remove client_id owners, gone ++ client_id ∷ [])
      else (put client_id (record owner { sockets = sockets }) owners, gone)
]

unfoldable pub release_each : Text → List ℕ → Owners × List ℕ → Owners × List ℕ
unfolding release_one
release_each socket_id [] s = s
release_each socket_id (c ∷ cs) s = release_each socket_id cs (release_one socket_id c s)

module _ ⦃l : Lib0⦄ ⦃p : AwarenessProtocol⦄ where
  open p use {States, apply_states}

  abbrev pub wire : Entry → ℕ × ℕ × Text
  wire e = (e.client_id, e.clock, e.state)

  -- What applyClientAwareness leaves, and the bytes to relay.
  pub record Relay : Type 0 where
    pub room : Room States
    pub socket : AwarenessSocket
    pub allowed : Option (List ℕ)

  -- The entries that are the sender's own are applied, and relayed as they came or encoded again.
  unfoldable pub relay_own : Room States → List ℕ → List Entry → Filtered → Relay
  relay_own room update entries f =
      if is_empty f.own
      then record { room = record room { owners = f.owners }; socket = f.socket; allowed = none }
      else record {
        room = record { states = apply_states room.states (map wire f.own); owners = f.owners };
        socket = f.socket;
        allowed = some (if length f.own == length entries then update else encode_entries f.own);
      }

  -- applyClientAwareness, in a room that is registered; `none` is a throw.
  unfoldable pub apply_client_awareness : Room States → List ℕ → AwarenessSocket → Option Relay
  unfolding relay_own
  apply_client_awareness room update socket = elim (decode_entries update) [
    | none ↦ none
    | some entries ↦ some (relay_own room update entries (claim_all room.owners socket entries))
  ]

module _ ⦃p : AwarenessProtocol⦄ where
  open p use {States, remove_states}

  -- releaseClients
  unfoldable pub release_clients : Room States → AwarenessSocket → Room States × AwarenessSocket
  release_clients room socket =
      let (owners, gone) = release_each socket.id socket.awareness_clients (room.owners, []) in
      (
        record {
          states = if is_empty gone then room.states else remove_states room.states gone;
          owners = owners;
        },
        record socket { awareness_clients = [] },
      )
