-- ===== src/Realtime/Awareness/Claims.antt =====
-- back-end/src/realtime/awareness.ts: nobody moves or retracts another client's cursor.
use skrivle.Prelude.{
  ℕ, ◌≡◌, ◌≢◌, refl, ap, Bool, true, false, ◌&&◌, Option, none, some, List, [], ◌∷◌, map, arith,
  Text, text_eq, nat_eq, ◌==◌, ==_iff, ==_refl, find, find-put, has, add, has-add, Option-cases,
  inl, inr,
}
use skrivle.Services.{Lib0, AwarenessProtocol}
use skrivle.Realtime.Awareness.{
  Owner, Owners, AwarenessSocket, Room, Entry, claim, claim_all, wire, Relay, relay_own,
  decode_entries, apply_client_awareness,
}

abbrev client_ids : List Entry → List ℕ
client_ids es = map (λ e. e.client_id) es

key-claim :
    (owners : Owners) (socket : AwarenessSocket) (e : Entry)
    → (claim owners socket e).socket.presence_key ≡ socket.presence_key
unfolding claim
key-claim owners socket e = ground arith

-- An id of another key is left as it is, and the entry for it is not allowed.
claim-foreign :
    (owners : Owners) (socket : AwarenessSocket) (e : Entry) (c : ℕ) (o : Owner)
    → find c owners ≡ some o
    → o.key ≢ socket.presence_key
    → (find c (claim owners socket e).owners ≡ some o)
      × (((e.client_id == c) && (claim owners socket e).allowed) ≡ false)
unfolding claim
claim-foreign owners socket e c o found foreign = elim (Option-cases (find e.client_id owners)) [
  | inl free ↦ ground (
    arith,
    ==_iff e.client_id c,
    find-put e.client_id c (record { key = socket.presence_key; sockets = socket.id ∷ [] }) owners,
  )
  | inr (owner, taken) ↦ ground (
    arith,
    ==_iff owner.key socket.presence_key,
    ==_iff e.client_id c,
    find-put e.client_id c (record owner { sockets = add socket.id owner.sockets }) owners,
  )
]

claim_all-foreign :
    (owners : Owners) (socket : AwarenessSocket) (es : List Entry) (c : ℕ) (o : Owner)
    → find c owners ≡ some o
    → o.key ≢ socket.presence_key
    → (find c (claim_all owners socket es).owners ≡ some o)
      × (has c (client_ids (claim_all owners socket es).own) ≡ false)
unfolding claim_all has
claim_all-foreign owners socket [] c o found foreign = (found, refl)
claim_all-foreign owners socket (e ∷ es) c o found foreign =
    let k = claim owners socket e in
    let step = claim-foreign owners socket e c o found foreign in
    let rest =
      claim_all-foreign k.owners k.socket es c o step.0 (rw (key-claim owners socket e) foreign) in
    (rest.0, ground arith)

module _ ⦃l : Lib0⦄ ⦃p : AwarenessProtocol⦄ where
  open p use {States, state}

  client_ids-wire : (es : List Entry) → map (λ e. e.0) (map wire es) ≡ client_ids es
  client_ids-wire [] = refl
  client_ids-wire (e ∷ es) = ap (◌∷◌ e.client_id) (client_ids-wire es)

  -- Whatever entries a socket sends, a client id that is held under another key keeps its owner, its
  -- owner's sockets and its state: nobody else can move that cursor or retract it.
  pub foreign-untouched :
      (room : Room States) (update : List ℕ) (socket : AwarenessSocket) (relay : Relay) (c : ℕ)
      (o : Owner)
      → apply_client_awareness room update socket ≡ some relay
      → find c room.owners ≡ some o
      → o.key ≢ socket.presence_key
      → (find c relay.room.owners ≡ some o) × (state relay.room.states c ≡ state room.states c)
  unfolding apply_client_awareness
  foreign-untouched room update socket relay c o e found foreign =
      elim (Option-cases (decode_entries update)) [
        | inl bad ↦ absurd (ground arith)
        | inr (es, good) ↦
            let kept = claim_all-foreign room.owners socket es c o found foreign in
            let own = (claim_all room.owners socket es).own in
            let unmoved =
              p.state-apply room.states c (map wire own) (rw (client_ids-wire own) kept.1) in
            let same : relay_own room update es (claim_all room.owners socket es) ≡ relay =
              ground arith in
            rw (← same) (ground arith, ground arith)
      ]

claim-retracting :
    (owners : Owners) (socket : AwarenessSocket) (e : Entry) (c : ℕ)
    → find c owners ≡ none
    → (e.client_id == c ≡ true → e.retraction ≡ true)
    → find c (claim owners socket e).owners ≡ none
unfolding claim
claim-retracting owners socket e c free quiet = elim (Option-cases (find e.client_id owners)) [
  | inl gone ↦ ground (
    arith,
    ==_iff e.client_id c,
    find-put e.client_id c (record { key = socket.presence_key; sockets = socket.id ∷ [] }) owners,
  )
  | inr (owner, taken) ↦ ground (
    arith,
    ==_iff e.client_id c,
    find-put e.client_id c (record owner { sockets = add socket.id owner.sockets }) owners,
  )
]

-- Every entry for the id is a retraction.
abbrev pub OnlyRetracts : ℕ → List Entry → Type 0
OnlyRetracts c [] = Unit {0}
OnlyRetracts c (e ∷ es) = (e.client_id == c ≡ true → e.retraction ≡ true) × OnlyRetracts c es

-- A retraction takes no id: an id that nobody holds and for which all entries of an update are
-- retractions is held by nobody afterwards.
pub retraction-claims-nothing :
    (owners : Owners) (socket : AwarenessSocket) (es : List Entry) (c : ℕ)
    → find c owners ≡ none
    → OnlyRetracts c es
    → find c (claim_all owners socket es).owners ≡ none
unfolding claim_all
retraction-claims-nothing owners socket [] c free quiet = free
retraction-claims-nothing owners socket (e ∷ es) c free quiet =
    retraction-claims-nothing (claim owners socket e).owners (claim owners socket e).socket es c
      (claim-retracting owners socket e c free quiet.0) quiet.1

-- The owner has the key, and the socket among its sockets.
abbrev pub held_by : Text → Text → Option Owner → Bool
held_by key id none = false
held_by key id (some o) = o.key == key && has id o.sockets

-- The room lists a socket under every id that the socket speaks for, and under the socket's key.
abbrev pub Listed : Owners → AwarenessSocket → Type 0
Listed owners s =
    (c : ℕ) → has c s.awareness_clients ≡ true → held_by s.presence_key s.id (find c owners) ≡ true

module _ (owners : Owners) (s : AwarenessSocket) (e : Entry) where
  claim-Listed : Listed owners s → Listed (claim owners s e).owners (claim owners s e).socket
  unfolding claim has
  claim-Listed v c h = elim (Option-cases (find e.client_id owners)) [
    | inl free ↦ ground (
      arith,
      v c,
      ==_iff e.client_id c,
      ==_refl s.presence_key,
      ==_refl s.id,
      has-add e.client_id c s.awareness_clients,
      find-put e.client_id c (record { key = s.presence_key; sockets = s.id ∷ [] }) owners,
    )
    | inr (o, taken) ↦ ground (
      arith,
      v c,
      ==_iff e.client_id c,
      ==_refl s.id,
      has-add e.client_id c s.awareness_clients,
      has-add s.id s.id o.sockets,
      find-put e.client_id c (record o { sockets = add s.id o.sockets }) owners,
    )
  ]

  claim-Listed_other : (t : AwarenessSocket) → Listed owners t → Listed (claim owners s e).owners t
  unfolding claim
  claim-Listed_other t v c h = elim (Option-cases (find e.client_id owners)) [
    | inl free ↦ ground (
      arith,
      v c,
      ==_iff e.client_id c,
      find-put e.client_id c (record { key = s.presence_key; sockets = s.id ∷ [] }) owners,
    )
    | inr (o, taken) ↦ ground (
      arith,
      v c,
      ==_iff e.client_id c,
      has-add s.id t.id o.sockets,
      find-put e.client_id c (record o { sockets = add s.id o.sockets }) owners,
    )
  ]

-- Whatever a socket sends, it and every other socket of the room stay listed under each id that
-- they speak for.
pub claim_all-Listed :
    (owners : Owners) (s t : AwarenessSocket) (es : List Entry)
    → Listed owners s
    → Listed owners t
    → Listed (claim_all owners s es).owners (claim_all owners s es).socket
      × Listed (claim_all owners s es).owners t
unfolding claim_all
claim_all-Listed owners s t [] v w = (v, w)
claim_all-Listed owners s t (e ∷ es) v w =
    claim_all-Listed (claim owners s e).owners (claim owners s e).socket t es
      (claim-Listed owners s e v) (claim-Listed_other owners s e t w)
