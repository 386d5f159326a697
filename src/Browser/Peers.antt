-- ===== src/Browser/Peers.antt =====
-- front-end/src/lib/realtime/presence.ts: the people on a board, from the awareness states of their
-- clients. A field of a state that has another type than it should is `none`.
use skrivle.Prelude.{
  ℕ, ◌%◌, ◌≡◌, refl, Bool, false, Bool-cases, Option-cases, inl, inr, not, ◌&&◌, ◌||◌, Option, none,
  some, List, [], ◌∷◌, Text, codes, text_eq, nat_eq, ◌==◌, leb, length, get_elem?, take, map, has,
  if◌then◌else◌, arith,
}
use skrivle.Boards.Service.{Role, owner, editor}

abbrev pub max_shared_selection : ℕ
max_shared_selection = 50

module _ (Cursor : Type 0) where
  pub record PresenceState : Type 0 where
    pub name : Option Text
    pub color : Option Text
    pub signed_in : Option Bool
    pub avatar_url : Option Text
    pub cursor : Option Cursor
    pub selection : Option (List (Option Text))
    pub role : Option Text

  pub record PresencePeer : Type 0 where
    pub client_id : ℕ
    pub name : Text
    pub color : Option Text
    pub signed_in : Bool
    pub avatar_url : Option Text
    pub cursor : Option Cursor
    pub selection : List Text
    pub role : Option Role

-- raw.filter((id): id is string => typeof id === "string")
unfoldable pub only_strings : List (Option Text) → List Text
only_strings [] = []
only_strings (none ∷ raw) = only_strings raw
only_strings (some id ∷ raw) = id ∷ only_strings raw

unfoldable pub selection_from : Option (List (Option Text)) → List Text
unfolding only_strings
selection_from none = []
selection_from (some raw) = take max_shared_selection (only_strings raw)

unfoldable pub role_from : Option Text → Option Role
role_from none = none
role_from (some raw) =
    if raw == codes "owner" then some owner else if raw == codes "editor" then some editor else none

-- colorByName, by the names of CURSOR_COLORS; an empty name is as good as none.
unfoldable pub color_by_name : List Text → Option Text → ℕ → Option Text
color_by_name palette name client_id =
    let fallback = get_elem? palette (client_id % length palette) in
    elim name [
      | none ↦ fallback
      | some n ↦ if not (n == []) && has n palette then some n else fallback
    ]

module _ {Cursor : Type 0} where
  -- The sort by client id, which is stable.
  unfoldable pub insert_peer :
      PresencePeer Cursor → List (PresencePeer Cursor) → List (PresencePeer Cursor)
  insert_peer p [] = p ∷ []
  insert_peer p (q ∷ peers) =
      let rest = insert_peer p peers in
      if leb p.client_id q.client_id then p ∷ q ∷ peers else q ∷ rest

  unfoldable pub peer_from : List Text → ℕ → PresenceState Cursor → Text → PresencePeer Cursor
  unfolding color_by_name selection_from role_from
  peer_from palette client_id state name = record {
    client_id = client_id;
    name = name;
    color = color_by_name palette state.color client_id;
    signed_in = elim state.signed_in [ none ↦ false | some b ↦ b ];
    avatar_url = state.avatar_url;
    cursor = state.cursor;
    selection = selection_from state.selection;
    role = role_from state.role;
  }

  -- peersFrom, sorted as the loop goes.
  unfoldable pub peers_from :
      List Text → List (ℕ × Option (PresenceState Cursor)) → ℕ → List (PresencePeer Cursor)
  unfolding peer_from insert_peer
  peers_from palette [] self = []
  peers_from palette ((client_id, raw) ∷ states) self =
      let rest = peers_from palette states self in
      if client_id == self then rest else (elim raw [
        | none ↦ rest
        | some state ↦ elim state.name [
          | none ↦ rest
          | some name ↦ insert_peer (peer_from palette client_id state name) rest
        ]
      ])

  abbrev ids_of : List (PresencePeer Cursor) → List ℕ
  ids_of peers = map (λ p. p.client_id) peers

  has-insert_peer :
      (c : ℕ) (p : PresencePeer Cursor) (peers : List (PresencePeer Cursor))
      → has c (ids_of (insert_peer p peers)) ≡ (p.client_id == c || has c (ids_of peers))
  unfolding insert_peer has
  has-insert_peer c p [] = refl
  has-insert_peer c p (q ∷ peers) = ground (arith, has-insert_peer c p peers)

  -- One's own client is never among the peers.
  pub peers_from-others :
      (palette : List Text) (states : List (ℕ × Option (PresenceState Cursor))) (self : ℕ)
      → has self (ids_of (peers_from palette states self)) ≡ false
  unfolding peers_from has
  peers_from-others palette [] self = refl
  peers_from-others palette ((client_id, none) ∷ states) self =
      ground (arith, peers_from-others palette states self)
  peers_from-others palette ((client_id, some state) ∷ states) self =
      let rest = peers_from palette states self in
      let later = peers_from-others palette states self in
      elim (Bool-cases (client_id == self)) [
        | inl y ↦ rw (peers_from, y) later
        | inr n ↦ elim (Option-cases state.name) [
          | inl e ↦ rw (peers_from, n) rw e later
          | inr (name, e) ↦
              rw (peers_from, n) rw e ground
                (arith, later, has-insert_peer self (peer_from palette client_id state name) rest)
        ]
      ]
