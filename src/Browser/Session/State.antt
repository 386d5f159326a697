-- ===== src/Browser/Session/State.antt =====
-- What a page reads of a board session, and what the session is told: the types and the refusals of
-- front-end/src/lib/realtime/board-session.ts and of events.ts beside it.
use skrivle.Prelude.{
  ℕ, Bool, false, Option, none, some, List, [], ◌∷◌, Text, codes, text_eq, ◌==◌, if◌then◌else◌,
}

abbrev pub rejoin_ms : ℕ
rejoin_ms = 2000

abbrev pub rejoin_max_ms : ℕ
rejoin_max_ms = 30000

pub data ConnectionStatus : Type 0 where
  connecting connected reconnecting refused closed : ConnectionStatus

-- REMOTE, LOCAL, and every other origin of a transaction.
pub data Origin : Type 0 where
  remote local other : Origin

pub data HandshakeError : Type 0 where
  no_board not_found expired failed : HandshakeError

pub record NamedError : Type 0 where
  pub message : Text
  pub next : Text

pub record Refusal : Type 0 where
  pub reason : HandshakeError
  pub message : Text
  pub next : Text

-- HANDSHAKE_ERRORS
unfoldable pub handshake_errors : List (Text × HandshakeError)
handshake_errors =
    (codes "no_board", no_board)
    ∷ (codes "board_not_found", not_found)
    ∷ (codes "board_expired", expired)
    ∷ (codes "handshake_failed", failed)
    ∷ []

-- REFUSAL_COPY
unfoldable pub refusal_copy : HandshakeError → NamedError
refusal_copy no_board = record {
  message = codes "This board couldn't be opened.";
  next = codes "Go back and open the board from its link.";
}
refusal_copy not_found = record {
  message = codes "That board doesn't exist yet.";
  next = codes "Check the link, or create a board from the home page.";
}
refusal_copy expired = record {
  message = codes "This board has expired.";
  next = codes "Guest boards last 24 hours. Start a new board to keep going.";
}
refusal_copy failed = record {
  message = codes "Couldn't join this board.";
  next = codes "Refresh the page to try again.";
}

-- The error of that name, as `includes` and the cast find it.
unfoldable pub reason_of : Text → List (Text × HandshakeError) → HandshakeError
reason_of raw [] = failed
reason_of raw ((name, reason) ∷ errors) = if name == raw then reason else reason_of raw errors

-- refusalFor
unfoldable pub refusal_for : Text → Refusal
unfolding handshake_errors refusal_copy reason_of
refusal_for raw =
    let reason = reason_of raw handshake_errors in
    let copy = refusal_copy reason in
    record { reason = reason; message = copy.message; next = copy.next }

pub record Self : Type 0 where
  pub user_id : Option Text
  pub name : Text
  pub signed_in : Bool
  pub color : Option Text

-- BoardSessionState, less the peers, which follow from the awareness (see Browser/Peers).
pub record BoardSessionState : Type 0 where
  pub status : ConnectionStatus
  pub hydrated : Bool
  pub saved_locally : Bool
  pub refusal : Option Refusal
  pub self : Option Self
  pub last_error : Option NamedError

abbrev pub opening_state : BoardSessionState
opening_state = record {
  status = connecting;
  hydrated = false;
  saved_locally = false;
  refusal = none;
  self = none;
  last_error = none;
}

-- What the handlers read of the payload of "board:joined"; each part may be missing.
pub record BoardJoined : Type 0 where
  pub color : Option Text
  pub id : Option Text
  pub name : Option Text
  pub signed_in : Option Bool

-- What stays the same for a session: its user, doc.clientID, the names of CURSOR_COLORS, the key of its
-- local copy and whether localStorage can be written.
pub record Options : Type 0 where
  pub name : Text
  pub avatar_url : Option Text
  pub client_id : ℕ
  pub palette : List Text
  pub copy_name : Text
  pub storage : Bool

-- payload.you?.name || name
unfoldable pub name_or : Option Text → Text → Text
name_or none name = name
name_or (some []) name = name
name_or (some (c ∷ given)) name = c ∷ given

-- payload.you?.signedIn === true
abbrev pub is_true : Option Bool → Bool
is_true none = false
is_true (some b) = b
