-- ===== src/Boards/Routes/Requests.antt =====
-- The requests that back-end/src/http/routes/boards.ts serves, and the middleware that comes before
-- their handlers.
use skrivle.Prelude.{ℕ, Option, none, some, List, Text, codes, text_eq, if◌then◌else◌}
use skrivle.Services.{CaseMap}
use skrivle.Boards.Service.{BoardRow, BoardTable, find_board, is_expired}
use skrivle.Boards.Routes.Answers.{
  Zod, Response, invalid_field, signed_out, too_many, no_such_board, board_gone, is_id_param,
}

-- A request's user, the answer of its limiter (the seconds to wait when it refuses), the time, and what
-- is drawn for it: the ids of each attempt and the creator's token.
pub record Context : Type 0 where
  pub user : Option Text
  pub limited : Option ℕ
  pub now : ℕ
  pub attempts : List (List Text)
  pub token : Text

-- The routes, with the id of the path and the fields of the body.
pub data HttpRequest : Type 0 where
  post_board : Option Text → Option Text → HttpRequest
  get_available : Text → HttpRequest
  get_board : Text → HttpRequest
  post_duplicate : Text → HttpRequest
  patch_board : Text → Option Text → HttpRequest
  remove_board : Text → HttpRequest
  post_extend : Text → Option Text → HttpRequest
  post_claim : Text → Option Text → HttpRequest
  post_thumbnail : Text → Option Text → HttpRequest

module _ ⦃c : CaseMap⦄ ⦃t : BoardTable⦄ where
  open t use {Rows, update_row}

  -- What is sent (`none` when the handler throws), the rows, and the board that is evicted.
  pub record Reply : Type 0 where
    pub response : Option Response
    pub rows : Rows
    pub evicted : Option Text

  abbrev pub say : Response → Rows → Reply
  say response rows = record { response = some response; rows = rows; evicted = none }

  abbrev pub throws : Rows → Reply
  throws rows = record { response = none; rows = rows; evicted = none }

  -- validate(idParam, "params"), and then the rest.
  unfoldable pub with_id : Zod → Text → Rows → Reply → Reply
  unfolding is_id_param
  with_id z id rows rest = if is_id_param id then rest else say (invalid_field z (codes "id")) rows

  -- limitByIp, and then the rest.
  unfoldable pub with_limit : Context → Rows → Reply → Reply
  with_limit x rows rest = elim x.limited [
    | none ↦ rest
    | some reset_after ↦ say (too_many reset_after) rows
  ]

  -- requireSession, and then the rest for the user.
  unfoldable pub with_session : Context → Rows → (Text → Reply) → Reply
  with_session x rows rest = elim x.user [ none ↦ say signed_out rows | some user ↦ rest user ]

  -- validate of a field of the body that the schema wants.
  unfoldable pub with_field : Zod → Text → Option Text → Rows → (Text → Reply) → Reply
  with_field z field none rows rest = say (invalid_field z field) rows
  with_field z field (some value) rows rest = rest value

  -- A schema on a field that may be missing: whether it passes, and its value.
  unfoldable pub optional_field : (Text → Option Text) → Option Text → Option (Option Text)
  optional_field schema none = some none
  optional_field schema (some raw) = elim (schema raw) [ none ↦ none | some s ↦ some (some s) ]

  abbrev pub required_field : (Text → Option Text) → Option Text → Option Text
  required_field schema none = none
  required_field schema (some raw) = schema raw

  -- liveBoardOr404, and then the rest for the board.
  unfoldable pub with_live : Context → Text → Rows → (BoardRow → Reply) → Reply
  unfolding find_board is_expired
  with_live x id rows rest = elim (find_board id rows) [
    | none ↦ say no_such_board rows
    | some board ↦ if is_expired board.expires_at x.now then say board_gone rows else rest board
  ]
