-- ===== src/Boards/Routes/Answers.antt =====
-- What the routes of back-end/src/http/routes/boards.ts answer, with the refusals of
-- http/middleware/validate.ts, auth/middleware.ts and redis/rate-limit.ts, and the asset names of
-- media/cloudinary.ts.
use skrivle.Prelude.{
  ℕ, ◌+◌, ◌/◌, ◌≡◌, max, Bool, ◌&&◌, Option, none, some, [], ◌∷◌, ◌++◌, Text, codes, text_eq, ◌==◌,
  length, leb, every, is_some, if◌then◌else◌,
}
use skrivle.Services.{trim}
use skrivle.Boards.Id.{is_id_char}
use skrivle.Boards.Service.{Role, BoardRow}

-- zod, as far as the schemas use it: z.string() with trim(), min() and max(), what safeParse gives of
-- a string, and the message of the first issue of a field, in lower case.
pub record Zod : Type 0 where
  pub trimmed : ℕ → ℕ → Text → Option Text
  pub between : ℕ → ℕ → Text → Option Text
  pub issue : Text → Text
  pub trimmed-is :
      (low high : ℕ) (raw : Text)
      → trimmed low high raw ≡ (
          if leb low (length (trim raw)) && leb (length (trim raw)) high
          then some (trim raw)
          else none)
  pub between-is :
      (low high : ℕ) (raw : Text)
      → between low high raw
        ≡ (if leb low (length raw) && leb (length raw) high then some raw else none)

-- The configuration of Cloudinary, and cloudinary.url with the transformation of a thumbnail.
pub record Media : Type 0 where
  pub folder : Text
  pub enabled : Bool
  pub url : Text → Text

-- publicIdFor("thumbnail", …)
unfoldable pub thumbnail_public_id : Media → Text → Text
thumbnail_public_id m owner_id = m.folder ++ codes "/thumbnails/" ++ owner_id

-- ownsPublicId("thumbnail", …)
unfoldable pub owns_public_id : Media → Text → Text → Bool
unfolding thumbnail_public_id
owns_public_id m owner_id public_id = public_id == thumbnail_public_id m owner_id

-- thumbnailUrl; an empty id is as good as none.
unfoldable pub thumbnail_url : Media → Option Text → Option Text
thumbnail_url m none = none
thumbnail_url m (some []) = none
thumbnail_url m (some (c ∷ id)) = if m.enabled then some (m.url (c ∷ id)) else none

pub record PublicBoard : Type 0 where
  pub id : Text
  pub title : Text
  pub is_ephemeral : Bool
  pub expires_at : Option ℕ
  pub has_owner : Bool
  pub thumbnail_url : Option Text

-- The title of a row: the schema's default where none was given.
unfoldable pub title_of : BoardRow → Text
title_of board = elim board.title [ none ↦ codes "Untitled board" | some title ↦ title ]

-- publicBoard
unfoldable pub public_board : Media → BoardRow → PublicBoard
unfolding title_of thumbnail_url
public_board m board = record {
  id = board.id;
  title = title_of board;
  is_ephemeral = board.is_ephemeral;
  expires_at = board.expires_at;
  has_owner = is_some board.owner_id;
  thumbnail_url = thumbnail_url m board.thumbnail_id;
}

-- `wait` is the number of minutes in the answer of tooMany.
pub data Body : Type 0 where
  nothing : Body
  created_board : PublicBoard → Option Text → Body
  looked_up : PublicBoard → Option Role → Body
  changed : PublicBoard → Body
  available : Bool → Body
  expires : Option ℕ → Body
  thumbnail : Option Text → Body
  problem : Text → Text → Body
  wait : ℕ → Body

pub record Response : Type 0 where
  pub status : ℕ
  pub body : Body

abbrev pub quote : Text
quote = 34 ∷ []

-- notOwner
unfoldable pub not_owner : Text → Response
not_owner action = record {
  status = 403;
  body =
      problem (codes "Only the board's owner can " ++ action ++ codes " it.")
        (codes "Ask the owner to make the change.");
}

-- The answer of validate for a field that its schema refuses.
unfoldable pub invalid_field : Zod → Text → Response
invalid_field z field = record {
  status = 400;
  body =
      problem
        (codes "That request's "
          ++ quote
          ++ field
          ++ quote
          ++ codes " field isn't valid: "
          ++ z.issue field
          ++ codes ".")
        (codes "Correct the field and send it again.");
}

-- requireSession
unfoldable pub signed_out : Response
signed_out = record {
  status = 401;
  body =
      problem (codes "That action needs you to be signed in.")
        (codes "Sign in from /signin, then try again.");
}

-- tooMany, of the seconds until the window ends.
unfoldable pub too_many : ℕ → Response
too_many reset_after = record { status = 429; body = wait (max 1 ((reset_after + 59) / 60)) }

unfoldable pub no_such_board : Response
no_such_board = record {
  status = 404;
  body =
      problem (codes "No board exists at that id.")
        (codes "Check the link, or create a new board with this id.");
}

unfoldable pub board_gone : Response
board_gone = record {
  status = 410;
  body =
      problem (codes "That board has expired.")
        (codes "Guest boards last 24 hours. Create a new board to start again.");
}

unfoldable pub id_taken : Text → Response
id_taken id = record {
  status = 409;
  body =
      problem (codes "The board id " ++ quote ++ id ++ quote ++ codes " is already taken.")
        (codes "Pick a different id, or leave it blank for a generated one.");
}

unfoldable pub id_unusable : Text → Response
id_unusable id = record {
  status = 400;
  body =
      problem (quote ++ id ++ quote ++ codes " isn't a usable board id.")
        (codes "Use 3-32 letters, numbers, or hyphens.");
}

unfoldable pub not_extended : Response
not_extended = record {
  status = 403;
  body = problem (codes "That board can't be extended with this browser.") (
      codes
        "Only the browser that created a guest board can extend it. Sign in to keep it permanently.");
}

unfoldable pub not_claimed : Response
not_claimed = record {
  status = 403;
  body = problem (codes "That board can't be claimed.") (
      codes
        "A board can only be claimed by the browser that created it, and only while it has no owner.");
}

unfoldable pub no_live_board : Response
no_live_board = record {
  status = 404;
  body =
      problem (codes "No live board exists at that id.")
        (codes "Check the board link and try again.");
}

unfoldable pub not_its_thumbnail : Response
not_its_thumbnail = record {
  status = 403;
  body =
      problem (codes "That image isn't this board's thumbnail.")
        (codes "Request a fresh upload signature for this board.");
}

-- idParam, with ID_PATTERN
unfoldable pub is_id_param : Text → Bool
unfolding is_id_char
is_id_param id = leb 3 (length id) && leb (length id) 32 && every is_id_char id
