-- ===== src/Examples/Routes.antt =====
-- Requests to the routes of boards.
use skrivle.Prelude.{
  ◌≡◌, refl, true, ◌&&◌, none, some, codes, text_eq, [], leb, length, if◌then◌else◌,
}
use skrivle.Services.{trim}
use skrivle.Examples.Tables.{ascii_case, list_table, TableRows}
use skrivle.Examples.Boards.{name, token, rows, rows-Kept}
use skrivle.Boards.Service.{find_board, role_of}
use skrivle.Boards.Service.Tenure.{Kept}
use skrivle.Boards.Routes.Answers.{Zod, Media}
use skrivle.Boards.Routes.Requests.{Context, patch_board, remove_board, post_extend, post_thumbnail}
use skrivle.Boards.Routes.Handlers.{handle}
use skrivle.Boards.Routes.Lifecycle.{handle-Kept}
use skrivle.Boards.Routes.Secrecy.{owner_only-same, Confirmed, thumbnail-Confirmed}

abbrev plain_zod : Zod
plain_zod = record {
  trimmed = λ low high raw.
      if leb low (length (trim raw)) && leb (length (trim raw)) high then some (trim raw) else none;
  between =
      λ low high raw. if leb low (length raw) && leb (length raw) high then some raw else none;
  issue = λ field. codes "invalid";
  trimmed-is = λ low high raw. refl;
  between-is = λ low high raw. refl;
}

abbrev media : Media
media = record { folder = codes "skrivle"; enabled = true; url = λ id. id }

abbrev visit : Context
visit = record { user = some (codes "v"); limited = none; now = 0; attempts = []; token = token }

handle-Kept_example :
    Kept 0 (handle plain_zod media visit (post_extend name (some token)) rows).rows
handle-Kept_example =
    handle-Kept plain_zod media visit (post_extend name (some token)) rows rows-Kept

-- No board at all.
abbrev no_rows : TableRows
no_rows = ([], λ j u. none)

owner_only-same_example :
    ((handle plain_zod media visit (patch_board name (some (codes "x"))) rows).response
      ≡ (handle plain_zod media visit (patch_board name (some (codes "x"))) no_rows).response)
    × ((handle plain_zod media visit (remove_board name) rows).response
        ≡ (handle plain_zod media visit (remove_board name) no_rows).response)
    × ((handle plain_zod media visit (patch_board name (some (codes "x"))) rows).rows ≡ rows)
    × ((handle plain_zod media visit (remove_board name) rows).rows ≡ rows)
    × ((handle plain_zod media visit (patch_board name (some (codes "x"))) rows).evicted ≡ none)
    × ((handle plain_zod media visit (remove_board name) rows).evicted ≡ none)
unfolding role_of
owner_only-same_example =
    owner_only-same plain_zod media visit name (codes "v") (some (codes "x")) rows no_rows refl refl
      refl

thumbnail-Confirmed_example :
    Confirmed media 0
      (codes "skrivle/thumbnails/plan")
      name
      (find_board name rows)
      (list_table.find_board name rows)
      (list_table.find_board name
        (handle plain_zod media visit
          (post_thumbnail name (some (codes "skrivle/thumbnails/plan")))
          rows).rows)
thumbnail-Confirmed_example =
    thumbnail-Confirmed plain_zod media visit name (codes "skrivle/thumbnails/plan") name rows
