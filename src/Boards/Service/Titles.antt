-- ===== src/Boards/Service/Titles.antt =====
-- The title of a copy, `copyTitle` of back-end/src/boards/service.ts.
use skrivle.Prelude.{◌-◌, ◌≤◌, [], ◌∷◌, Text, length, take, length-append, length-take, arith}
use skrivle.Services.{trim_end}
use skrivle.Boards.Service.{max_title, copy_suffix, copy_title}

length-trim_end : (s : Text) → length (trim_end s) ≤ length s
unfolding trim_end
length-trim_end [] = omega arith
length-trim_end (c ∷ s) = ground (arith, length-trim_end s)

-- However long the title of a board is, that of its copy fits the column.
pub copy_title-fits : (title : Text) → length (copy_title title) ≤ max_title
unfolding copy_title
copy_title-fits title =
    let cut = take (max_title - length copy_suffix) title in
    omega (
      arith,
      length-append (trim_end cut) copy_suffix,
      length-trim_end cut,
      length-take (max_title - length copy_suffix) title,
    )
