-- ===== src/Canvas/TextEdit.antt =====
-- `applyTextEdit` of front-end/src/lib/board/elements.ts: a new string is written into a Y.Text as one
-- deletion and one insertion. Strings are UTF-16 code units, which is what JavaScript's indices and
-- Y.Text's count.
pub mod Result
pub mod Smallest
use skrivle.Prelude.{
  ℕ, zero, suc, ◌+◌, ◌-◌, min, Bool, true, false, List, [], ◌∷◌, Text, text_eq, nat_eq, ◌==◌,
  length, take, drop, ltb, if◌then◌else◌,
}
use skrivle.Services.{SharedText}
use skrivle.Realtime.DocManager.{is_empty}

-- s[i], for an index in range.
abbrev pub unit_at : Text → ℕ → ℕ
unit_at [] i = 0
unit_at (c ∷ s) zero = c
unit_at (c ∷ s) (suc i) = unit_at s i

-- while (prefix < shortest && current[prefix] === next[prefix]) prefix++, with the rounds left.
unfoldable pub prefix_loop : ℕ → Text → Text → ℕ → ℕ
prefix_loop zero current next prefix = prefix
prefix_loop (suc rounds) current next prefix =
    let longer = prefix_loop rounds current next (prefix + 1) in
    if unit_at current prefix == unit_at next prefix then longer else prefix

-- The same from the ends, up to shortest - prefix.
unfoldable pub suffix_loop : ℕ → Text → Text → ℕ → ℕ
suffix_loop zero current next suffix = suffix
suffix_loop (suc rounds) current next suffix =
    let longer = suffix_loop rounds current next (suffix + 1) in
    if unit_at current (length current - 1 - suffix) == unit_at next (length next - 1 - suffix)
    then longer
    else suffix

pub record Edit : Type 0 where
  pub prefix : ℕ
  pub removed : ℕ
  pub inserted : Text

unfoldable pub common_prefix : Text → Text → ℕ
unfolding prefix_loop
common_prefix current next = prefix_loop (min (length current) (length next)) current next 0

unfoldable pub common_suffix : Text → Text → ℕ
unfolding suffix_loop common_prefix
common_suffix current next =
    suffix_loop (min (length current) (length next) - common_prefix current next) current next 0

-- The edit that the two loops find: `next.slice(prefix, next.length - suffix)` goes in.
unfoldable pub diff : Text → Text → Edit
unfolding common_prefix common_suffix
diff current next =
    let prefix = common_prefix current next in
    let suffix = common_suffix current next in
    record {
      prefix = prefix;
      removed = length current - prefix - suffix;
      inserted = take (length next - suffix - prefix) (drop prefix next);
    }

module _ ⦃y : SharedText⦄ where
  open y use {YText, to_string, delete, insert}

  unfoldable pub write_edit : YText → Edit → YText
  write_edit text e =
      let text' = if ltb 0 e.removed then delete text e.prefix e.removed else text in
      if is_empty e.inserted then text' else insert text' e.prefix e.inserted

  unfoldable pub apply_text_edit : YText → Text → YText
  unfolding write_edit diff
  apply_text_edit text next =
      if to_string text == next then text else write_edit text (diff (to_string text) next)
