-- ===== src/Canvas/TextEdit/Smallest.antt =====
-- `applyTextEdit` of front-end/src/lib/board/elements.ts: no smaller edit would do.
use skrivle.Prelude.{
  ℕ, zero, suc, ◌+◌, ◌-◌, ◌≤◌, ◌<◌, min, ◌≡◌, refl, sym, ap, ◌∙◌, [], ◌∷◌, ◌++◌, arith, Text,
  nat_eq, length, drop, length-append, length-take,
}
use skrivle.Canvas.TextEdit.{unit_at, prefix_loop, suffix_loop, common_prefix, common_suffix, diff}
use skrivle.Canvas.TextEdit.Result.{
  SamePrefix, SameSuffix, shortest, prefix_loop-le, suffix_loop-le, prefix-le, suffix-le,
}

-- Where the prefix loop stops, no longer prefix is common, unless its rounds ran out.
prefix_loop-longest :
    (current next : Text) (rounds p i : ℕ)
    → SamePrefix current next i
    → i ≤ p + rounds
    → p ≤ i
    → i ≤ prefix_loop rounds current next p
unfolding prefix_loop
prefix_loop-longest current next zero p i h l m = omega arith
prefix_loop-longest current next (suc rounds) p i h l m = ground (
  arith,
  prefix_loop-longest current next rounds (p + 1) i h,
  h p,
  prefix_loop-le current next rounds (p + 1),
)

suffix_loop-longest :
    (current next : Text) (rounds s j : ℕ)
    → SameSuffix current next j
    → j ≤ s + rounds
    → s ≤ j
    → j ≤ suffix_loop rounds current next s
unfolding suffix_loop
suffix_loop-longest current next zero s j h l m = omega arith
suffix_loop-longest current next (suc rounds) s j h l m = ground (
  arith,
  suffix_loop-longest current next rounds (s + 1) j h,
  h s,
  suffix_loop-le current next rounds (s + 1),
)

unit_at-front : (i k : ℕ) (xs ys : Text) → k < length xs → unit_at (xs ++ ys) k ≡ unit_at xs k
unit_at-front i k [] ys h = absurd (omega arith)
unit_at-front i zero (x ∷ xs) ys h = refl
unit_at-front i (suc k) (x ∷ xs) ys h = unit_at-front i k xs ys (omega arith)

unit_at-back :
    (k : ℕ) (xs ys : Text) → length xs ≤ k → unit_at (xs ++ ys) k ≡ unit_at ys (k - length xs)
unit_at-back k [] ys h = let e : k ≡ k - 0 = omega arith in ap (unit_at ys) e
unit_at-back zero (x ∷ xs) ys h = absurd (omega arith)
unit_at-back (suc k) (x ∷ xs) ys h =
    let e : k - length xs ≡ suc k - suc (length xs) = omega arith in
    unit_at-back k xs ys (omega arith) ∙ ap (unit_at ys) e

module _ (front gone new back : Text) where
  abbrev old : Text
  old = front ++ (gone ++ back)

  abbrev wanted : Text
  wanted = front ++ (new ++ back)

  shared-front : SamePrefix old wanted (length front)
  shared-front k l = unit_at-front 0 k front _ l ∙ sym (unit_at-front 0 k front _ l)

  from_end :
      (mid : Text) (k : ℕ)
      → k < length back
      → unit_at (front ++ (mid ++ back)) (length (front ++ (mid ++ back)) - 1 - k)
        ≡ unit_at back (length back - 1 - k)
  from_end mid k l =
      let n = length (front ++ (mid ++ back)) - 1 - k in
      let size : length (front ++ (mid ++ back)) ≡ length front + (length mid + length back) =
        omega (arith, length-append front (mid ++ back), length-append mid back) in
      let past : length front + length mid ≤ n = omega arith in
      let e : n - length front - length mid ≡ length back - 1 - k = omega arith in
      unit_at-back n front (mid ++ back) (omega arith)
      ∙ unit_at-back (n - length front) mid back (omega arith)
      ∙ ap (unit_at back) e

  shared-back : SameSuffix old wanted (length back)
  shared-back k l = from_end gone k l ∙ sym (from_end new k l)

  prefix-ge : length front ≤ common_prefix old wanted
  unfolding common_prefix
  prefix-ge =
      prefix_loop-longest old wanted (shortest old wanted) 0 (length front) shared-front
        (omega (arith, length-append front (gone ++ back), length-append front (new ++ back)))
        (omega arith)

  suffix-ge :
      min (length back) (shortest old wanted - common_prefix old wanted) ≤ common_suffix old wanted
  unfolding common_suffix
  suffix-ge =
      suffix_loop-longest old wanted (shortest old wanted - common_prefix old wanted) 0
        (min (length back) (shortest old wanted - common_prefix old wanted))
        (λ k l. shared-back k (omega arith)) (omega arith) (omega arith)

  -- Whenever an edit that takes `gone` out and puts `new` in turns the one string into the other, the
  -- edit made takes out no more units than `gone` has, and puts in no more than `new` has.
  pub diff-smallest :
      ((diff old wanted).removed ≤ length gone) × (length (diff old wanted).inserted ≤ length new)
  unfolding diff
  diff-smallest = omega (
    arith,
    prefix-ge,
    suffix-ge,
    prefix-le old wanted,
    suffix-le old wanted,
    length-append front (gone ++ back),
    length-append gone back,
    length-append front (new ++ back),
    length-append new back,
    length-take (length wanted - common_suffix old wanted - common_prefix old wanted)
        (drop (common_prefix old wanted) wanted),
  )
