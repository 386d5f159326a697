-- ===== src/Canvas/TextEdit/Result.antt =====
-- `applyTextEdit` of front-end/src/lib/board/elements.ts: the text becomes the new string.
use skrivle.Prelude.{
  ℕ, zero, suc, ◌+◌, ◌-◌, ◌≤◌, ◌<◌, min, ◌≡◌, refl, sym, ap, ◌∙◌, [], ◌∷◌, ◌++◌, arith, Text,
  text_eq, nat_eq, ◌==◌, ==_iff, length, take, drop, length-take, length-drop, take-append-drop,
  ltb, if◌then◌else◌, Bool-cases, inl, inr, false,
}
use skrivle.Services.{SharedText, halves_pair}
use skrivle.Realtime.DocManager.{is_empty}
use skrivle.Canvas.TextEdit.{
  unit_at, prefix_loop, suffix_loop, common_prefix, common_suffix, Edit, diff, write_edit,
  apply_text_edit,
}

text_ext :
    (xs ys : Text)
    → length xs ≡ length ys
    → ((k : ℕ) → k < length xs → unit_at xs k ≡ unit_at ys k)
    → xs ≡ ys
text_ext [] [] h p = refl
text_ext [] (y ∷ ys) h p = absurd (omega arith)
text_ext (x ∷ xs) [] h p = absurd (omega arith)
text_ext (x ∷ xs) (y ∷ ys) h p =
    cc (p 0 (omega arith), text_ext xs ys (omega arith) (λ k l. p (suc k) (omega arith)))

unit_at-take : (n k : ℕ) (xs : Text) → k < n → unit_at (take n xs) k ≡ unit_at xs k
unit_at-take zero k xs h = absurd (omega arith)
unit_at-take (suc n) k [] h = refl
unit_at-take (suc n) zero (x ∷ xs) h = refl
unit_at-take (suc n) (suc k) (x ∷ xs) h = unit_at-take n k xs (omega arith)

unit_at-drop : (n k : ℕ) (xs : Text) → unit_at (drop n xs) k ≡ unit_at xs (n + k)
unit_at-drop zero k xs = let e : 0 + k ≡ k = omega arith in rw e
unit_at-drop (suc n) k [] = refl
unit_at-drop (suc n) k (x ∷ xs) =
    let e : suc n + k ≡ suc (n + k) = omega arith in rw e (unit_at-drop n k xs)

drop-nil : (n : ℕ) → drop {A = ℕ} n [] ≡ []
drop-nil zero = refl
drop-nil (suc n) = refl

take-append : (n : ℕ) (xs ys : Text) → n ≡ length xs → take n (xs ++ ys) ≡ xs
take-append zero [] ys e = refl
take-append zero (x ∷ xs) ys e = absurd (omega arith)
take-append (suc n) [] ys e = absurd (omega arith)
take-append (suc n) (x ∷ xs) ys e = ap (◌∷◌ x) (take-append n xs ys (omega arith))

drop-append : (n : ℕ) (xs ys : Text) → n ≡ length xs → drop n (xs ++ ys) ≡ ys
drop-append zero [] ys e = refl
drop-append zero (x ∷ xs) ys e = absurd (omega arith)
drop-append (suc n) [] ys e = absurd (omega arith)
drop-append (suc n) (x ∷ xs) ys e = drop-append n xs ys (omega arith)

module _ (current next : Text) where
  abbrev pub SamePrefix : ℕ → Type 0
  SamePrefix p = (k : ℕ) → k < p → unit_at current k ≡ unit_at next k

  abbrev pub SameSuffix : ℕ → Type 0
  SameSuffix s =
      (k : ℕ)
      → k < s
      → unit_at current (length current - 1 - k) ≡ unit_at next (length next - 1 - k)

  prefix_loop-same : (rounds p : ℕ) → SamePrefix p → SamePrefix (prefix_loop rounds current next p)
  unfolding prefix_loop
  prefix_loop-same zero p h = h
  prefix_loop-same (suc rounds) p h = elim (Bool-cases (unit_at current p == unit_at next p)) [
    | inl same ↦ rw same (prefix_loop-same rounds (p + 1) (λ k l. ground (arith, h k)))
    | inr differ ↦ rw differ h
  ]

  pub prefix_loop-le :
      (rounds p : ℕ)
      → (p ≤ prefix_loop rounds current next p) × (prefix_loop rounds current next p ≤ p + rounds)
  unfolding prefix_loop
  prefix_loop-le zero p = omega arith
  prefix_loop-le (suc rounds) p = ground (arith, prefix_loop-le rounds (p + 1))

  suffix_loop-same : (rounds s : ℕ) → SameSuffix s → SameSuffix (suffix_loop rounds current next s)
  unfolding suffix_loop
  suffix_loop-same zero s h = h
  suffix_loop-same (suc rounds) s h =
      elim (Bool-cases
        (unit_at current (length current - 1 - s) == unit_at next (length next - 1 - s))) [
          | inl same ↦ rw same (suffix_loop-same rounds (s + 1) (λ k l. ground (arith, h k)))
          | inr differ ↦ rw differ h
        ]

  pub suffix_loop-le :
      (rounds s : ℕ)
      → (s ≤ suffix_loop rounds current next s) × (suffix_loop rounds current next s ≤ s + rounds)
  unfolding suffix_loop
  suffix_loop-le zero s = omega arith
  suffix_loop-le (suc rounds) s = ground (arith, suffix_loop-le rounds (s + 1))

  abbrev pub shortest : ℕ
  shortest = min (length current) (length next)

  prefix-same : SamePrefix (common_prefix current next)
  unfolding common_prefix
  prefix-same = prefix_loop-same shortest 0 (λ k l. absurd (omega arith))

  pub prefix-le : common_prefix current next ≤ shortest
  unfolding common_prefix
  prefix-le = omega (arith, prefix_loop-le shortest 0)

  suffix-same : SameSuffix (common_suffix current next)
  unfolding common_suffix
  suffix-same =
      suffix_loop-same (shortest - common_prefix current next) 0 (λ k l. absurd (omega arith))

  pub suffix-le : common_prefix current next + common_suffix current next ≤ shortest
  unfolding common_suffix
  suffix-le = omega (arith, suffix_loop-le (shortest - common_prefix current next) 0, prefix-le)

  abbrev P : ℕ
  P = common_prefix current next

  abbrev S : ℕ
  S = common_suffix current next

  take-prefix : take P current ≡ take P next
  take-prefix =
      text_ext (take P current) (take P next)
        (omega (arith, length-take P current, length-take P next, prefix-le))
        (λ k l.
          let inside : k < P = omega (arith, length-take P current) in
          cc (unit_at-take P k current inside, unit_at-take P k next inside, prefix-same k inside))

  -- Counted from the end, the k-th of the last S units is the (S - 1 - k)-th.
  drop-suffix : drop (length current - S) current ≡ drop (length next - S) next
  drop-suffix =
      text_ext (drop (length current - S) current) (drop (length next - S) next)
        (omega (
          arith,
          length-drop (length current - S) current,
          length-drop (length next - S) next,
          suffix-le,
        ))
        (λ k l.
          let inside : k < S = omega (arith, length-drop (length current - S) current, suffix-le) in
          let a : length current - S + k ≡ length current - 1 - (S - 1 - k) =
            omega (arith, suffix-le) in
          let b : length next - S + k ≡ length next - 1 - (S - 1 - k) = omega (arith, suffix-le) in
          cc (
            unit_at-drop (length current - S) k current,
            unit_at-drop (length next - S) k next,
            ap (unit_at current) a,
            ap (unit_at next) b,
            suffix-same (S - 1 - k) (omega arith),
          ))

  drop-drop : (i j : ℕ) (xs : Text) → drop i (drop j xs) ≡ drop (j + i) xs
  drop-drop i zero xs = let e : 0 + i ≡ i = omega arith in rw e
  drop-drop i (suc j) [] = drop-nil i ∙ sym (drop-nil (suc j + i))
  drop-drop i (suc j) (x ∷ xs) =
      let e : suc j + i ≡ suc (j + i) = omega arith in rw e (drop-drop i j xs)

  -- The three parts of the new string.
  parts-next : take P next ++ ((diff current next).inserted ++ drop (length next - S) next) ≡ next
  unfolding diff
  parts-next =
      let n = length next - S - P in
      let e : P + n ≡ length next - S = omega (arith, suffix-le) in
      let tail = ap (λ x. drop x next) e in
      let inner = take-append-drop n (drop P next) in
      let whole = take-append-drop P next in
      let d = drop-drop n P next in rw (← tail, ← d, inner) whole

  prefix-diff : (diff current next).prefix ≡ P
  unfolding diff
  prefix-diff = refl

  end-diff : (diff current next).prefix + (diff current next).removed ≡ length current - S
  unfolding diff
  end-diff = omega (arith, suffix-le)

  -- What the edit makes of the old string.
  parts-current :
      take (diff current next).prefix current
        ++ ((diff current next).inserted
            ++ drop ((diff current next).prefix + (diff current next).removed) current)
      ≡ next
  parts-current = rw (end-diff, prefix-diff, take-prefix, drop-suffix) parts-next

-- Whether a pair is halved at an index is read off what stands before it.
halves_pair-take :
    (i : ℕ) (s r : Text) → i ≤ length s → halves_pair (take i s ++ r) i ≡ halves_pair s i
unfolding halves_pair
halves_pair-take zero s r h = refl
halves_pair-take (suc i) [] r h = absurd (omega (arith, h))
halves_pair-take (suc zero) (c ∷ s) r h = refl
halves_pair-take (suc (suc i)) (c ∷ s) r h = halves_pair-take (suc i) s r (omega (arith, h))

module _ ⦃y : SharedText⦄ where
  open y use {YText, to_string, delete, insert}

  -- Neither end of what goes halves a surrogate pair.
  abbrev pub KeepsPairs : Text → Edit → Type 0
  KeepsPairs s e = (halves_pair s e.prefix ≡ false) × (halves_pair s (e.prefix + e.removed) ≡ false)

  -- The deletion, made only when something goes.
  to_string-cut :
      (text : YText) (i n : ℕ)
      → halves_pair (to_string text) i ≡ false
      → halves_pair (to_string text) (i + n) ≡ false
      → to_string (if ltb 0 n then delete text i n else text)
        ≡ take i (to_string text) ++ drop (i + n) (to_string text)
  to_string-cut text i zero before after =
      let e : i + 0 ≡ i = omega arith in rw e (sym (take-append-drop i (to_string text)))
  to_string-cut text i (suc n) before after =
      ground (arith, y.to_string-delete text i (suc n) before after)

  to_string-write :
      (text : YText) (e : Edit)
      → e.prefix ≤ length (to_string text)
      → KeepsPairs (to_string text) e
      → to_string (write_edit text e)
        ≡ take e.prefix (to_string text)
          ++ (e.inserted ++ drop (e.prefix + e.removed) (to_string text))
  unfolding write_edit
  to_string-write text e h (before, after) =
      let s = to_string text in
      let cut = if ltb 0 e.removed then delete text e.prefix e.removed else text in
      let left = to_string-cut text e.prefix e.removed before after in
      elim (Bool-cases (is_empty e.inserted)) [
        | inl nothing ↦ ground (arith, left)
        | inr something ↦
            let front : e.prefix ≡ length (take e.prefix s) =
              omega (arith, length-take e.prefix s) in
            let whole : halves_pair (to_string cut) e.prefix ≡ false =
              ap (λ t. halves_pair t e.prefix) left
              ∙ halves_pair-take e.prefix s (drop (e.prefix + e.removed) s) h
              ∙ before in
            rw (
              something,
              y.to_string-insert cut e.prefix e.inserted whole,
              left,
              take-append e.prefix (take e.prefix s) (drop (e.prefix + e.removed) s) front,
              drop-append e.prefix (take e.prefix s) (drop (e.prefix + e.removed) s) front,
            )
      ]

  written :
      (text : YText) (next : Text)
      → KeepsPairs (to_string text) (diff (to_string text) next)
      → to_string (write_edit text (diff (to_string text) next)) ≡ next
  written text next whole =
      to_string-write text (diff (to_string text) next)
        (omega (arith, prefix-diff (to_string text) next, prefix-le (to_string text) next)) whole
      ∙ parts-current (to_string text) next

  -- After the edit the text is the new string, whatever it was, when neither end of what the two
  -- strings do not share halves a surrogate pair of the old one.
  pub to_string-apply_text_edit :
      (text : YText) (next : Text)
      → KeepsPairs (to_string text) (diff (to_string text) next)
      → to_string (apply_text_edit text next) ≡ next
  unfolding apply_text_edit
  to_string-apply_text_edit text next whole = elim (Bool-cases (to_string text == next)) [
    | inl same ↦ rw same ((==_iff (to_string text) next).0 same)
    | inr differ ↦ rw differ (written text next whole)
  ]
