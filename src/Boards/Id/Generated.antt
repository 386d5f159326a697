-- ===== src/Boards/Id/Generated.antt =====
-- generateBoardId and mintUniqueBoardId of back-end/src/boards/board-id.ts.
use skrivle.Prelude.{
  ℕ, zero, suc, ◌+◌, ◌-◌, ◌%◌, ◌≡◌, ◌≤◌, ◌<◌, refl, ◌⊎◌, Bool, true, false, none, some,
  Option-cases, Bool-cases, inl, inr, is_some, List, [], ◌∷◌, ◌++◌, Text, nat_eq, ltb, leb, length,
  get_elem?, every, Among, has, filter, length-append, arith,
}
use skrivle.Boards.Id.{id_alphabet, rejection_ceiling, read_batch, generate_board_id, mint}

abbrev usable : ℕ → Bool
usable byte = ltb byte rejection_ceiling

abbrev pub usable_bytes : List (List ℕ) → ℕ
usable_bytes [] = 0
usable_bytes (b ∷ bs) = length (filter usable b) + usable_bytes bs

get-within :
    (l : Text) (i : ℕ) → i < length l → (c : ℕ) × (get_elem? l i ≡ some c) × (has c l ≡ true)
unfolding has
get-within [] i h = ground arith
get-within (x ∷ l) zero h = (x, refl, ground arith)
get-within (x ∷ l) (suc i) h =
    let (c, found, there) = get-within l i (ground arith) in (c, found, ground arith)

read_batch-lem :
    (wanted : ℕ) (bytes : List ℕ)
    → (every (λ c. has c id_alphabet) (read_batch wanted bytes) ≡ true)
      × (length (read_batch wanted bytes) ≤ wanted)
      × ((length (read_batch wanted bytes) ≡ wanted)
          ⊎ (length (read_batch wanted bytes) ≡ length (filter usable bytes)))
unfolding read_batch
read_batch-lem zero bytes = (refl, omega arith, inl refl)
read_batch-lem (suc wanted) [] = (refl, omega arith, inr refl)
read_batch-lem (suc wanted) (byte ∷ bytes) =
    let skipped = read_batch-lem (suc wanted) bytes in
    let rest = read_batch-lem wanted bytes in
    let (c, found, there) = get-within id_alphabet (byte % 28) (omega arith) in
    elim (Bool-cases (leb rejection_ceiling byte)) [
      | inl e ↦ rw (read_batch, e) ground (arith, skipped)
      | inr e ↦ rw (read_batch, e) rw found ground (arith, rest, there)
    ]

every-append :
    (p : ℕ → Bool) (xs ys : Text)
    → every p xs ≡ true
    → every p ys ≡ true
    → every p (xs ++ ys) ≡ true
every-append p [] ys h k = k
every-append p (x ∷ xs) ys h k = ground (arith, every-append p xs ys)

-- A generated id has the length that was asked for and is spelled in the alphabet.
pub generate-in_alphabet :
    (wanted : ℕ) (batches : List (List ℕ)) (id : Text)
    → generate_board_id wanted batches ≡ some id
    → (length id ≡ wanted) × (every (λ c. has c id_alphabet) id ≡ true)
unfolding generate_board_id
generate-in_alphabet zero batches id h = ground arith
generate-in_alphabet (suc wanted) [] id h = ground arith
generate-in_alphabet (suc wanted) (batch ∷ batches) id h =
    let got = read_batch (suc wanted) batch in
    let (spelled, short, count) = read_batch-lem (suc wanted) batch in
    elim (Option-cases (generate_board_id (suc wanted - length got) batches)) [
      | inl e ↦ ground arith
      | inr (rest, e) ↦
          let (size, more) = generate-in_alphabet (suc wanted - length got) batches rest e in
          ground (arith, length-append got rest, every-append (λ c. has c id_alphabet) got rest)
    ]

-- The loop ends: random batches that hold as many bytes below the ceiling as characters are wanted
-- give an id.
pub generate-ends :
    (wanted : ℕ) (batches : List (List ℕ))
    → wanted ≤ usable_bytes batches
    → is_some (generate_board_id wanted batches) ≡ true
unfolding generate_board_id
generate-ends zero batches h = refl
generate-ends (suc wanted) [] h = ground arith
generate-ends (suc wanted) (batch ∷ batches) h =
    let got = read_batch (suc wanted) batch in
    let (spelled, short, count) = read_batch-lem (suc wanted) batch in
    let left = generate-ends (suc wanted - length got) batches (ground arith) in ground arith

-- A minted id is one of those generated that is not taken, and minting fails only when all of
-- them are taken.
pub mint-free : (exists : Text → Bool) (ids : List Text) → elim (mint exists ids) as (λ o. Type 0) [
  | none ↦ every exists ids ≡ true
  | some id ↦ (exists id ≡ false) × Among id ids
]
unfolding mint
mint-free exists [] = refl
mint-free exists (id ∷ ids) =
    let rest = mint-free exists ids in
    elim (Bool-cases (exists id)) [
      | inl e ↦
          rw (mint, e)
            (elim (Option-cases (mint exists ids)) [
              | inl n ↦ rw n (ground (arith, rest))
              | inr (x, n) ↦ rw n (ground (arith, rest))
            ])
      | inr e ↦ rw (mint, e) (ground arith)
    ]
