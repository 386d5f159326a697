-- ===== src/Realtime/Awareness/Entries.antt =====
-- back-end/src/realtime/awareness.ts: the wire format of awareness entries.
use skrivle.Prelude.{◌≡◌, refl, some, List, [], ◌∷◌, ◌++◌, arith, length}
use skrivle.Services.{Lib0}
use skrivle.Realtime.Awareness.{Entry, decode_count, decode_entries, encode_each, encode_entries}

module _ ⦃l : Lib0⦄ where
  open l use {encode_uint, encode_string, read_uint, read_string, parses_to_null}

  -- Each state is JSON, and the flag of each entry says whether it is null.
  abbrev pub Flagged : List Entry → Type 0
  Flagged [] = Unit {0}
  Flagged (e ∷ entries) = (parses_to_null e.state ≡ some e.retraction) × Flagged entries

  decode-encode_each :
      (entries : List Entry)
      → Flagged entries
      → decode_count (length entries) (encode_each entries) ≡ some entries
  unfolding decode_count encode_each
  decode-encode_each [] h = refl
  decode-encode_each (e ∷ entries) h = ground (
    arith,
    l.read_uint-encode e.client_id
        (encode_uint e.clock ++ (encode_string e.state ++ encode_each entries)),
    l.read_uint-encode e.clock (encode_string e.state ++ encode_each entries),
    l.read_string-encode e.state (encode_each entries),
    decode-encode_each entries h.1,
  )

  -- Decoding what was encoded gives the entries back, each state the text that it was and each flag
  -- right.
  pub decode-encode :
      (entries : List Entry)
      → Flagged entries
      → decode_entries (encode_entries entries) ≡ some entries
  unfolding decode_entries encode_entries
  decode-encode entries h = ground (
    arith,
    l.read_uint-encode (length entries) (encode_each entries),
    decode-encode_each entries h,
  )
