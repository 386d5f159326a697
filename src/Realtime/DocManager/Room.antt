-- ===== src/Realtime/DocManager/Room.antt =====
-- back-end/src/realtime/doc-manager.ts: the size of a board, and whether it has room.
use skrivle.Prelude.{
  ℕ, ◌+◌, ◌≤◌, ◌<◌, ◌≡◌, true, false, some, arith, Text, text_eq, ==_refl, find, find-put,
  if◌then◌else◌,
}
use skrivle.Services.{Yjs}
use skrivle.Realtime.Limits.{max_board_bytes}
use skrivle.Realtime.DocManager.{DocEntry, Registry, measure_min_ms, has_room, measure, fits}

module _ ⦃y : Yjs⦄ where
  open y use {Doc, encode_state, byte_length}

  -- The running total of a board is no less than the size of its encoded document.
  abbrev pub Covers : DocEntry Doc → Type 0
  Covers entry = byte_length (encode_state entry.doc) ≤ entry.bytes

  -- While the running total covers the document, an answer that there is room is right: the
  -- encoded document and what comes in stay within the ceiling.
  pub has_room_sound :
      (id : Text) (incoming now : ℕ) (docs : Registry Doc) (entry : DocEntry Doc)
      → find id docs ≡ some entry
      → Covers entry
      → (has_room id incoming now docs).0 ≡ true
      → byte_length (encode_state entry.doc) + incoming ≤ max_board_bytes
  unfolding has_room
  has_room_sound id incoming now docs entry found covers yes_room = ground arith

  -- And an answer that there is none is right too, unless the board was measured in the last second:
  -- the encoded document itself leaves no room for what comes in.
  pub has_room_complete :
      (id : Text) (incoming now : ℕ) (docs : Registry Doc) (entry : DocEntry Doc)
      → find id docs ≡ some entry
      → entry.measured_at + measure_min_ms ≤ now
      → (has_room id incoming now docs).0 ≡ false
      → max_board_bytes < byte_length (encode_state entry.doc) + incoming
  unfolding has_room
  has_room_complete id incoming now docs entry found due refused = ground arith

  -- Asking leaves the document, its sockets and its dirty flag alone, and a total that covers the
  -- document still does.
  pub has_room-Covers :
      (id : Text) (incoming now : ℕ) (docs : Registry Doc) (entry : DocEntry Doc)
      → find id docs ≡ some entry
      → Covers entry
      → (entry' : DocEntry Doc) × (find id (has_room id incoming now docs).1 ≡ some entry')
        × (entry'.doc ≡ entry.doc)
        × (entry'.sockets ≡ entry.sockets)
        × (entry'.dirty ≡ entry.dirty)
        × Covers entry'
  unfolding has_room
  has_room-Covers id incoming now docs entry found covers = (
    if fits entry.bytes incoming then entry else measure now entry,
    ground (arith, find-put id id (measure now entry) docs, ==_refl id),
    ground arith,
    ground arith,
    ground arith,
    ground arith,
  )
