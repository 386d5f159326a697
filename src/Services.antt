-- ===== src/Services.antt =====
-- What the program relies on and does not implement, each with the documented behaviour that the
-- proofs use: the Yjs document, Redis lists, and the table of stored documents.
use skrivle.Prelude.{
  ℕ, zero, suc, ◌+◌, ◌≡◌, Bool, true, false, not, ◌&&◌, ◌||◌, Option, none, some, List, [], ◌∷◌,
  ◌++◌, Text, text_eq, ◌==◌, take, drop, has, map, nat_eq, leb, if◌then◌else◌,
}

-- Where an entry first stands in a list, as LPOS answers.
unfoldable pub index_of : Text → List Text → Option ℕ
index_of x [] = none
index_of x (y ∷ ys) =
    if y == x then some 0 else elim (index_of x ys) [ none ↦ none | some n ↦ some (n + 1) ]

-- A Y.Doc, and updates of it. An update can build on changes that a document lacks: then Yjs keeps
-- that part of it pending and takes it in when they come. `Holds d u` says that all of the update
-- `u` has been taken into the document `d`, and `Fits d u` that `u` builds on nothing that `d` lacks.
pub record Yjs : Type 1 where
  pub Doc : Type 0
  pub Update : Type 0
  -- new Y.Doc()
  pub fresh : Doc
  -- Y.applyUpdate: the document afterwards, and whether it returned without throwing.
  pub apply_update : Doc → Update → Doc × Bool
  -- Y.encodeStateAsUpdate
  pub encode_state : Doc → Update
  pub byte_length : Update → ℕ
  -- Y.decodeUpdate(u).structs.length; `none` when the bytes cannot be decoded.
  pub decode_structs : Update → Option ℕ
  -- Y.diffUpdate(u, Y.encodeStateVector(doc))
  pub diff_update : Update → Doc → Update
  -- The "update" events that applying an update to a document fires.
  pub observed : Doc → Update → List Update
  pub merge_updates : List Update → Update
  pub Vector : Type 0
  -- Y.encodeStateVector, and Y.encodeStateAsUpdate(doc, vector)
  pub vector : Doc → Vector
  pub encode_since : Doc → Vector → Update
  -- Whether the store has pending structs or deletions, and the document without them.
  pub has_pending : Doc → Bool
  pub drop_pending : Doc → Doc
  pub Holds : Doc → Update → Type 0
  pub Fits : Doc → Update → Type 0
  -- What a document encodes to can be applied, and is complete when nothing in it is pending.
  pub encode_readable : (d e : Doc) → (apply_update d (encode_state e)).1 ≡ true
  pub fits_encode : (d e : Doc) → has_pending d ≡ false → Fits e (encode_state d)
  pub holds_self : (d : Doc) → has_pending d ≡ false → Holds d (encode_state d)
  pub holds_fits : (d : Doc) (u : Update) → Holds d u → Fits d u
  -- A document that holds all of another holds what that one holds, and what fits that one fits it.
  pub holds_trans : (d e : Doc) (u : Update) → Holds d u → Holds e (encode_state d) → Holds e u
  pub fits_trans : (d e : Doc) (u : Update) → Fits d u → Holds e (encode_state d) → Fits e u
  -- Applying an update takes nothing away, brings what fits, leaves nothing of that pending, and brings
  -- nothing else than the update and what was pending, which is encoded too.
  pub apply_keeps : (d : Doc) (v u : Update) → Holds d u → Holds (apply_update d v).0 u
  pub apply_brings :
      (d : Doc) (u : Update) → Fits d u → (apply_update d u).1 ≡ true → Holds (apply_update d u).0 u
  pub apply_settles :
      (d : Doc) (u : Update)
      → Fits d u
      → (apply_update d u).1 ≡ true
      → has_pending d ≡ false
      → has_pending (apply_update d u).0 ≡ false
  pub apply_least :
      (d e : Doc) (u : Update)
      → Holds e (encode_state d)
      → Holds e u
      → Holds e (encode_state (apply_update d u).0)
  pub fresh_least : (e : Doc) → Holds e (encode_state fresh)
  pub fresh_settled : has_pending fresh ≡ false
  -- What the one document has beyond the other's vector brings the other all that the one holds.
  pub since_readable : (d e : Doc) → (apply_update d (encode_since e (vector d))).1 ≡ true
  pub since_brings :
      (d e : Doc) (u : Update) → Holds e u → Holds (apply_update d (encode_since e (vector d))).0 u
  -- What is pending is not in the document.
  pub drop_keeps : (d : Doc) (u : Update) → Holds d u → Holds (drop_pending d) u

-- Redis lists, seen through LRANGE key 0 -1, and the base64 of node's Buffer.
pub record Redis (Update : Type 0) : Type 1 where
  pub Db : Type 0
  pub lrange : Db → Text → List Text
  pub rpush : Text → Text → Db → Db
  pub lpos : Db → Text → Text → Option ℕ
  -- LTRIM key start -1
  pub ltrim : Text → ℕ → Db → Db
  pub del : Text → Db → Db
  pub to_base64 : Update → Text
  pub from_base64 : Text → Update
  pub lrange-rpush :
      (k j e : Text) (db : Db)
      → lrange (rpush k e db) j ≡ (if k == j then lrange db k ++ e ∷ [] else lrange db j)
  pub lpos-lrange : (k e : Text) (db : Db) → lpos db k e ≡ index_of e (lrange db k)
  pub lrange-ltrim :
      (k j : Text) (n : ℕ) (db : Db)
      → lrange (ltrim k n db) j ≡ (if k == j then drop n (lrange db k) else lrange db j)
  pub lrange-del :
      (k j : Text) (db : Db) → lrange (del k db) j ≡ (if k == j then [] else lrange db j)
  pub from_base64-to_base64 : (u : Update) → from_base64 (to_base64 u) ≡ u

-- lib0's encoding of numbers and strings, and JSON.parse as far as the program looks at its result:
-- `none` when it throws, else whether the value is null.
pub record Lib0 : Type 1 where
  pub encode_uint : ℕ → List ℕ
  pub encode_string : Text → List ℕ
  pub read_uint : List ℕ → Option (ℕ × List ℕ)
  pub read_string : List ℕ → Option (Text × List ℕ)
  pub parses_to_null : Text → Option Bool
  pub read_uint-encode :
      (n : ℕ) (rest : List ℕ) → read_uint (encode_uint n ++ rest) ≡ some (n, rest)
  pub read_string-encode :
      (s : Text) (rest : List ℕ) → read_string (encode_string s ++ rest) ≡ some (s, rest)

-- The Awareness of y-protocols: a state for each client id, as the JSON it came as.
pub record AwarenessProtocol : Type 1 where
  pub States : Type 0
  pub state : States → ℕ → Option Text
  -- applyAwarenessUpdate, of the (client id, clock, state) entries of an update
  pub apply_states : States → List (ℕ × ℕ × Text) → States
  -- removeAwarenessStates
  pub remove_states : States → List ℕ → States
  pub state-apply :
      (s : States) (c : ℕ) (es : List (ℕ × ℕ × Text))
      → has c (map (λ e. e.0) es) ≡ false
      → state (apply_states s es) c ≡ state s c
  pub state-remove :
      (s : States) (c : ℕ) (cs : List ℕ)
      → state (remove_states s cs) c ≡ (if has c cs then none else state s c)

-- Whether what stands before an index is the first half of a surrogate pair: where Yjs cuts a string
-- there it writes U+FFFD for both halves.
abbrev pub is_high : ℕ → Bool
is_high c = leb 55296 c && leb c 56319

unfoldable pub halves_pair : Text → ℕ → Bool
halves_pair s zero = false
halves_pair [] (suc i) = false
halves_pair (c ∷ s) (suc zero) = is_high c
halves_pair (c ∷ s) (suc (suc i)) = halves_pair s (suc i)

-- A Y.Text, through toString(). What an edit does is said where it halves no pair.
pub record SharedText : Type 1 where
  pub YText : Type 0
  pub to_string : YText → Text
  -- delete(index, length), insert(index, text)
  pub delete : YText → ℕ → ℕ → YText
  pub insert : YText → ℕ → Text → YText
  pub to_string-delete :
      (t : YText) (i n : ℕ)
      → halves_pair (to_string t) i ≡ false
      → halves_pair (to_string t) (i + n) ≡ false
      → to_string (delete t i n) ≡ take i (to_string t) ++ drop (i + n) (to_string t)
  pub to_string-insert :
      (t : YText) (i : ℕ) (s : Text)
      → halves_pair (to_string t) i ≡ false
      → to_string (insert t i s) ≡ take i (to_string t) ++ (s ++ drop i (to_string t))

-- The two root types of a board's Y.Doc: the Y.Map of elements, through its keys, and the Y.Array of
-- the paint order, through toArray().
pub record SharedBoard : Type 1 where
  pub Doc : Type 0
  pub Element : Type 0
  pub keys : Doc → List Text
  pub order : Doc → List Text
  pub set_element : Text → Element → Doc → Doc
  pub delete_element : Text → Doc → Doc
  -- push(ids), delete(i, 1) and insert(i, [id]) on the order
  pub push_order : List Text → Doc → Doc
  pub delete_order : ℕ → Doc → Doc
  pub insert_order : ℕ → Text → Doc → Doc
  pub keys-set :
      (k j : Text) (e : Element) (d : Doc)
      → has j (keys (set_element k e d)) ≡ (k == j || has j (keys d))
  pub keys-delete :
      (k j : Text) (d : Doc) → has j (keys (delete_element k d)) ≡ (not (k == j) && has j (keys d))
  pub keys-push : (ids : List Text) (d : Doc) → keys (push_order ids d) ≡ keys d
  pub keys-delete_order : (i : ℕ) (d : Doc) → keys (delete_order i d) ≡ keys d
  pub keys-insert : (i : ℕ) (id : Text) (d : Doc) → keys (insert_order i id d) ≡ keys d
  pub order-set : (k : Text) (e : Element) (d : Doc) → order (set_element k e d) ≡ order d
  pub order-delete : (k : Text) (d : Doc) → order (delete_element k d) ≡ order d
  pub order-push : (ids : List Text) (d : Doc) → order (push_order ids d) ≡ order d ++ ids
  pub order-delete_order :
      (i : ℕ) (d : Doc) → order (delete_order i d) ≡ take i (order d) ++ drop (i + 1) (order d)
  pub order-insert :
      (i : ℕ) (id : Text) (d : Doc)
      → order (insert_order i id d) ≡ take i (order d) ++ (id ∷ drop i (order d))

-- White space and line terminators, as `trim` takes them.
unfoldable pub is_space : ℕ → Bool
is_space c =
    (leb 9 c && leb c 13)
    || has c (32 ∷ 160 ∷ 5760 ∷ 8232 ∷ 8233 ∷ 8239 ∷ 8287 ∷ 12288 ∷ 65279 ∷ [])
    || (leb 8192 c && leb c 8202)

unfoldable pub trim_start : Text → Text
unfolding is_space
trim_start [] = []
trim_start (c ∷ s) = let rest = trim_start s in if is_space c then rest else c ∷ s

-- trimEnd
unfoldable pub trim_end : Text → Text
unfolding is_space
trim_end [] = []
trim_end (c ∷ s) = elim (trim_end s) [
  | [] ↦ if is_space c then [] else c ∷ []
  | d ∷ rest ↦ c ∷ d ∷ rest
]

unfoldable pub trim : Text → Text
unfolding trim_start trim_end
trim s = trim_end (trim_start s)

-- `toLowerCase` follows Unicode's tables: it maps white space to itself and nothing else to white
-- space, and what it gives is in lower case.
pub record CaseMap : Type 0 where
  pub lower : Text → Text
  pub lower-trim : (s : Text) → trim (lower s) ≡ lower (trim s)
  pub lower-lower : (s : Text) → lower (lower s) ≡ lower s
