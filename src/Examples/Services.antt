-- ===== src/Examples/Services.antt =====
-- Yjs, Redis, lib0 and the awareness protocol in a form that computes: a document and an update are
-- the list of the numbers that they hold, a number encodes to itself.
use skrivle.Prelude.{
  ℕ, ◌+◌, ◌≡◌, refl, ap, true, false, inl, inr, Option, none, some, List, [], ◌∷◌, ◌++◌, map, Text,
  nat_eq, text_eq, ◌==◌, codes, length, take, drop, find, put, remove, find-put, find-remove, has,
  add, without, has-add, has-without, Among, Among-append_left, Among-append_right,
  Among-append_cases, if◌then◌else◌, arith,
}
use skrivle.Services.{Yjs, Redis, Lib0, AwarenessProtocol, SharedText, SharedBoard, index_of}

abbrev Within : List ℕ → List ℕ → Type 0
Within b u = (n : ℕ) → Among n u → Among n b

abbrev changes : List ℕ → List (List ℕ)
changes [] = []
changes (n ∷ u) = (n ∷ u) ∷ []

abbrev flat : List (List ℕ) → List ℕ
flat [] = []
flat (u ∷ us) = u ++ flat us

instance abbrev pub list_yjs : Yjs
list_yjs = record {
  Doc = List ℕ;
  Update = List ℕ;
  fresh = [];
  apply_update = λ d u. (d ++ u, true);
  encode_state = λ d. d;
  byte_length = λ u. length u;
  decode_structs = λ u. some (length u);
  diff_update = λ u d. u;
  observed = λ d u. changes u;
  merge_updates = flat;
  Vector = List ℕ;
  vector = λ d. d;
  encode_since = λ d v. d;
  has_pending = λ d. false;
  drop_pending = λ d. d;
  Holds = Within;
  Fits = λ d u. Unit;
  encode_readable = λ d e. refl;
  fits_encode = λ d e settled. tt;
  holds_self = λ d settled n a. a;
  holds_fits = λ d u h. tt;
  holds_trans = λ d e u h k n a. k n (h n a);
  fits_trans = λ d e u h k. tt;
  apply_keeps = λ d v u h n a. Among-append_left n d v (h n a);
  apply_brings = λ d u h ok n a. Among-append_right n d u a;
  apply_settles = λ d u h ok settled. refl;
  apply_least =
      λ d e u h k n a. elim (Among-append_cases n d u a) [ inl x ↦ h n x | inr x ↦ k n x ];
  fresh_least = λ e n a. elim a [ ];
  fresh_settled = refl;
  since_readable = λ d e. refl;
  since_brings = λ d e u h n a. Among-append_right n d e (h n a);
  drop_keeps = λ d u h. h;
}

abbrev Lists : Type 0
Lists = List (Text × List Text)

abbrev range : Lists → Text → List Text
range db k = elim (find k db) [ none ↦ [] | some l ↦ l ]

pub range-put :
    (k j : Text) (l : List Text) (db : Lists)
    → range (put k l db) j ≡ (if k == j then l else range db j)
range-put k j l db = ground (arith, find-put k j l db)

pub range-remove :
    (k j : Text) (db : Lists) → range (remove k db) j ≡ (if k == j then [] else range db j)
range-remove k j db = ground (arith, find-remove k j db)

instance abbrev pub list_redis : Redis (List ℕ)
list_redis = record {
  Db = Lists;
  lrange = range;
  rpush = λ k e db. put k (range db k ++ e ∷ []) db;
  lpos = λ db k e. index_of e (range db k);
  ltrim = λ k n db. put k (drop n (range db k)) db;
  del = λ k db. remove k db;
  to_base64 = λ u. u;
  from_base64 = λ u. u;
  lrange-rpush = λ k j e db. range-put k j (range db k ++ e ∷ []) db;
  lpos-lrange = λ k e db. refl;
  lrange-ltrim = λ k j n db. range-put k j (drop n (range db k)) db;
  lrange-del = λ k j db. range-remove k j db;
  from_base64-to_base64 = λ u. refl;
}

abbrev first : List ℕ → Option (ℕ × List ℕ)
first [] = none
first (n ∷ rest) = some (n, rest)

abbrev measured : List ℕ → Option (Text × List ℕ)
measured [] = none
measured (n ∷ rest) = some (take n rest, drop n rest)

take-length-append : (s rest : List ℕ) → take (length s) (s ++ rest) ≡ s
take-length-append [] rest = refl
take-length-append (c ∷ s) rest = ap (◌∷◌ c) (take-length-append s rest)

drop-length-append : (s rest : List ℕ) → drop (length s) (s ++ rest) ≡ rest
drop-length-append [] rest = refl
drop-length-append (c ∷ s) rest = drop-length-append s rest

pub measured-append : (s rest : List ℕ) → measured (length s ∷ (s ++ rest)) ≡ some (s, rest)
measured-append s rest = rw (take-length-append s rest, drop-length-append s rest) refl

instance abbrev pub plain_lib0 : Lib0
plain_lib0 = record {
  encode_uint = λ n. n ∷ [];
  encode_string = λ s. length s ∷ s;
  read_uint = first;
  read_string = measured;
  parses_to_null = λ s. some (s == codes "null");
  read_uint-encode = λ n rest. refl;
  read_string-encode = measured-append;
}

abbrev Shown : Type 0
Shown = ℕ → Option Text

abbrev shown_after : Shown → List (ℕ × ℕ × Text) → Shown
shown_after s [] c = s c
shown_after s ((k, clock, state) ∷ es) c =
    shown_after (λ j. if k == j then some state else s j) es c

pub shown-after :
    (s : Shown) (c : ℕ) (es : List (ℕ × ℕ × Text))
    → has c (map (λ e. e.0) es) ≡ false
    → shown_after s es c ≡ s c
unfolding has
shown-after s c [] h = refl
shown-after s c ((k, clock, state) ∷ es) h =
    ground (arith, shown-after (λ j. if k == j then some state else s j) c es)

instance abbrev pub map_awareness : AwarenessProtocol
map_awareness = record {
  States = Shown;
  state = λ s c. s c;
  apply_states = shown_after;
  remove_states = λ s cs c. if has c cs then none else s c;
  state-apply = shown-after;
  state-remove = λ s c cs. refl;
}

instance abbrev pub plain_text : SharedText
plain_text = record {
  YText = Text;
  to_string = λ t. t;
  delete = λ t i n. take i t ++ drop (i + n) t;
  insert = λ t i s. take i t ++ (s ++ drop i t);
  to_string-delete = λ t i n h k. refl;
  to_string-insert = λ t i s h. refl;
}

instance abbrev pub list_board : SharedBoard
list_board = record {
  Doc = List Text × List Text;
  Element = ℕ;
  keys = λ d. d.0;
  order = λ d. d.1;
  set_element = λ k e d. (add k d.0, d.1);
  delete_element = λ k d. (without k d.0, d.1);
  push_order = λ ids d. (d.0, d.1 ++ ids);
  delete_order = λ i d. (d.0, take i d.1 ++ drop (i + 1) d.1);
  insert_order = λ i id d. (d.0, take i d.1 ++ (id ∷ drop i d.1));
  keys-set = λ k j e d. has-add k j d.0;
  keys-delete = λ k j d. has-without k j d.0;
  keys-push = λ ids d. refl;
  keys-delete_order = λ i d. refl;
  keys-insert = λ i id d. refl;
  order-set = λ k e d. refl;
  order-delete = λ k d. refl;
  order-push = λ ids d. refl;
  order-delete_order = λ i d. refl;
  order-insert = λ i id d. refl;
}
