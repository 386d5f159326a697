-- ===== src/Examples/Tables.antt =====
-- Lower case, the tables of boards and collaborators and the hashes of sign-in codes, in a form that
-- computes: ASCII letters have a lower case, a hash puts a mark before its text.
use skrivle.Prelude.{
  ℕ, ◌+◌, ◌≡◌, refl, ap, ◌∙◌, Bool, true, false, Bool-cases, inl, inr, Option-cases, has, ◌&&◌,
  Option, none, some, is_some, List, [], ◌∷◌, Text, nat_eq, text_eq, ◌==◌, ==_iff, ==_refl, leb,
  find, put, remove, find-put, find-remove, if◌then◌else◌, arith,
}
use skrivle.Services.{CaseMap, is_space, trim_start, trim_end, trim}
use skrivle.Boards.Service.{Role, owner, BoardRow, BoardTable}
use skrivle.Auth.Otp.{CodeStore}

abbrev lower_unit : ℕ → ℕ
lower_unit c = if leb 65 c && leb c 90 then c + 32 else c

abbrev lower_text : Text → Text
lower_text [] = []
lower_text (c ∷ s) = lower_unit c ∷ lower_text s

pub lower-lower_text : (s : Text) → lower_text (lower_text s) ≡ lower_text s
lower-lower_text [] = refl
lower-lower_text (c ∷ s) = ground (arith, lower-lower_text s)

is_space-lower : (c : ℕ) → is_space (lower_unit c) ≡ is_space c
unfolding is_space has
is_space-lower c = elim (Bool-cases (leb 65 c && leb c 90)) [
  | inl e ↦ rw e (ground arith)
  | inr e ↦ rw e refl
]

trim_start-lower : (s : Text) → trim_start (lower_text s) ≡ lower_text (trim_start s)
unfolding trim_start
trim_start-lower [] = refl
trim_start-lower (c ∷ s) = ground (arith, is_space-lower c, trim_start-lower s)

trim_end-lower : (s : Text) → trim_end (lower_text s) ≡ lower_text (trim_end s)
unfolding trim_end
trim_end-lower [] = refl
trim_end-lower (c ∷ s) = ground (arith, is_space-lower c, trim_end-lower s)

pub trim-lower : (s : Text) → trim (lower_text s) ≡ lower_text (trim s)
unfolding trim
trim-lower s = ap trim_end (trim_start-lower s) ∙ trim_end-lower (trim_start s)

instance abbrev pub ascii_case : CaseMap
ascii_case = record { lower = lower_text; lower-trim = trim-lower; lower-lower = lower-lower_text }

abbrev pub TableRows : Type 0
TableRows = List (Text × BoardRow) × (Text → Text → Option Role)

abbrev pub names_user : Option Text → Text → Bool
names_user none u = false
names_user (some v) u = v == u

abbrev insert_row : BoardRow → Option Text → TableRows → Option TableRows
insert_row b c (boards, roles) =
    if is_some (find b.id boards)
    then none
    else some
        (put b.id b boards, λ j u. if b.id == j && names_user c u then some owner else roles j u)

abbrev change_row : Text → (BoardRow → BoardRow) → TableRows → TableRows
change_row k f (boards, roles) =
    (elim (find k boards) [ none ↦ boards | some b ↦ put k (f b) boards ], roles)

pub insert-taken :
    (b : BoardRow) (c : Option Text) (d : TableRows)
    → is_some (find b.id d.0) ≡ true
    → insert_row b c d ≡ none
insert-taken b c d h = rw h refl

pub insert-absent :
    (b : BoardRow) (c : Option Text) (d : TableRows)
    → find b.id d.0 ≡ none
    → is_some (insert_row b c d) ≡ true
insert-absent b c d h = rw h refl

pub insert-new :
    (b : BoardRow) (c : Option Text) (d d' : TableRows) (j : Text)
    → insert_row b c d ≡ some d'
    → find j d'.0 ≡ (if b.id == j then some b else find j d.0)
insert-new b c d d' j h = ground (arith, find-put b.id j b d.0)

pub change-found :
    (k j : Text) (f : BoardRow → BoardRow) (d : TableRows)
    → find j (change_row k f d).0
      ≡ (if k == j then elim (find j d.0) [ none ↦ none | some b ↦ some (f b) ] else find j d.0)
change-found k j f d = elim (Option-cases (find k d.0)) [
  | inl e ↦ ground (arith, ==_iff k j)
  | inr (b, e) ↦ ground (arith, ==_iff k j, find-put k j (f b) d.0)
]

abbrev assign : Text → Text → Role → TableRows → TableRows
assign k u role d = (d.0, λ j v. if k == j && u == v then some role else d.1 j v)

pub assign-found :
    (k u : Text) (role : Role) (d : TableRows) → (assign k u role d).1 k u ≡ some role
assign-found k u role d = ground (arith, ==_refl k, ==_refl u)

instance abbrev pub list_table : BoardTable
list_table = record {
  Rows = TableRows;
  hash_token = λ t. 104 ∷ t;
  find_board = λ k d. find k d.0;
  create_row = insert_row;
  update_row = change_row;
  delete_row = λ k d. (remove k d.0, λ j u. if k == j then none else d.1 j u);
  find_role = λ k u d. d.1 k u;
  upsert_role = assign;
  create-taken = insert-taken;
  create-absent = insert-absent;
  create-new = insert-new;
  find-update = change-found;
  find-delete = λ k j d. find-remove k j d.0;
  find-upsert = λ k u j role d. refl;
  role-upsert = assign-found;
  role-update = λ k j u f d. refl;
}

abbrev pub CodeRows : Type 0
CodeRows = List (Text × (Option Text × ℕ))

abbrev hash_at : Text → CodeRows → Option Text
hash_at k d = elim (find k d) [ none ↦ none | some e ↦ e.0 ]

abbrev count_at : Text → CodeRows → ℕ
count_at k d = elim (find k d) [ none ↦ 0 | some e ↦ e.1 ]

pub hash-put : (k : Text) (h : Option Text) (n : ℕ) (d : CodeRows) → hash_at k (put k (h, n) d) ≡ h
hash-put k h n d = ground (arith, find-put k k (h, n) d, ==_refl k)

pub count-put :
    (k : Text) (h : Option Text) (n : ℕ) (d : CodeRows) → count_at k (put k (h, n) d) ≡ n
count-put k h n d = ground (arith, find-put k k (h, n) d, ==_refl k)

pub hash-remove : (k : Text) (d : CodeRows) → hash_at k (remove k d) ≡ none
hash-remove k d = ground (arith, find-remove k k d, ==_refl k)

pub count-remove : (k : Text) (d : CodeRows) → count_at k (remove k d) ≡ 0
count-remove k d = ground (arith, find-remove k k d, ==_refl k)

instance abbrev pub list_codes : CodeStore
list_codes = record {
  Db = CodeRows;
  hash_token = λ t. 104 ∷ t;
  code_hash = hash_at;
  attempts = count_at;
  set_code = λ k h d. put k (some h, 0) d;
  incr_attempts = λ k d. put k (hash_at k d, count_at k d + 1) d;
  del = λ k d. remove k d;
  code-set = λ k h d. hash-put k (some h) 0 d;
  attempts-set = λ k h d. count-put k (some h) 0 d;
  code-incr = λ k d. hash-put k (hash_at k d) (count_at k d + 1) d;
  attempts-incr = λ k d. count-put k (hash_at k d) (count_at k d + 1) d;
  code-del = hash-remove;
  attempts-del = count-remove;
}
