-- ===== src/Examples/Upkeep.antt =====
-- Counters and sessions in a form that computes, and runs of the limits, the sweep, the sessions and
-- the index of local copies.
use skrivle.Prelude.{
  ℕ, ◌+◌, ◌≡◌, refl, true, false, none, some, List, [], ◌∷◌, Text, codes, text_eq, text_beq, ◌==◌,
  ==_refl, find, put, remove, find-put, find-remove, has, add, without, if◌then◌else◌, arith,
}
use skrivle.Services.{trim}
use skrivle.Examples.Services.{list_yjs, list_redis}
use skrivle.Examples.Tables.{ascii_case, list_table, TableRows}
use skrivle.Realtime.UpdateLog.{starts_with}
use skrivle.Realtime.DocManager.{Registry}
use skrivle.Boards.Service.{BoardRow}
use skrivle.Upkeep.RateLimit.{RateLimitRule, Counters}
use skrivle.Auth.Session.{
  destroy_all-revokes, user_sessions_key, create_session, destroy_all_sessions, read_session,
  SessionRecord, SessionStore,
}
use skrivle.Browser.Copies.{
  CopyEntry, open_local_copy, belongs_to, copy_prefix, name_for, open-keeps_unsynced,
}

abbrev Counts : Type 0
Counts = List (Text × ℕ)

abbrev count_of : Text → Counts → ℕ
count_of k d = elim (find k d) [ none ↦ 0 | some n ↦ n ]

count_of-put : (k : Text) (n : ℕ) (d : Counts) → count_of k (put k n d) ≡ n
count_of-put k n d = ground (arith, find-put k k n d, ==_refl k)

count_of-remove : (k : Text) (d : Counts) → count_of k (remove k d) ≡ 0
count_of-remove k d = ground (arith, find-remove k k d, ==_refl k)

instance abbrev list_counters : Counters
list_counters = record {
  Db = Counts;
  count = count_of;
  incr = λ k d. put k (count_of k d + 1) d;
  expire = λ k n d. d;
  ttl = λ k d. 0;
  del = remove;
  count-incr = λ k d. count_of-put k (count_of k d + 1) d;
  count-expire = λ k j n d. refl;
  count-del = count_of-remove;
}

abbrev sign_in : RateLimitRule
sign_in = record { bucket = codes "otp:email"; limit = 5; window_seconds = 3600 }

abbrev guest_row : BoardRow
guest_row = record {
  id = codes "b";
  title = none;
  owner_id = none;
  is_ephemeral = true;
  expires_at = some 5;
  creator_token_hash = none;
  thumbnail_id = none;
}

abbrev guest_rows : TableRows
guest_rows = ((codes "b", guest_row) ∷ [], λ j u. none)

abbrev opened : Registry (List ℕ)
opened =
    (codes "b", record { doc = []; sockets = []; dirty = false; bytes = 0; measured_at = 0 }) ∷ []

abbrev pub Kept : Type 0
Kept = List (Text × SessionRecord) × List (Text × List Text)

abbrev members_of : Text → Kept → List Text
members_of k d = elim (find k d.1) [ none ↦ [] | some l ↦ l ]

pub get-del_of :
    (k j : Text) (d : Kept) → find j (remove k d.0) ≡ (if k == j then none else find j d.0)
get-del_of k j d = find-remove k j d.0

instance abbrev pub list_sessions : SessionStore
list_sessions = record {
  Db = Kept;
  hash_token = λ t. 104 ∷ t;
  get = λ k d. find k d.0;
  set = λ k r d. (put k r d.0, d.1);
  del = λ k d. (remove k d.0, remove k d.1);
  members = members_of;
  add_member = λ k m d. (d.0, put k (add m (members_of k d)) d.1);
  remove_member = λ k m d. (d.0, put k (without m (members_of k d)) d.1);
  get-del = get-del_of;
}

abbrev unsent : CopyEntry
unsent = record { at = 0; unsynced = true }

open-keeps_unsynced_example :
    find
      (codes "skrivle-board:old:1")
      (open_local_copy true
        (codes "new")
        (codes "2")
        9000000000
        ((codes "skrivle-board:old:1", unsent) ∷ [])).index
    ≡ some unsent
unfolding find text_beq belongs_to copy_prefix name_for starts_with trim has
open-keeps_unsynced_example =
    open-keeps_unsynced true (codes "new") (codes "2") (codes "skrivle-board:old:1") 9000000000
      ((codes "skrivle-board:old:1", unsent) ∷ []) unsent refl refl refl refl

destroy_all-revokes_example :
    read_session true
      (some (codes "t"))
      (destroy_all_sessions
        (codes "u")
        (create_session (codes "u") (codes "now") none (codes "t") ([], []))).1
    ≡ none
unfolding create_session user_sessions_key has find put add text_beq
destroy_all-revokes_example =
    destroy_all-revokes (codes "u") (codes "t") true
      (create_session (codes "u") (codes "now") none (codes "t") ([], [])) refl
