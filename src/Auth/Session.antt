-- ===== src/Auth/Session.antt =====
-- back-end/src/auth/session.ts: sessions in Redis. A record stands for the JSON that it is stored as; a
-- session that has expired is one that is not there.
use skrivle.Prelude.{
  ℕ, nat_eq, ◌≡◌, refl, ap, Bool, true, false, Bool-cases, inl, inr, Option, none, some, List, [],
  ◌∷◌, ◌++◌, Text, codes, text_eq, ◌==◌, ==_iff, take, length, has, if◌then◌else◌, arith,
}

pub record SessionRecord : Type 0 where
  pub user_id : Text
  pub created_at : Text
  pub user_agent : Option Text

-- Redis strings and sets, and the HMAC of auth/hash.ts.
pub record SessionStore : Type 1 where
  pub Db : Type 0
  pub hash_token : Text → Text
  pub get : Text → Db → Option SessionRecord
  pub set : Text → SessionRecord → Db → Db
  pub del : Text → Db → Db
  pub members : Text → Db → List Text
  pub add_member : Text → Text → Db → Db
  pub remove_member : Text → Text → Db → Db
  pub get-del : (k j : Text) (d : Db) → get j (del k d) ≡ (if k == j then none else get j d)

module _ ⦃s : SessionStore⦄ where
  open s use {Db, hash_token, get, set, del, members, add_member, remove_member, get-del}

  -- keys.session
  unfoldable pub session_key : Text → Text
  session_key session_id = codes "sess:" ++ hash_token session_id

  -- keys.userSessions
  unfoldable pub user_sessions_key : Text → Text
  user_sessions_key user_id = codes "usess:" ++ user_id

  -- An empty user agent is as good as none; the others are cut.
  unfoldable pub kept_agent : Option Text → Option Text
  kept_agent none = none
  kept_agent (some []) = none
  kept_agent (some (c ∷ agent)) = some (take 200 (c ∷ agent))

  -- createSession, of the token that randomToken gives.
  unfoldable pub create_session : Text → Text → Option Text → Text → Db → Db
  unfolding session_key user_sessions_key kept_agent
  create_session user_id now user_agent session_id db =
      add_member (user_sessions_key user_id) (hash_token session_id) (
        set (session_key session_id)
          (record { user_id = user_id; created_at = now; user_agent = kept_agent user_agent }) db)

  -- readSession; `reached` is false when a command throws.
  unfoldable pub read_session : Bool → Option Text → Db → Option SessionRecord
  unfolding session_key
  read_session reached none db = none
  read_session reached (some []) db = none
  read_session reached (some (c ∷ id)) db = if reached then get (session_key (c ∷ id)) db else none

  -- destroySession, with every command answered.
  unfoldable pub destroy_session : Option Text → Db → Db
  unfolding read_session session_key user_sessions_key
  destroy_session none db = db
  destroy_session (some []) db = db
  destroy_session (some (c ∷ id)) db =
      let gone = del (session_key (c ∷ id)) db in
      elim (read_session true (some (c ∷ id)) db) [
        | none ↦ gone
        | some found ↦ remove_member (user_sessions_key found.user_id) (hash_token (c ∷ id)) gone
      ]

  unfoldable pub del_sessions : List Text → Db → Db
  del_sessions [] db = db
  del_sessions (hash ∷ hashes) db = del_sessions hashes (del (codes "sess:" ++ hash) db)

  -- destroyAllSessions
  unfoldable pub destroy_all_sessions : Text → Db → ℕ × Db
  unfolding del_sessions user_sessions_key
  destroy_all_sessions user_id db =
      let hashes = members (user_sessions_key user_id) db in
      if length hashes == 0
      then (0, db)
      else (length hashes, del (user_sessions_key user_id) (del_sessions hashes db))

  del-keeps_none : (k j : Text) (db : Db) → get j db ≡ none → get j (del k db) ≡ none
  del-keeps_none k j db h = ground (arith, get-del k j db)

  del_sessions-keeps_none :
      (j : Text) (hashes : List Text) (db : Db)
      → get j db ≡ none
      → get j (del_sessions hashes db) ≡ none
  unfolding del_sessions
  del_sessions-keeps_none j [] db h = h
  del_sessions-keeps_none j (hash ∷ hashes) db h =
      del_sessions-keeps_none j hashes (del (codes "sess:" ++ hash) db)
        (del-keeps_none (codes "sess:" ++ hash) j db h)

  get-del_sessions :
      (hash : Text) (hashes : List Text) (db : Db)
      → has hash hashes ≡ true
      → get (codes "sess:" ++ hash) (del_sessions hashes db) ≡ none
  unfolding del_sessions has
  get-del_sessions hash [] db h = ground arith
  get-del_sessions hash (j ∷ hashes) db h =
      let key = codes "sess:" ++ hash in
      elim (Bool-cases (j == hash)) [
        | inl e ↦
            let same : codes "sess:" ++ j ≡ key =
              ap (λ x. codes "sess:" ++ x) ((==_iff j hash).0 e) in
            let gone : get key (del (codes "sess:" ++ j) db) ≡ none =
              ground
                (arith, get-del (codes "sess:" ++ j) key db, ==_iff (codes "sess:" ++ j) key) in
            del_sessions-keeps_none key hashes (del (codes "sess:" ++ j) db) gone
        | inr n ↦ get-del_sessions hash hashes (del (codes "sess:" ++ j) db) (ground arith)
      ]

  some_listed :
      (hash : Text) (hashes : List Text) → has hash hashes ≡ true → (length hashes == 0) ≡ false
  unfolding has
  some_listed hash [] h = ground arith
  some_listed hash (j ∷ hashes) h = ground arith

  -- Signing out everywhere ends each session that the user's index lists: its token reads as nobody's.
  pub destroy_all-revokes :
      (user_id session_id : Text) (reached : Bool) (db : Db)
      → has (hash_token session_id) (members (user_sessions_key user_id) db) ≡ true
      → read_session reached (some session_id) (destroy_all_sessions user_id db).1 ≡ none
  unfolding read_session destroy_all_sessions session_key has
  destroy_all-revokes user_id [] reached db h = refl
  destroy_all-revokes user_id (c ∷ id) reached db h =
      let hashes = members (user_sessions_key user_id) db in
      let key = codes "sess:" ++ hash_token (c ∷ id) in
      let gone = get-del_sessions (hash_token (c ∷ id)) hashes db h in
      let ended = del-keeps_none (user_sessions_key user_id) key (del_sessions hashes db) gone in
      ground (arith, some_listed (hash_token (c ∷ id)) hashes h, ended)
