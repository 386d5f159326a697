-- ===== src/Auth/SignIn.antt =====
-- back-end/src/http/routes/auth.ts: the routes of the emailed code and of sessions. What the limiters
-- answer is an argument (the seconds to wait when one refuses), and so is what the schemas make of a
-- body (`none` when they refuse it); mail goes out unseen.
pub mod Exact
use skrivle.Prelude.{
  ℕ, ◌≡◌, Bool, true, false, not, ◌&&◌, Option, none, some, List, [], ◌∷◌, Text, codes, text_eq,
  ◌==◌, if◌then◌else◌, arith,
}
use skrivle.Services.{CaseMap}
use skrivle.Auth.Otp.{
  CodeStore, VerifyResult, ok, expired, mismatch, exhausted, normalize_email, issue_code,
  verify_code, verify_each,
}
use skrivle.Auth.Identity.{
  User, ProviderProfile, Accounts, Resolved, resolved, collision, local_part, link, enrol,
  resolve_user,
}
use skrivle.Auth.Session.{
  SessionStore, SessionRecord, create_session, read_session, destroy_session, destroy_all_sessions,
}

-- publicUser
pub record PublicUser : Type 0 where
  pub id : Text
  pub email : Text
  pub name : Text
  pub avatar_url : Option Text

unfoldable pub public_user : User → PublicUser
public_user user = record {
  id = user.id;
  email = user.email;
  name = user.name;
  avatar_url = user.avatar_url;
}

pub data AuthAnswer : Type 0 where
  limited : ℕ → AuthAnswer
  invalid : AuthAnswer
  -- { ok: true, expiresInSeconds }, with the code in development only
  code_sent : Option Text → AuthAnswer
  code_refused : Text → Text → AuthAnswer
  signed_in : PublicUser → AuthAnswer

-- codeError
unfoldable pub code_error : VerifyResult → AuthAnswer
code_error expired =
    code_refused (codes "That code has expired or was already used.")
      (codes "Request a new code and enter it within 10 minutes.")
code_error exhausted =
    code_refused
      (codes "That code has been entered incorrectly too many times and is no longer valid.")
      (codes "Request a new code to try again.")
code_error mismatch =
    code_refused (codes "That code doesn't match the one sent to this address.")
      (codes "Check the most recent email and re-enter the code.")
code_error ok = invalid

abbrev pub is_ok : VerifyResult → Bool
is_ok ok = true
is_ok expired = false
is_ok mismatch = false
is_ok exhausted = false

module _ ⦃c : CaseMap⦄ ⦃s : CodeStore⦄ where
  -- authRouter.post("/email/request"): the answer, whether mail goes out, and the codes. `cooldown` is
  -- what inCooldown gives, `code` what is generated.
  unfoldable pub request_code :
      Option ℕ → Option ℕ → Bool → Bool → Option Text → Text → s.Db → AuthAnswer × Bool × s.Db
  unfolding issue_code
  request_code (some wait) per_email dev cooldown email code db = (limited wait, false, db)
  request_code none per_email dev cooldown none code db = (invalid, false, db)
  request_code none (some wait) dev cooldown (some email) code db = (limited wait, false, db)
  request_code none none dev cooldown (some email) code db =
      if cooldown
      then (code_sent none, false, db)
      else (code_sent (if dev then some code else none), true, issue_code email code db)

module _ ⦃c : CaseMap⦄ ⦃s : CodeStore⦄ ⦃a : Accounts⦄ ⦃z : SessionStore⦄ where
  -- What a verification leaves: the answer, the session of the cookie, and what is stored.
  pub record Verified : Type 0 where
    pub answer : AuthAnswer
    pub cookie : Option Text
    pub code_db : s.Db
    pub accounts : a.Db
    pub sessions : z.Db

  -- The profile that a code proves.
  unfoldable pub email_profile : Text → ProviderProfile
  unfolding normalize_email local_part
  email_profile email = record {
    provider = codes "email";
    provider_account_id = normalize_email email;
    email = email;
    email_verified = true;
    name = local_part email;
    avatar_url = none;
  }

  -- The session of a user who has proved the address.
  unfoldable pub open_session : Resolved → Text → Text → Option Text → s.Db → a.Db → z.Db → Verified
  unfolding create_session public_user
  open_session collision token now user_agent code_db accounts sessions = record {
    answer = invalid;
    cookie = none;
    code_db = code_db;
    accounts = accounts;
    sessions = sessions;
  }
  open_session (resolved user accounts') token now user_agent code_db accounts sessions = record {
    answer = signed_in (public_user user);
    cookie = some token;
    code_db = code_db;
    accounts = accounts';
    sessions = create_session user.id now user_agent token sessions;
  }

  -- authRouter.post("/email/verify"), from where its body is valid; `token` is what randomToken gives.
  unfoldable pub verify_email :
      Text → Text → Text → Text → Option Text → s.Db → a.Db → z.Db → Verified
  unfolding verify_code code_error resolve_user email_profile open_session
  verify_email email code token now user_agent db accounts sessions =
      let (result, db') = verify_code email code db in
      let refused : Verified = record {
        answer = code_error result;
        cookie = none;
        code_db = db';
        accounts = accounts;
        sessions = sessions;
      } in
      elim result [
        | ok ↦
            open_session (resolve_user (email_profile email) accounts) token now user_agent db'
              accounts sessions
        | expired ↦ refused
        | mismatch ↦ refused
        | exhausted ↦ refused
      ]

  -- The routes "/me", "/logout" and "/logout/all" on the stored sessions; `users` is the row of an id.
  unfoldable pub current_user : (Text → Option User) → Bool → Option Text → z.Db → Option PublicUser
  unfolding read_session public_user
  current_user users reached session_id sessions = elim (read_session reached session_id sessions) [
    | none ↦ none
    | some found ↦ elim (users found.user_id) [ none ↦ none | some user ↦ some (public_user user) ]
  ]

  abbrev pub logout : Option Text → z.Db → z.Db
  logout session_id sessions = destroy_session session_id sessions
