-- ===== src/Auth/SignIn/Exact.antt =====
-- back-end/src/http/routes/auth.ts: what it takes to be signed in by a code.
use skrivle.Prelude.{
  ◌≡◌, refl, sym, ◌∙◌, ◌&&◌, ◌==◌, text_eq, ltb, [], ◌∷◌, Option-cases, inl, inr, Bool, true, false,
  Bool-cases, Option, none, some, Text, arith,
}
use mathlib.Core.Path.{subst}
use skrivle.Services.{CaseMap}
use skrivle.Auth.Otp.{CodeStore, otp_key, read_code, finish_guess, verify_code, max_attempts}
use skrivle.Auth.Identity.{
  Resolved, collision, resolved, link, enrol, User, ProviderProfile, Accounts, resolve_user,
}
use skrivle.Auth.Identity.Rightful.{Rightful, resolve-Rightful}
use skrivle.Auth.Session.{SessionStore, create_session}
use skrivle.Auth.SignIn.{
  public_user, signed_in, Verified, email_profile, open_session, verify_email, is_ok,
}

module _ ⦃c : CaseMap⦄ ⦃s : CodeStore⦄ ⦃a : Accounts⦄ ⦃z : SessionStore⦄ where
  is_resolved : Resolved → Bool
  is_resolved collision = false
  is_resolved (resolved user db) = true

  resolved-of :
      (r : Resolved) → is_resolved r ≡ true → (user : User) × (db : a.Db) × (r ≡ resolved user db)
  unfolding is_resolved
  resolved-of collision h = ground arith
  resolved-of (resolved user db) h = (user, db, refl)

  verified-resolves :
      (profile : ProviderProfile) (accounts : a.Db)
      → profile.email_verified ≡ true
      → is_resolved (resolve_user profile accounts) ≡ true
  unfolding resolve_user link enrol is_resolved
  verified-resolves profile accounts sure = ground arith

  -- The code is the one that was issued to the address, and fewer than five guesses have been counted.
  unfoldable pub is_right : Text → Text → s.Db → Bool
  unfolding otp_key
  is_right email code db = elim (s.code_hash (otp_key email) db) [
    | none ↦ false
    | some [] ↦ false
    | some (x ∷ h) ↦
        (s.hash_token code == (x ∷ h)) && ltb (s.attempts (otp_key email) db) max_attempts
  ]

  verify-is_right :
      (email code : Text) (db : s.Db) → is_ok (verify_code email code db).0 ≡ is_right email code db
  unfolding verify_code read_code finish_guess is_right
  verify-is_right email code db =
      let key = otp_key email in
      elim (Option-cases (s.code_hash key db)) [
        | inl e ↦ ground (arith, e)
        | inr ([], e) ↦ ground (arith, e)
        | inr (x ∷ h, e) ↦ ground (arith, e, s.attempts-incr key db)
      ]

  verify-used :
      (email code : Text) (db : s.Db)
      → is_ok (verify_code email code db).0 ≡ true
      → s.code_hash (otp_key email) (verify_code email code db).1 ≡ none
  unfolding verify_code read_code finish_guess
  verify-used email code db h =
      let key = otp_key email in
      let gone = s.code-del key (s.incr_attempts key db) in
      elim (Option-cases (s.code_hash key db)) [
        | inl e ↦ ground (arith, e, h)
        | inr ([], e) ↦ ground (arith, e, h)
        | inr (x ∷ g, e) ↦ ground (arith, e, h, gone)
      ]

  -- What a verification comes to, by whether the code was right.
  pub data Exact (email token now : Text) (user_agent : Option Text) (right : Bool)
      (accounts : a.Db) (sessions : z.Db) (v : Verified) : Type 0 where
    signs_in :
        (user : User)
        → right ≡ true
        → v.answer ≡ signed_in (public_user user)
        → v.cookie ≡ some token
        → Rightful (email_profile email) accounts (resolved user v.accounts)
        → v.sessions ≡ create_session user.id now user_agent token sessions
        → s.code_hash (otp_key email) v.code_db ≡ none
        → Exact email token now user_agent right accounts sessions v
    turns_away :
        right ≡ false
        → v.cookie ≡ none
        → v.accounts ≡ accounts
        → v.sessions ≡ sessions
        → Exact email token now user_agent right accounts sessions v

  -- The code that was issued to an address, while fewer than five guesses have been counted, signs in a
  -- user to whom the verified address belongs or who is new, with a session of their own, and is used
  -- up; any other code leaves accounts and sessions as they were and sets no cookie.
  pub verify-Exact :
      (email code token now : Text) (user_agent : Option Text) (db : s.Db) (accounts : a.Db)
      (sessions : z.Db)
      → Exact email token now user_agent
          (is_right email code db)
          accounts
          sessions
          (verify_email email code token now user_agent db accounts sessions)
  unfolding verify_email open_session email_profile
  verify-Exact email code token now user_agent db accounts sessions =
      let (user, accounts', e) =
        resolved-of (resolve_user (email_profile email) accounts)
          (verified-resolves (email_profile email) accounts refl) in
      let same = verify-is_right email code db in
      let rightful : Rightful (email_profile email) accounts (resolved user accounts') =
        subst (Rightful (email_profile email) accounts) e
          (resolve-Rightful (email_profile email) accounts) in
      elim (Bool-cases (is_ok (verify_code email code db).0)) [
        | inl y ↦
            let at : (verify_email email code token now user_agent db accounts sessions).accounts
                ≡ accounts' =
              ground (arith, e, y) in
            signs_in user (sym same ∙ y) (ground (arith, e, y)) (ground (arith, e, y))
              (subst (λ d. Rightful (email_profile email) accounts (resolved user d)) (sym at)
                rightful)
              (ground (arith, e, y)) (ground (arith, e, y, verify-used email code db y))
        | inr n ↦ turns_away (sym same ∙ n) (ground arith) (ground arith) (ground arith)
      ]
