-- ===== src/Auth/Otp.antt =====
-- back-end/src/auth/otp.ts: one-time sign-in codes. `verifyCode` is cut at its await between reading
-- the stored hash and counting the guess, where another guess can come between. Codes that expire by
-- their time to live are codes that are not there.
pub mod Guesses
pub mod Races
use skrivle.Prelude.{
  ℕ, ◌+◌, ◌≡◌, Bool, true, false, not, Option, none, some, List, [], ◌∷◌, ◌++◌, Text, text_eq, ◌==◌,
  codes, ltb, leb, if◌then◌else◌,
}
use skrivle.Services.{CaseMap, trim}

abbrev pub max_attempts : ℕ
max_attempts = 5

-- The Redis hash { codeHash, attempts } of a key, and the HMAC of auth/hash.ts.
pub record CodeStore : Type 1 where
  pub Db : Type 0
  pub hash_token : Text → Text
  -- HGETALL's codeHash; `none` without the key or without the field.
  pub code_hash : Text → Db → Option Text
  -- The field attempts, 0 without it.
  pub attempts : Text → Db → ℕ
  -- MULTI HSET codeHash, attempts "0"
  pub set_code : Text → Text → Db → Db
  -- HINCRBY attempts 1
  pub incr_attempts : Text → Db → Db
  pub del : Text → Db → Db
  pub code-set : (k h : Text) (d : Db) → code_hash k (set_code k h d) ≡ some h
  pub attempts-set : (k h : Text) (d : Db) → attempts k (set_code k h d) ≡ 0
  pub code-incr : (k : Text) (d : Db) → code_hash k (incr_attempts k d) ≡ code_hash k d
  pub attempts-incr : (k : Text) (d : Db) → attempts k (incr_attempts k d) ≡ attempts k d + 1
  pub code-del : (k : Text) (d : Db) → code_hash k (del k d) ≡ none
  pub attempts-del : (k : Text) (d : Db) → attempts k (del k d) ≡ 0

pub data VerifyResult : Type 0 where
  ok expired mismatch exhausted : VerifyResult

-- normalizeEmail
unfoldable pub normalize_email : ⦃c : CaseMap⦄ → Text → Text
normalize_email ⦃c⦄ email = c.lower (trim email)

module _ ⦃c : CaseMap⦄ ⦃s : CodeStore⦄ where
  open s use {Db, hash_token, code_hash, attempts, set_code, incr_attempts, del}

  -- keys.otp
  unfoldable pub otp_key : Text → Text
  unfolding normalize_email
  otp_key email = codes "otp:" ++ hash_token (normalize_email email)

  -- issueCode, of the code that is generated.
  unfoldable pub issue_code : Text → Text → Db → Db
  unfolding otp_key
  issue_code email code db = set_code (otp_key email) (hash_token code) db

  -- What is read first; an empty hash is as good as none.
  unfoldable pub read_code : Text → Db → Option Text
  read_code key db = elim (code_hash key db) [
    | none ↦ none
    | some [] ↦ none
    | some (x ∷ h) ↦ some (x ∷ h)
  ]

  -- The rest of the call, with the hash that was read.
  unfoldable pub finish_guess : Text → Text → Text → Db → VerifyResult × Db
  finish_guess key stored code db =
      let counted = incr_attempts key db in
      let count = attempts key counted in
      if ltb max_attempts count
      then (exhausted, del key counted)
      else (if hash_token code == stored
          then (ok, del key counted)
          else (if leb max_attempts count
              then (exhausted, del key counted)
              else (mismatch, counted)))

  -- verifyCode, when no other guess comes between.
  unfoldable pub verify_code : Text → Text → Db → VerifyResult × Db
  unfolding otp_key read_code finish_guess
  verify_code email code db = elim (read_code (otp_key email) db) [
    | none ↦ (expired, db)
    | some stored ↦ finish_guess (otp_key email) stored code db
  ]

  -- One guess after the other.
  pub verify_each : Text → List Text → Db → Db
  unfolding verify_code
  verify_each email [] db = db
  verify_each email (code ∷ guesses) db = verify_each email guesses (verify_code email code db).1
