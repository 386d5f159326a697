-- ===== src/Auth/Otp/Guesses.antt =====
-- The attempt cap of back-end/src/auth/otp.ts, over guesses that follow one another.
use skrivle.Prelude.{
  ◌+◌, ◌≤◌, ◌<◌, ◌≡◌, refl, ◌⊎◌, true, false, not, every, Option-cases, inl, inr, none, some, List,
  [], ◌∷◌, Text, text_eq, ◌==◌, length, ltb, arith,
}
use skrivle.Services.{CaseMap}
use skrivle.Auth.Otp.{
  CodeStore, ok, expired, otp_key, issue_code, read_code, finish_guess, verify_code, verify_each,
  max_attempts,
}

module _ ⦃c : CaseMap⦄ ⦃s : CodeStore⦄ where
  open s use {
    Db, hash_token, code_hash, attempts, set_code, incr_attempts, del, code-set, attempts-set,
    code-incr, attempts-incr, code-del,
  }

  gone-stays :
      (email : Text) (guesses : List Text) (db : Db)
      → read_code (otp_key email) db ≡ none
      → verify_each email guesses db ≡ db
  unfolding verify_each verify_code
  gone-stays email [] db h = refl
  gone-stays email (code ∷ guesses) db h =
      rw (verify_each, verify_code, h) (gone-stays email guesses db h)

  read-del : (key : Text) (db : Db) → read_code key (del key db) ≡ none
  unfolding read_code
  read-del key db = ground (arith, code-del key db)

  read-long :
      (key hash : Text) (db : Db)
      → code_hash key db ≡ some hash
      → ltb 0 (length hash) ≡ true
      → read_code key db ≡ some hash
  unfolding read_code
  read-long key [] db h long = ground arith
  read-long key (x ∷ hash) db h long = rw (read_code, h) refl

  read-incr : (key : Text) (db : Db) → read_code key (incr_attempts key db) ≡ read_code key db
  unfolding read_code
  read-incr key db = rw (read_code, code-incr key db) refl

  wrong-left :
      (email code stored : Text) (db : Db)
      → read_code (otp_key email) db ≡ some stored
      → (hash_token code == stored) ≡ false
      → ((read_code (otp_key email) (verify_code email code db).1 ≡ none)
          ⊎ ((read_code (otp_key email) (verify_code email code db).1 ≡ some stored)
              × (attempts (otp_key email) (verify_code email code db).1
                  ≡ attempts (otp_key email) db + 1)
              × (attempts (otp_key email) db + 1 < max_attempts)))
  unfolding verify_code finish_guess
  wrong-left email code stored db h wrong =
      let key = otp_key email in
      ground (arith, attempts-incr key db, read-incr key db, read-del key (incr_attempts key db))

  wrong-burn :
      (email stored : Text) (guesses : List Text) (db : Db)
      → read_code (otp_key email) db ≡ some stored
      → every (λ code. not (hash_token code == stored)) guesses ≡ true
      → attempts (otp_key email) db < max_attempts
      → max_attempts ≤ attempts (otp_key email) db + length guesses
      → read_code (otp_key email) (verify_each email guesses db) ≡ none
  unfolding verify_each
  wrong-burn email stored [] db h wrong few enough = ground arith
  wrong-burn email stored (code ∷ guesses) db h wrong few enough =
      let after = (verify_code email code db).1 in
      elim (wrong-left email code stored db h (ground arith)) [
        | inl gone ↦ rw (verify_each, gone-stays email guesses after gone) gone
        | inr (left, count, few') ↦
            wrong-burn email stored guesses after left (ground arith) (omega (arith, count))
              (omega (arith, count))
      ]

  -- Five wrong guesses, one after the other, burn an issued code: not even the right one is
  -- accepted after them, nor anything else.
  pub five_wrong-burn :
      (email code : Text) (guesses : List Text) (last : Text) (db : Db)
      → ltb 0 (length (hash_token code)) ≡ true
      → every (λ guess. not (hash_token guess == hash_token code)) guesses ≡ true
      → max_attempts ≤ length guesses
      → (verify_code email last (verify_each email guesses (issue_code email code db))).0 ≡ expired
  unfolding verify_code issue_code
  five_wrong-burn email code guesses last db long wrong enough =
      let key = otp_key email in
      let issued = set_code key (hash_token code) db in
      let there : read_code key issued ≡ some (hash_token code) =
        read-long key (hash_token code) issued (code-set key (hash_token code) db) long in
      let burnt =
        wrong-burn email (hash_token code) guesses issued there wrong
          (omega (arith, attempts-set key (hash_token code) db))
          (omega (arith, attempts-set key (hash_token code) db)) in
      rw (verify_code, issue_code, burnt) refl

  -- A code works once: what signed in is gone, and the same code again is refused.
  pub right-once :
      (email code again : Text) (db : Db)
      → (verify_code email code db).0 ≡ ok
      → (verify_code email again (verify_code email code db).1).0 ≡ expired
  unfolding verify_code finish_guess
  right-once email code again db h =
      let key = otp_key email in
      let gone = read-del key (incr_attempts key db) in
      elim (Option-cases (read_code key db)) [
        | inl e ↦ ground arith
        | inr (stored, e) ↦ ground arith
      ]
