-- ===== src/Auth/Otp/Races.antt =====
-- Guesses that run at the same time, in back-end/src/auth/otp.ts.
use skrivle.Prelude.{◌≡◌, Text, text_eq, ==_refl, arith}
use skrivle.Services.{CaseMap}
use skrivle.Auth.Otp.{CodeStore, ok, expired, otp_key, read_code, finish_guess, verify_code}

module _ ⦃c : CaseMap⦄ ⦃s : CodeStore⦄ where
  open s use {
    Db, hash_token, code_hash, attempts, incr_attempts, del, code-incr, attempts-incr, code-del,
    attempts-del,
  }

  -- The cap does not hold between guesses that run at the same time. A guess that has read the hash
  -- before the code was burnt counts from nothing afterwards: with the right code it is accepted,
  -- although a guess that starts then is refused.
  pub burnt-opens :
      (email code : Text) (before : Db)
      → ((verify_code email code (del (otp_key email) before)).0 ≡ expired)
        × ((finish_guess (otp_key email) (hash_token code) code (del (otp_key email) before)).0
            ≡ ok)
  unfolding verify_code finish_guess read_code
  burnt-opens email code before =
      let key = otp_key email in
      (
        ground (arith, code-del key before),
        ground (
          arith,
          attempts-incr key (del key before),
          attempts-del key before,
          ==_refl (hash_token code),
        ),
      )
