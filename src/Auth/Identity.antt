-- ===== src/Auth/Identity.antt =====
-- back-end/src/auth/identity.ts: the user behind a sign-in.
pub mod Rightful
use skrivle.Prelude.{
  ◌≡◌, refl, sym, ap, ◌∙◌, inl, inr, Bool, true, false, not, ◌&&◌, Bool-cases, Option-cases, Option,
  none, some, [], ◌∷◌, Text, text_eq, nat_eq, ◌==◌, if◌then◌else◌,
}
use mathlib.Core.Path.{subst}
use skrivle.Services.{CaseMap, trim}
use skrivle.Auth.Otp.{normalize_email}

-- The columns of `users` that are read, and what a provider says of an account.
pub record User : Type 0 where
  pub id : Text
  pub email : Text
  pub name : Text
  pub avatar_url : Option Text

pub record ProviderProfile : Type 0 where
  pub provider : Text
  pub provider_account_id : Text
  pub email : Text
  pub email_verified : Bool
  pub name : Text
  pub avatar_url : Option Text

-- Prisma on the tables of users and identities. A user who is created has an id that the database
-- draws, which no row had.
pub record Accounts : Type 1 where
  pub Db : Type 0
  -- The identity of a provider's account, with its user.
  pub find_identity : Text → Text → Db → Option User
  pub find_by_email : Text → Db → Option User
  pub create_identity : Text → Text → Text → Db → Db
  pub update_avatar : Text → Option Text → Db → User × Db
  pub create_user : Text → Text → Option Text → Text → Text → Db → User × Db
  -- Some row of users has the id.
  pub known : Text → Db → Bool
  pub identity-create :
      (user : User) (email provider account : Text) (d : Db)
      → find_by_email email d ≡ some user
      → find_identity provider account (create_identity user.id provider account d) ≡ some user
  pub avatar-same : (id : Text) (url : Option Text) (d : Db) → (update_avatar id url d).0.id ≡ id
  pub identity-avatar :
      (id : Text) (url : Option Text) (provider account : Text) (user : User) (d : Db)
      → find_identity provider account d ≡ some user
      → (user' : User) × (find_identity provider account (update_avatar id url d).1 ≡ some user')
        × (user'.id ≡ user.id)
  pub identity-user :
      (email name : Text) (url : Option Text) (provider account : Text) (d : Db)
      → find_identity provider account (create_user email name url provider account d).1
        ≡ some (create_user email name url provider account d).0
  pub user-new :
      (email name : Text) (url : Option Text) (provider account : Text) (d : Db)
      → find_by_email email d ≡ none
      → known (create_user email name url provider account d).0.id d ≡ false

-- email.split("@")[0]
unfoldable pub local_part : Text → Text
local_part [] = []
local_part (c ∷ s) = let rest = local_part s in if c == 64 then [] else c ∷ rest

abbrev pub or_else : Text → Text → Text
or_else [] other = other
or_else (c ∷ s) other = c ∷ s

abbrev pub filled : Option Text → Bool
filled none = false
filled (some []) = false
filled (some (c ∷ s)) = true

module _ ⦃c : CaseMap⦄ ⦃a : Accounts⦄ where
  open a use {Db, find_identity, find_by_email, create_identity, update_avatar, create_user}

  -- The user who is signed in and the rows, or UnverifiedEmailCollision.
  pub data Resolved : Type 0 where
    resolved : User → Db → Resolved
    collision : Resolved

  -- The second case of resolveUser: the account is linked to the user of its address.
  unfoldable pub link : ProviderProfile → User → Db → Resolved
  link profile user db =
      let linked = create_identity user.id profile.provider profile.provider_account_id db in
      if not (filled user.avatar_url) && filled profile.avatar_url
      then (let (user', db') = update_avatar user.id profile.avatar_url linked in
          resolved user' db')
      else resolved user linked

  -- The last one: nobody has the address.
  unfoldable pub enrol : ProviderProfile → Db → Resolved
  unfolding normalize_email trim local_part
  enrol profile db =
      let email = normalize_email profile.email in
      let (user, db') =
        create_user email (or_else (trim profile.name) (local_part email)) profile.avatar_url
          profile.provider profile.provider_account_id db in
      resolved user db'

  -- resolveUser
  unfoldable pub resolve_user : ProviderProfile → Db → Resolved
  unfolding link enrol normalize_email
  resolve_user profile db = elim (find_identity profile.provider profile.provider_account_id db) [
    | some user ↦ resolved user db
    | none ↦ elim (find_by_email (normalize_email profile.email) db) [
      | none ↦ enrol profile db
      | some user ↦ if profile.email_verified then link profile user db else collision
    ]
  ]
