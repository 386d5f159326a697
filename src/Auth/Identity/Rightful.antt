-- ===== src/Auth/Identity/Rightful.antt =====
-- back-end/src/auth/identity.ts: whose account a sign-in comes out at.
use skrivle.Prelude.{
  ◌≡◌, refl, sym, ap, ◌∙◌, inl, inr, true, false, not, ◌&&◌, Bool-cases, Option-cases, some, Text,
  text_eq, nat_eq, if◌then◌else◌,
}
use mathlib.Core.Path.{subst}
use skrivle.Services.{CaseMap}
use skrivle.Auth.Otp.{normalize_email}
use skrivle.Auth.Identity.{
  User, ProviderProfile, Accounts, filled, Resolved, resolved, collision, link, enrol, resolve_user,
}

module _ ⦃c : CaseMap⦄ ⦃a : Accounts⦄ where
  open a use {
    Db, find_identity, find_by_email, create_identity, update_avatar, create_user, known,
    identity-create, avatar-same, identity-avatar, identity-user, user-new,
  }

  -- How an account may come to be a user's: it was already, or its verified address is the user's, or
  -- the user is new.
  pub data Rightful (profile : ProviderProfile) (db : Db) : Resolved → Type 0 where
    refused : Rightful profile db collision
    before :
        (user : User) (db' : Db)
        → find_identity profile.provider profile.provider_account_id db ≡ some user
        → Rightful profile db (resolved user db')
    verified :
        (owner user : User) (db' : Db)
        → profile.email_verified ≡ true
        → find_by_email (normalize_email profile.email) db ≡ some owner
        → user.id ≡ owner.id
        → Rightful profile db (resolved user db')
    new :
        (user : User) (db' : Db)
        → known user.id db ≡ false
        → Rightful profile db (resolved user db')

  link-Rightful :
      (profile : ProviderProfile) (user : User) (db : Db)
      → profile.email_verified ≡ true
      → find_by_email (normalize_email profile.email) db ≡ some user
      → Rightful profile db (link profile user db)
  unfolding link
  link-Rightful profile user db sure found =
      elim (Bool-cases (not (filled user.avatar_url) && filled profile.avatar_url)) [
        | inr n ↦ rw (link, n) (verified user user _ sure found refl)
        | inl y ↦
            let linked = create_identity user.id profile.provider profile.provider_account_id db in
            rw (link, y)
              (verified user (update_avatar user.id profile.avatar_url linked).0 _ sure found
                (avatar-same user.id profile.avatar_url linked))
      ]

  -- A sign-in comes out as a user only when the provider's account was that user's already, or when
  -- the provider has verified the address and it is that user's, or when the user is new. An
  -- unverified address gives nobody an account that was there.
  pub resolve-Rightful :
      (profile : ProviderProfile) (db : Db) → Rightful profile db (resolve_user profile db)
  unfolding resolve_user enrol
  resolve-Rightful profile db =
      elim (Option-cases (find_identity profile.provider profile.provider_account_id db)) [
        | inr (user, e) ↦ rw (resolve_user, e) (before user db e)
        | inl n ↦ elim (Option-cases (find_by_email (normalize_email profile.email) db)) [
          | inl m ↦
              rw (resolve_user, n) rw m
                (new _ _ (
                  user-new (normalize_email profile.email) _ profile.avatar_url profile.provider
                    profile.provider_account_id db m))
          | inr (user, e) ↦ elim (Bool-cases profile.email_verified) [
            | inl sure ↦
                rw (resolve_user, n) rw e
                  (subst (λ b. Rightful profile db (if b then link profile user db else collision))
                    (sym sure) (link-Rightful profile user db sure e))
            | inr unsure ↦
                rw (resolve_user, n) rw e
                  (subst (λ b. Rightful profile db (if b then link profile user db else collision))
                    (sym unsure) refused)
          ]
        ]
      ]

  -- From then on the account is that user's.
  abbrev Linked : Text → Text → Resolved → Type 0
  Linked provider account collision = Unit
  Linked provider account (resolved user db) =
      (user' : User) × (find_identity provider account db ≡ some user') × (user'.id ≡ user.id)

  link-Linked :
      (profile : ProviderProfile) (user : User) (db : Db)
      → find_by_email (normalize_email profile.email) db ≡ some user
      → Linked profile.provider profile.provider_account_id (link profile user db)
  unfolding link
  link-Linked profile user db found =
      let p = profile.provider in
      let account = profile.provider_account_id in
      let linked = create_identity user.id p account db in
      let there = identity-create user (normalize_email profile.email) p account db found in
      elim (Bool-cases (not (filled user.avatar_url) && filled profile.avatar_url)) [
        | inr n ↦ rw (link, n) (user, there, refl)
        | inl y ↦
            let (user', at, same) =
              identity-avatar user.id profile.avatar_url p account user linked there in
            rw (link, y) (user', at, same ∙ sym (avatar-same user.id profile.avatar_url linked))
      ]

  resolve-Linked :
      (profile : ProviderProfile) (db : Db)
      → Linked profile.provider profile.provider_account_id (resolve_user profile db)
  unfolding resolve_user enrol
  resolve-Linked profile db =
      let p = profile.provider in
      let account = profile.provider_account_id in
      elim (Option-cases (find_identity p account db)) [
        | inr (user, e) ↦ rw (resolve_user, e) (user, e, refl)
        | inl n ↦ elim (Option-cases (find_by_email (normalize_email profile.email) db)) [
          | inl m ↦
              rw (resolve_user, n) rw m
                (
                  _,
                  identity-user (normalize_email profile.email) _ profile.avatar_url p account db,
                  refl,
                )
          | inr (user, e) ↦
              rw (resolve_user, n) rw e
                (elim profile.email_verified
                  as (λ b. Linked p account (if b then link profile user db else collision)) [
                    | true ↦ link-Linked profile user db e
                    | false ↦ tt
                  ])
        ]
      ]

  -- Whoever has signed in with a provider's account is the same user the next time, whatever address
  -- or name the provider then reports.
  pub resolve-again :
      (profile other : ProviderProfile) (user : User) (db db' : Db)
      → resolve_user profile db ≡ resolved user db'
      → other.provider ≡ profile.provider
      → other.provider_account_id ≡ profile.provider_account_id
      → (user' : User) × (resolve_user other db' ≡ resolved user' db') × (user'.id ≡ user.id)
  unfolding resolve_user
  resolve-again profile other user db db' h provider account =
      let (user', at, same) =
        subst (Linked profile.provider profile.provider_account_id) h (resolve-Linked profile db) in
      let found : find_identity other.provider other.provider_account_id db' ≡ some user' =
        ap (λ p. find_identity p other.provider_account_id db') provider
        ∙ ap (λ k. find_identity profile.provider k db') account
        ∙ at in
      (user', rw (resolve_user, found) refl, same)
