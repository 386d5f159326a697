-- ===== src/Examples/Accounts.antt =====
-- Users, identities and OAuth states in a form that computes: a user's id is the address. And runs of
-- signing in.
use skrivle.Prelude.{
  ◌≡◌, refl, ap, ◌∙◌, ◌&&◌, false, Option-cases, inl, inr, Option, none, some, is_some, List, [],
  ◌∷◌, Text, codes, text_eq, text_beq, ◌==◌, ==_refl, find, put, remove, find-put, find-remove, has,
  if◌then◌else◌, arith,
}
use skrivle.Examples.Tables.{ascii_case, list_codes}
use skrivle.Examples.Upkeep.{Kept, list_sessions}
use skrivle.Auth.Identity.{User, ProviderProfile, Accounts, Resolved, resolved, resolve_user}
use skrivle.Auth.Identity.Rightful.{Rightful, resolve-Rightful, resolve-again}
use skrivle.Auth.OAuth.{
  OAuthState, StateStore, Fetched, fetched, CallbackRequest, oauth_callback, is_provider_name,
}
use skrivle.Auth.Otp.{issue_code}
use skrivle.Auth.SignIn.{verify_email}
use skrivle.Auth.SignIn.Exact.{is_right, Exact, verify-Exact}
use skrivle.Auth.OAuth.Callbacks.{OnFrontend, callback-OnFrontend, replay-turned}

abbrev Rows : Type 0
Rows = (Text → Option (Text × Option Text)) × (Text → Text → Option Text)

abbrev user_of : Text → Option (Text × Option Text) → Option User
user_of email none = none
user_of email (some (name, url)) =
    some (record { id = email; email = email; name = name; avatar_url = url })

abbrev by_email : Text → Rows → Option User
by_email email d = user_of email (d.0 email)

abbrev by_identity : Text → Text → Rows → Option User
by_identity p k d = elim (d.1 p k) [ none ↦ none | some email ↦ by_email email d ]

abbrev linked_to : Text → Text → Text → Rows → Rows
linked_to id p k d = (d.0, λ q j. if p == q && k == j then some id else d.1 q j)

abbrev painted : Option Text → Option (Text × Option Text) → Option (Text × Option Text)
painted url none = none
painted url (some (name, old)) = some (name, url)

abbrev portrait : Text → Option Text → Rows → User × Rows
portrait id url d = (
  record { id = id; email = id; name = []; avatar_url = url },
  (λ e. if id == e then painted url (d.0 e) else d.0 e, d.1),
)

abbrev enrolled : Text → Text → Option Text → Text → Text → Rows → User × Rows
enrolled email name url p k d = (
  record { id = email; email = email; name = name; avatar_url = url },
  linked_to email p k (λ e. if email == e then some (name, url) else d.0 e, d.1),
)

by_email-id :
    (email : Text) (d : Rows) (user : User) → by_email email d ≡ some user → user.id ≡ email
by_email-id email d user h = elim (Option-cases (d.0 email)) [
  | inl e ↦ ground arith
  | inr (row, e) ↦ ground arith
]

linked-found :
    (user : User) (email p k : Text) (d : Rows)
    → by_email email d ≡ some user
    → by_identity p k (linked_to user.id p k d) ≡ some user
linked-found user email p k d h =
    let same = by_email-id email d user h in
    let found : by_email user.id d ≡ some user = ap (λ e. by_email e d) same ∙ h in
    ground (arith, ==_refl p, ==_refl k, found)

portrait-found :
    (id : Text) (url : Option Text) (p k : Text) (user : User) (d : Rows)
    → by_identity p k d ≡ some user
    → (user' : User) × (by_identity p k (portrait id url d).1 ≡ some user') × (user'.id ≡ user.id)
portrait-found id url p k user d h = elim (Option-cases (d.1 p k)) [
  | inl e ↦ ground arith
  | inr (email, e) ↦ elim (Option-cases (d.0 email)) [
    | inl n ↦ ground arith
    | inr ((name, old), s) ↦ (
      record {
        id = email;
        email = email;
        name = name;
        avatar_url = if id == email then url else old;
      },
      ground arith,
      ground arith,
    )
  ]
]

enrolled-found :
    (email name : Text) (url : Option Text) (p k : Text) (d : Rows)
    → by_identity p k (enrolled email name url p k d).1 ≡ some (enrolled email name url p k d).0
enrolled-found email name url p k d = ground (arith, ==_refl p, ==_refl k, ==_refl email)

unseen : (email : Text) (d : Rows) → by_email email d ≡ none → is_some (d.0 email) ≡ false
unseen email d h = elim (Option-cases (d.0 email)) [
  | inl e ↦ ground arith
  | inr (row, e) ↦ ground arith
]

instance abbrev list_accounts : Accounts
list_accounts = record {
  Db = Rows;
  find_identity = by_identity;
  find_by_email = by_email;
  create_identity = linked_to;
  update_avatar = portrait;
  create_user = enrolled;
  known = λ id d. is_some (d.0 id);
  identity-create = linked-found;
  avatar-same = λ id url d. refl;
  identity-avatar = portrait-found;
  identity-user = λ email name url p k d. enrolled-found email name url p k d;
  user-new = λ email name url p k d h. unseen email d h;
}

abbrev States : Type 0
States = List (Text × OAuthState)

instance abbrev list_states : StateStore
list_states = record {
  Db = States;
  get = λ k d. find k d;
  set = λ k v d. put k v d;
  del = λ k d. remove k d;
  get-set = λ k j v d. find-put k j v d;
  get-del = λ k j d. find-remove k j d;
}

abbrev nobody : Rows
nobody = (λ e. none, λ p k. none)

-- An address that nobody has verified.
abbrev stranger : ProviderProfile
stranger = record {
  provider = codes "github";
  provider_account_id = codes "7";
  email = codes "a@b.c";
  email_verified = false;
  name = codes "Ann";
  avatar_url = none;
}

abbrev moved : ProviderProfile
moved = record stranger { email = codes "x@y.z" }

abbrev first : Resolved
first = resolve_user stranger nobody

abbrev ann : User
ann = record { id = codes "a@b.c"; email = codes "a@b.c"; name = codes "Ann"; avatar_url = none }

abbrev ann_rows : Rows
ann_rows =
    linked_to (codes "a@b.c") (codes "github") (codes "7")
      (λ e. if codes "a@b.c" == e then some (codes "Ann", none) else none, λ p k. none)

resolve-Rightful_example : Rightful stranger nobody (resolve_user stranger nobody)
resolve-Rightful_example = resolve-Rightful stranger nobody

resolve-again_example :
    (user' : User) × (resolve_user moved ann_rows ≡ resolved user' ann_rows) × (user'.id ≡ ann.id)
unfolding resolve_user has
resolve-again_example = resolve-again stranger moved ann nobody ann_rows refl refl refl

abbrev no_sessions : Kept
no_sessions = ([], [])

abbrev begun : States
begun =
    (
      codes "oauth:s",
      record {
        provider = codes "github";
        verifier = [];
        return_to = codes "/boards";
        claim_board_id = none;
      },
    )
    ∷ []

abbrev back : CallbackRequest
back = record {
  provider = codes "github";
  state = some (codes "s");
  code = some (codes "c");
  token = codes "t";
  user_agent = none;
  now = codes "now";
}

abbrev front : Text
front = codes "https://skrivle.app"

abbrev provider_answer : Text → Text → Fetched
provider_answer code verifier = fetched stranger

callback-OnFrontend_example :
    OnFrontend front
      (oauth_callback front (λ s. s) provider_answer back begun nobody no_sessions).location
callback-OnFrontend_example =
    callback-OnFrontend front (λ s. s) provider_answer back begun nobody no_sessions

replay-turned_example :
    let one = oauth_callback front (λ s. s) provider_answer back begun nobody no_sessions in
    let two =
      oauth_callback front (λ s. s) provider_answer back one.states one.accounts one.sessions in
    (two.cookie ≡ none) × (two.sessions ≡ one.sessions) × (two.accounts ≡ one.accounts)
unfolding is_provider_name text_beq
replay-turned_example =
    replay-turned front (λ s. s) provider_answer back back begun nobody no_sessions refl refl

verify-Exact_example :
    Exact
      (codes "a@b.c")
      (codes "t")
      (codes "now")
      none
      (is_right (codes "a@b.c") (codes "123456") (issue_code (codes "a@b.c") (codes "123456") []))
      nobody
      no_sessions
      (verify_email
        (codes "a@b.c")
        (codes "123456")
        (codes "t")
        (codes "now")
        none
        (issue_code (codes "a@b.c") (codes "123456") [])
        nobody
        no_sessions)
verify-Exact_example =
    verify-Exact (codes "a@b.c") (codes "123456") (codes "t") (codes "now") none
      (issue_code (codes "a@b.c") (codes "123456") []) nobody no_sessions
