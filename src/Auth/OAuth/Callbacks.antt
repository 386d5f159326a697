-- ===== src/Auth/OAuth/Callbacks.antt =====
-- back-end/src/http/routes/auth.ts: where a callback leads, and what it takes to be signed in by one.
use skrivle.Prelude.{
  ℕ, ◌≡◌, refl, ap, ◌∙◌, inl, inr, true, false, not, ◌&&◌, ◌||◌, Bool-cases, Option-cases, Option,
  none, some, [], ◌∷◌, ◌++◌, Text, codes, text_eq, nat_eq, ◌==◌, ==_iff, ==_refl, has,
  if◌then◌else◌, arith,
}
use skrivle.Services.{CaseMap}
use skrivle.Auth.Identity.{Accounts, resolved, collision, resolve_user}
use skrivle.Auth.Session.{SessionStore, create_session}
use skrivle.Auth.OAuth.{
  OAuthState, StateStore, slash, safe_return_to, frontend_redirect, separator, error_redirect,
  destination, is_provider_name, Fetched, fetched, no_verified_email, fails, state_key,
  consume_state, CallbackRequest, Landed, finish_callback, oauth_callback,
}

-- A path below the front-end: after its first slash there is not another one, which a browser would
-- take for a host.
abbrev pub OwnPath : Text → Type 0
OwnPath [] = ⊥
OwnPath (c ∷ []) = c ≡ slash
OwnPath (c ∷ d ∷ s) = (c ≡ slash) × ((d == slash) ≡ false)

-- The address is the front-end's, with such a path.
pub data OnFrontend (frontend_url : Text) : Text → Type 0 where
  on : (path : Text) → OwnPath path → OnFrontend frontend_url (frontend_url ++ path)

safe-OwnPath : (value : Option Text) → OwnPath (safe_return_to value)
unfolding safe_return_to
safe-OwnPath none = refl
safe-OwnPath (some []) = refl
safe-OwnPath (some (c ∷ [])) = elim (Bool-cases (c == slash)) [
  | inl y ↦ rw (safe_return_to, y) ((==_iff c slash).0 y)
  | inr n ↦ rw (safe_return_to, n) refl
]
safe-OwnPath (some (c ∷ d ∷ s)) =
    elim (Bool-cases (not (c == slash) || (c == slash && d == slash))) [
      | inl y ↦ rw (safe_return_to, y) refl
      | inr n ↦
          let own : (c == slash) ≡ true = ground arith in
          rw (safe_return_to, n) ((==_iff c slash).0 own, ground arith)
    ]

-- What is added after a question mark or an ampersand leaves the path one's own.
append-OwnPath :
    (path more : Text) (d : ℕ) → OwnPath path → (d == slash) ≡ false → OwnPath (path ++ (d ∷ more))
append-OwnPath [] more d h n = elim h [ ]
append-OwnPath (c ∷ []) more d h n = (h, n)
append-OwnPath (c ∷ e ∷ s) more d h n = h

error-OnFrontend :
    (frontend_url return_to code : Text)
    → OnFrontend frontend_url (error_redirect frontend_url return_to code)
unfolding error_redirect separator
error-OnFrontend frontend_url return_to code =
    let path = safe_return_to (some return_to) in
    on (path ++ (separator path ++ (codes "error=" ++ code)))
      (elim (has 63 path)
        as (λ b.
          OwnPath (path ++ ((if b then codes "&" else codes "?") ++ (codes "error=" ++ code)))) [
            | true ↦
                append-OwnPath path (codes "error=" ++ code) 38 (safe-OwnPath (some return_to)) refl
            | false ↦
                append-OwnPath path (codes "error=" ++ code) 63 (safe-OwnPath (some return_to)) refl
          ])

frontend-OnFrontend :
    (frontend_url return_to : Text)
    → OnFrontend frontend_url (frontend_redirect frontend_url return_to)
unfolding frontend_redirect
frontend-OnFrontend frontend_url return_to =
    on (safe_return_to (some return_to)) (safe-OwnPath (some return_to))

module _ ⦃c : CaseMap⦄ ⦃s : StateStore⦄ ⦃a : Accounts⦄ ⦃z : SessionStore⦄ where
  open s use {get, del, get-del}

  finish-OnFrontend :
      (frontend_url : Text) (encode : Text → Text) (answer : Fetched) (request : CallbackRequest)
      (state : OAuthState) (states : s.Db) (accounts : a.Db) (sessions : z.Db)
      → OnFrontend frontend_url
          (finish_callback frontend_url encode answer request state states accounts
            sessions).location
  unfolding finish_callback
  finish-OnFrontend frontend_url encode no_verified_email request state states accounts sessions =
      error-OnFrontend frontend_url state.return_to (codes "no_verified_email")
  finish-OnFrontend frontend_url encode fails request state states accounts sessions =
      error-OnFrontend frontend_url state.return_to (codes "signin_failed")
  finish-OnFrontend frontend_url encode (fetched profile) request state states accounts sessions =
      elim (resolve_user profile accounts)
        as (λ r.
          OnFrontend frontend_url
            (elim r as (λ q. Landed) [
              | collision ↦ record {
                location = error_redirect frontend_url state.return_to (codes "email_in_use");
                cookie = none;
                states = states;
                accounts = accounts;
                sessions = sessions;
              }
              | resolved user accounts' ↦ record {
                location = frontend_redirect frontend_url (destination encode state);
                cookie = some request.token;
                states = states;
                accounts = accounts';
                sessions =
                    create_session user.id request.now request.user_agent request.token sessions;
              }
            ]).location) [
              | collision ↦ error-OnFrontend frontend_url state.return_to (codes "email_in_use")
              | resolved user accounts' ↦
                  frontend-OnFrontend frontend_url (destination encode state)
            ]

  -- Whatever a callback carries, and whatever path its state holds, the browser is sent to the
  -- front-end's address followed by a path that begins with exactly one slash.
  pub callback-OnFrontend :
      (frontend_url : Text) (encode : Text → Text) (answer : Text → Text → Fetched)
      (request : CallbackRequest) (states : s.Db) (accounts : a.Db) (sessions : z.Db)
      → OnFrontend frontend_url
          (oauth_callback frontend_url encode answer request states accounts sessions).location
  unfolding oauth_callback
  callback-OnFrontend frontend_url encode answer request states accounts sessions =
      elim (Bool-cases (is_provider_name request.provider)) [
        | inr n ↦
            rw (oauth_callback, n)
              (error-OnFrontend frontend_url (codes "/") (codes "unsupported_provider"))
        | inl y ↦ elim (Option-cases (consume_state request.state states).0) [
          | inl e ↦
              rw (oauth_callback, y) rw e
                (error-OnFrontend frontend_url (codes "/signin") (codes "invalid_state"))
          | inr (state, e) ↦ elim (Bool-cases (state.provider == request.provider)) [
            | inr n ↦
                rw (oauth_callback, y) rw e rw n
                  (error-OnFrontend frontend_url (codes "/signin") (codes "invalid_state"))
            | inl same ↦ elim (Option-cases request.code) [
              | inl m ↦
                  rw (oauth_callback, y) rw e rw same rw m
                    (error-OnFrontend frontend_url state.return_to (codes "cancelled"))
              | inr ([], m) ↦
                  rw (oauth_callback, y) rw e rw same rw m
                    (error-OnFrontend frontend_url state.return_to (codes "cancelled"))
              | inr (d ∷ code, m) ↦
                  rw (oauth_callback, y) rw e rw same rw m
                    (finish-OnFrontend frontend_url encode (answer (d ∷ code) state.verifier)
                      request state (consume_state request.state states).1 accounts sessions)
            ]
          ]
        ]
      ]

  consume-twice :
      (state : Option Text) (states : s.Db)
      → (consume_state state (consume_state state states).1).0 ≡ none
  unfolding consume_state
  consume-twice none states = refl
  consume-twice (some []) states = refl
  consume-twice (some (d ∷ state)) states =
      let key = state_key (d ∷ state) in
      elim (Option-cases (get key states)) [
        | inl n ↦ rw (consume_state, n) rw (consume_state, n) refl
        | inr (found, e) ↦
            let gone : get key (del key states) ≡ none =
              ground (arith, get-del key key states, ==_refl key) in
            rw (consume_state, e) rw (consume_state, gone) refl
      ]

  finish-states :
      (frontend_url : Text) (encode : Text → Text) (answer : Fetched) (request : CallbackRequest)
      (state : OAuthState) (states : s.Db) (accounts : a.Db) (sessions : z.Db)
      → (finish_callback frontend_url encode answer request state states accounts sessions).states
        ≡ states
  unfolding finish_callback
  finish-states frontend_url encode answer request state states accounts sessions = ground arith

  callback-states :
      (frontend_url : Text) (encode : Text → Text) (answer : Text → Text → Fetched)
      (request : CallbackRequest) (states : s.Db) (accounts : a.Db) (sessions : z.Db)
      → is_provider_name request.provider ≡ true
      → (oauth_callback frontend_url encode answer request states accounts sessions).states
        ≡ (consume_state request.state states).1
  unfolding oauth_callback
  callback-states frontend_url encode answer request states accounts sessions known =
      elim (Option-cases (consume_state request.state states).0) [
        | inl e ↦ rw (oauth_callback, known) rw e refl
        | inr (state, e) ↦ elim (Bool-cases (state.provider == request.provider)) [
          | inr n ↦ rw (oauth_callback, known) rw e rw n refl
          | inl same ↦ elim (Option-cases request.code) [
            | inl m ↦ rw (oauth_callback, known) rw e rw same rw m refl
            | inr ([], m) ↦ rw (oauth_callback, known) rw e rw same rw m refl
            | inr (d ∷ code, m) ↦
                rw (oauth_callback, known) rw e rw same rw m
                  (finish-states frontend_url encode (answer (d ∷ code) state.verifier) request
                    state (consume_state request.state states).1 accounts sessions)
          ]
        ]
      ]

  stateless-turned :
      (frontend_url : Text) (encode : Text → Text) (answer : Text → Text → Fetched)
      (request : CallbackRequest) (states : s.Db) (accounts : a.Db) (sessions : z.Db)
      → (consume_state request.state states).0 ≡ none
      → ((oauth_callback frontend_url encode answer request states accounts sessions).cookie ≡ none)
        × ((oauth_callback frontend_url encode answer request states accounts sessions).sessions
            ≡ sessions)
        × ((oauth_callback frontend_url encode answer request states accounts sessions).accounts
            ≡ accounts)
  unfolding oauth_callback
  stateless-turned frontend_url encode answer request states accounts sessions gone =
      elim (Bool-cases (is_provider_name request.provider)) [
        | inr n ↦ rw (oauth_callback, n) (refl, refl, refl)
        | inl y ↦ rw (oauth_callback, y) rw gone (refl, refl, refl)
      ]

  -- A second callback with the state of one that has come back for a known provider signs nobody in
  -- and makes no account and no session, whatever else it carries.
  pub replay-turned :
      (frontend_url : Text) (encode : Text → Text) (answer : Text → Text → Fetched)
      (request replay : CallbackRequest) (states : s.Db) (accounts : a.Db) (sessions : z.Db)
      → is_provider_name request.provider ≡ true
      → replay.state ≡ request.state
      → let first = oauth_callback frontend_url encode answer request states accounts sessions in
        let second =
          oauth_callback frontend_url encode answer replay first.states first.accounts
            first.sessions in
        (second.cookie ≡ none)
        × (second.sessions ≡ first.sessions)
        × (second.accounts ≡ first.accounts)
  replay-turned frontend_url encode answer request replay states accounts sessions known same =
      let first = oauth_callback frontend_url encode answer request states accounts sessions in
      stateless-turned frontend_url encode answer replay first.states first.accounts first.sessions
        (ap (λ x. (consume_state x first.states).0) same
          ∙ ap (λ d. (consume_state request.state d).0)
              (callback-states frontend_url encode answer request states accounts sessions known)
          ∙ consume-twice request.state states)
