-- ===== src/Auth/OAuth.antt =====
-- back-end/src/auth/oauth/flow.ts and the callback of back-end/src/http/routes/auth.ts: the state that is
-- kept for a redirect to a provider, and what comes of the way back. The stored record stands for the
-- JSON that it is stored as; a state that has expired is one that is not there.
pub mod Callbacks
use skrivle.Prelude.{
  ℕ, ◌≡◌, Bool, true, false, not, ◌&&◌, ◌||◌, Option, none, some, List, [], ◌∷◌, ◌++◌, Text, codes,
  text_eq, nat_eq, ◌==◌, has, if◌then◌else◌,
}
use skrivle.Services.{CaseMap}
use skrivle.Auth.Identity.{
  User, ProviderProfile, Accounts, Resolved, resolved, collision, resolve_user,
}
use skrivle.Auth.Session.{SessionStore, create_session}

pub record OAuthState : Type 0 where
  pub provider : Text
  pub verifier : Text
  pub return_to : Text
  pub claim_board_id : Option Text

-- Redis GET, SET and DEL on the states.
pub record StateStore : Type 1 where
  pub Db : Type 0
  pub get : Text → Db → Option OAuthState
  pub set : Text → OAuthState → Db → Db
  pub del : Text → Db → Db
  pub get-set :
      (k j : Text) (v : OAuthState) (d : Db)
      → get j (set k v d) ≡ (if k == j then some v else get j d)
  pub get-del : (k j : Text) (d : Db) → get j (del k d) ≡ (if k == j then none else get j d)

abbrev pub slash : ℕ
slash = 47

-- safeReturnTo
unfoldable pub safe_return_to : Option Text → Text
safe_return_to none = slash ∷ []
safe_return_to (some []) = slash ∷ []
safe_return_to (some (c ∷ [])) = if c == slash then c ∷ [] else slash ∷ []
safe_return_to (some (c ∷ d ∷ s)) =
    if not (c == slash) || (c == slash && d == slash) then slash ∷ [] else c ∷ d ∷ s

-- frontendRedirect, with config.frontendUrl.
unfoldable pub frontend_redirect : Text → Text → Text
unfolding safe_return_to
frontend_redirect frontend_url return_to = frontend_url ++ safe_return_to (some return_to)

-- `includes("?") ? "&" : "?"`
unfoldable pub separator : Text → Text
separator path = if has 63 path then codes "&" else codes "?"

-- errorRedirect
unfoldable pub error_redirect : Text → Text → Text → Text
unfolding safe_return_to separator
error_redirect frontend_url return_to code =
    let path = safe_return_to (some return_to) in
    frontend_url ++ (path ++ (separator path ++ (codes "error=" ++ code)))

-- Where a sign-in leads; `encode` is encodeURIComponent.
unfoldable pub destination : (Text → Text) → OAuthState → Text
unfolding separator
destination encode state = elim state.claim_board_id [
  | none ↦ state.return_to
  | some [] ↦ state.return_to
  | some (c ∷ id) ↦
      state.return_to ++ (separator state.return_to ++ (codes "claim=" ++ encode (c ∷ id)))
]

-- isProviderName
unfoldable pub is_provider_name : Text → Bool
is_provider_name name = name == codes "github" || name == codes "google"

-- What exchangeCode and fetchProfile come to with a provider.
pub data Fetched : Type 0 where
  fetched : ProviderProfile → Fetched
  no_verified_email fails : Fetched

module _ ⦃s : StateStore⦄ where
  open s use {Db, get, set, del}

  -- keys.oauthState
  abbrev pub state_key : Text → Text
  state_key state = codes "oauth:" ++ state

  -- beginAuthorization, as far as it writes: `pkce` is the verifier of a provider that uses one.
  unfoldable pub begin_authorization :
      Text → Option Text → Option Text → Option Text → Text → Db → Db
  unfolding safe_return_to
  begin_authorization provider pkce return_to claim state db =
      set (state_key state)
        (record {
          provider = provider;
          verifier = elim pkce [ none ↦ [] | some verifier ↦ verifier ];
          return_to = safe_return_to return_to;
          claim_board_id = elim claim [
            | none ↦ none
            | some [] ↦ none
            | some (c ∷ id) ↦ some (c ∷ id)
          ];
        })
        db

  -- consumeState, when nothing comes between its two commands.
  unfoldable pub consume_state : Option Text → Db → Option OAuthState × Db
  consume_state none db = (none, db)
  consume_state (some []) db = (none, db)
  consume_state (some (c ∷ state)) db = elim (get (state_key (c ∷ state)) db) [
    | none ↦ (none, db)
    | some found ↦ (some found, del (state_key (c ∷ state)) db)
  ]

-- The query of a callback, the token that randomToken gives, and the user agent and time of the request.
pub record CallbackRequest : Type 0 where
  pub provider : Text
  pub state : Option Text
  pub code : Option Text
  pub token : Text
  pub user_agent : Option Text
  pub now : Text

module _ ⦃c : CaseMap⦄ ⦃s : StateStore⦄ ⦃a : Accounts⦄ ⦃z : SessionStore⦄ where
  -- Where the browser is sent, the session that it is given, and what is stored.
  pub record Landed : Type 0 where
    pub location : Text
    pub cookie : Option Text
    pub states : s.Db
    pub accounts : a.Db
    pub sessions : z.Db

  -- From where the provider has answered; what throws goes to errorRedirect.
  unfoldable pub finish_callback :
      Text → (Text → Text) → Fetched → CallbackRequest → OAuthState → s.Db → a.Db → z.Db → Landed
  unfolding resolve_user create_session frontend_redirect destination error_redirect
  finish_callback frontend_url encode answer request state states accounts sessions =
      let failed : Text → Landed = (λ code. record {
        location = error_redirect frontend_url state.return_to code;
        cookie = none;
        states = states;
        accounts = accounts;
        sessions = sessions;
      }) in
      elim answer [
        | no_verified_email ↦ failed (codes "no_verified_email")
        | fails ↦ failed (codes "signin_failed")
        | fetched profile ↦ elim (resolve_user profile accounts) [
          | collision ↦ failed (codes "email_in_use")
          | resolved user accounts' ↦ record {
            location = frontend_redirect frontend_url (destination encode state);
            cookie = some request.token;
            states = states;
            accounts = accounts';
            sessions = create_session user.id request.now request.user_agent request.token sessions;
          }
        ]
      ]

  -- authRouter.get("/callback/:provider"); `answer` is what the provider gives for the verifier.
  unfoldable pub oauth_callback :
      Text → (Text → Text) → (Text → Text → Fetched) → CallbackRequest → s.Db → a.Db → z.Db → Landed
  unfolding is_provider_name consume_state error_redirect finish_callback
  oauth_callback frontend_url encode answer request states accounts sessions =
      let turned : Text → Text → s.Db → Landed = (λ return_to code states'. record {
        location = error_redirect frontend_url return_to code;
        cookie = none;
        states = states';
        accounts = accounts;
        sessions = sessions;
      }) in
      let (found, states') = consume_state request.state states in
      if not (is_provider_name request.provider)
      then turned (codes "/") (codes "unsupported_provider") states
      else (elim found [
        | none ↦ turned (codes "/signin") (codes "invalid_state") states'
        | some state ↦
            if not (state.provider == request.provider)
            then turned (codes "/signin") (codes "invalid_state") states'
            else (elim request.code [
              | none ↦ turned state.return_to (codes "cancelled") states'
              | some [] ↦ turned state.return_to (codes "cancelled") states'
              | some (d ∷ code) ↦
                  finish_callback frontend_url encode (answer (d ∷ code) state.verifier) request
                    state states' accounts sessions
            ])
      ])
