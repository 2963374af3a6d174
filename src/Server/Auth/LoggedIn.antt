-- ===== src/Server/Auth/LoggedIn.antt =====
-- What a login that succeeds has checked and done.
use fixer.Common.{
  ◌≡◌, refl, sym, ap, ◌∙◌, Bool, true, false, not, ◌||◌, ◌&&◌, Bool-cases, inl, inr, Option, none,
  some, is_empty, length, ltb, arith, ◌==◌, nat_eq, list_eq, list_beq_iff,
}
use fixer.Std.Text.{Text, text, len, trim}
use fixer.Std.Result.{Result, ok, err, ◌>>=◌, ensure, ok-injective, >>=-eq-ok}
use fixer.Jobs.Store.{StoreError}
use fixer.Server.Auth.Secrets.{
  Crypto, readable, validate_password, known_hash, parse_hash, verify_password,
}
use fixer.Server.Auth.Lifetime.{Created, create_session-Created}
use fixer.Server.Auth.Store.{
  AuthTables, IssuedSession, registered, password_result, verified, verify_single_user_credentials,
  create_session,
}
use fixer.Server.Auth.Routes.{
  CredentialsRequest, AuthSettings, ApiError, SessionResponse, Supply, Handled, available, checked,
  stored, invalid_login, request_body, issued_response, session_response, login,
}

checked-ok :
    {A B : Type 0} (t : AuthTables) (m : Result ApiError A) (go_on : A → Handled B) {b : B}
    {t' : AuthTables}
    → checked t m go_on ≡ (ok b, t')
    → (a : A) × (m ≡ ok a) × (go_on a ≡ (ok b, t'))
checked-ok t (err e) go_on h = absurd (cc (ap (λ handled. handled.0) h))
checked-ok t (ok a) go_on h = (a, refl, h)

stored-ok :
    {A B : Type 0} (t : AuthTables) (m : Result StoreError (A × AuthTables))
    (go_on : A → AuthTables → Handled B) {b : B} {t' : AuthTables}
    → stored t m go_on ≡ (ok b, t')
    → (a : A) × (t'' : AuthTables) × (m ≡ ok (a, t'')) × (go_on a t'' ≡ (ok b, t'))
stored-ok t (err e) go_on h = absurd (cc (ap (λ handled. handled.0) h))
stored-ok t (ok (a, t'')) go_on h = (a, t'', refl, h)

request_body-ok :
    (body : Option CredentialsRequest) (e : ApiError) {request : CredentialsRequest}
    → request_body body e ≡ ok request
    → body ≡ some request
request_body-ok none e h = absurd (cc h)
request_body-ok (some request) e h = ap some (ok-injective h)

available-ok : {A E : Type 0} (m : Result E A) {a : A} → available m ≡ ok a → m ≡ ok a
available-ok (ok a) h = ap ok (ok-injective h)
available-ok (err e) h = absurd (cc h)

ensured : (b : Bool) (e : ApiError) {u : Unit {0}} → ensure b e ≡ ok u → b ≡ true
ensured true e h = refl
ensured false e h = absurd (cc h)

both : (a b : Bool) → a && b ≡ true → (a ≡ true) × (b ≡ true)
both a b h = ground arith

readable-argon2id :
    (algorithm : Option Text) → readable algorithm ≡ true → algorithm ≡ some (text "argon2id")
readable-argon2id none h = absurd (cc h)
readable-argon2id (some name) h = ap some ((list_beq_iff name (text "argon2id")).0 h)

-- A hash that was read is the text itself, and made by Argon2id.
parse_hash-ok :
    (crypto : Crypto) (hash : Text) {encoded : Text}
    → password_result (parse_hash crypto hash) ≡ ok encoded
    → (encoded ≡ hash) × (crypto.algorithm hash ≡ some (text "argon2id"))
unfolding parse_hash
parse_hash-ok crypto hash h = elim (Bool-cases (readable (crypto.algorithm hash))) [
  | inl right ↦ (ground (arith, h, right), readable-argon2id (crypto.algorithm hash) right)
  | inr wrong ↦ absurd (ground (arith, h, wrong))
]

verified_by :
    (crypto : Crypto) (password hash : Text) (algorithm : Option Text) {valid : Bool}
    → password_result (
        validate_password password >>= λ _.
        known_hash algorithm >>= λ _. ok (crypto.verifies password hash))
      ≡ ok valid
    → crypto.verifies password hash ≡ valid
verified_by crypto password hash none h =
    absurd (ground (arith, h, Bool-cases (is_empty password || ltb 1024 (len password))))
verified_by crypto password hash (some algorithm) h =
    ground (arith, h, Bool-cases (is_empty password || ltb 1024 (len password)))

-- Credentials that are accepted: the name is the registered one, and Argon2id finds that the
-- password is the one that was hashed.
verified-matches :
    (crypto : Crypto) (username password : Text) (user : Option (Text × Text))
    → verified crypto username password user ≡ ok true
    → (hash : Text) × (user ≡ some (username, hash))
      × (crypto.algorithm hash ≡ some (text "argon2id"))
      × (crypto.verifies password hash ≡ true)
unfolding verify_password
verified-matches crypto username password none h = absurd (cc h)
verified-matches crypto username password (some (name, hash)) h =
    let (encoded, read, h1) = >>=-eq-ok (password_result (parse_hash crypto hash)) _ h in
    let (same, algorithm) = parse_hash-ok crypto hash read in
    let (valid, checks, last) =
      >>=-eq-ok (password_result (verify_password crypto password encoded)) _ h1 in
    let matches : crypto.verifies password encoded ≡ valid =
      verified_by crypto password encoded (crypto.algorithm encoded) checks in
    let (same_name, right) = both (name == username) valid (ok-injective last) in
    (
      hash,
      ap (λ n. some (n, hash)) ((list_beq_iff name username).0 same_name),
      algorithm,
      ap (crypto.verifies password) (sym same) ∙ matches ∙ right,
    )

-- What a login that succeeds has checked and done.
pub record LoggedIn (crypto : Crypto) (supply : Supply) (settings : AuthSettings)
    (body : Option CredentialsRequest) (t : AuthTables) (response : SessionResponse)
    (t' : AuthTables) : Type 0 where
  pub request : CredentialsRequest
  pub asked : body ≡ some request
  pub hash : Text
  pub registered_as : registered t.user ≡ some (trim request.username, hash)
  pub hashed_by : crypto.algorithm hash ≡ some (text "argon2id")
  pub matches : crypto.verifies request.password hash ≡ true
  pub issued : IssuedSession
  pub created : Created crypto t issued t'
  pub answered : issued_response settings (trim request.username) issued ≡ ok response

-- A login that succeeds had a body with the name that is registered, and with a password that
-- Argon2id verifies against the registered hash; it has added one session to the tables and
-- changed neither the user nor the tokens, under a digest that no session had, and its response
-- carries that session.
pub login-LoggedIn :
    (crypto : Crypto) (supply : Supply) (settings : AuthSettings) (body : Option CredentialsRequest)
    (t : AuthTables) {response : SessionResponse} {t' : AuthTables}
    → login crypto supply settings body t ≡ (ok response, t')
    → LoggedIn crypto supply settings body t response t'
unfolding login session_response verify_single_user_credentials
login-LoggedIn crypto supply settings body t h =
    let (request, asked, h1) = checked-ok t (request_body body invalid_login) _ h in
    let username = trim request.username in
    let (_, fits, h2) =
      checked-ok t
        (ensure
          (not (
            is_empty username
            || ltb 64 (length username)
            || is_empty request.password
            || ltb 1024 (len request.password)))
          invalid_login)
        _ h1 in
    let (valid, checks, h3) =
      checked-ok t (available (verify_single_user_credentials crypto username request.password t)) _
        h2 in
    let (_, right, h4) = checked-ok t (ensure valid invalid_login) _ h3 in
    let (issued, t'', created, last) =
      stored-ok t (create_session crypto supply.clock supply.random settings.session_lifetime_ms t)
        _ h4 in
    let (hash, registered_as, hashed_by, matches) =
      verified-matches crypto username request.password (registered t.user) (
        available-ok (verify_single_user_credentials crypto username request.password t) checks
        ∙ ap ok (ensured valid invalid_login right)) in
    record {
      request = request;
      asked = request_body-ok body invalid_login asked;
      hash = hash;
      registered_as = registered_as;
      hashed_by = hashed_by;
      matches = matches;
      issued = issued;
      created =
          create_session-Created crypto supply.clock supply.random settings.session_lifetime_ms t
            (created ∙ ap (λ u. ok (issued, u)) (ap (λ handled. handled.1) last));
      answered = ap (λ handled. handled.0) last;
    }
