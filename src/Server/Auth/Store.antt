-- ===== src/Server/Auth/Store.antt =====
-- The tables of users, sessions and tokens, and the statements over them in store/sqlite.rs. As in
-- Jobs/Store, a statement that fails leaves the tables as they were. `clock` is the system time.
use fixer.Common.{
  ℕ, suc, ◌+◌, Bool, true, false, not, ◌&&◌, ◌||◌, Option, none, some, List, [], ◌∷◌, ◌++◌,
  is_empty, any, find, filter, map, length, ltb, leb, ◌==◌, nat_eq, list_eq, if◌then◌else◌,
}
use fixer.Std.Text.{Text, text, len, trim, trim_start_by, trim_end_by, strip_prefix, in_range}
use fixer.Std.Result.{Result, ok, err, ◌>>=◌, ◌>>◌, ensure}
use fixer.Jobs.Store.{
  StoreError, corrupt_record, database, timestamp_overflow, password, PasswordError, timestamp_ms,
  i64_max,
}
use fixer.Server.Auth.Secrets.{
  Crypto, digest, issue_secret, csrf_token_for_session, parse_hash, verify_password,
}

pub record User : Type 0 where
  pub username : Option Text
  pub password_hash : Text
  pub updated_at_ms : ℕ

pub record Session : Type 0 where
  pub token_digest : List ℕ
  pub csrf_digest : List ℕ
  pub created_at_ms : ℕ
  pub expires_at_ms : ℕ

pub record ApiToken : Type 0 where
  pub id : ℕ
  pub name : Text
  pub token_digest : List ℕ
  pub created_at_ms : ℕ
  pub revoked_at_ms : Option ℕ

-- `last_token_id` is what AUTOINCREMENT remembers.
pub record AuthTables : Type 0 where
  pub user : Option User
  pub sessions : List Session
  pub api_tokens : List ApiToken
  pub last_token_id : ℕ

pub record IssuedSession : Type 0 where
  pub token : Text
  pub csrf_token : Text
  pub expires_at_ms : ℕ

pub record IssuedApiToken : Type 0 where
  pub id : ℕ
  pub token : Text

-- The name and the hash of the user that is registered.
abbrev pub registered : Option User → Option (Text × Text)
registered none = none
registered (some user) = elim user.username [
  | none ↦ none
  | some username ↦ some (username, user.password_hash)
]

abbrev pub is_some {ℓ} : {A : Type ℓ} → Option A → Bool
is_some none = false
is_some (some _) = true

abbrev pub has_registered_user : AuthTables → Bool
has_registered_user t = is_some (registered t.user)

abbrev pub first_of : Option (Text × Text) → Option Text
first_of none = none
first_of (some (username, _)) = some username

abbrev pub registered_username : AuthTables → Option Text
registered_username t = first_of (registered t.user)

-- SQLite's trim drops spaces.
abbrev pub spaces_trimmed : Text → Text
spaces_trimmed s = trim_end_by (λ c. c == b' ') (trim_start_by (λ c. c == b' ') s)

-- ON CONFLICT ... WHERE fixer_users.username IS NULL
abbrev pub put_user : User → Bool → AuthTables → Bool × AuthTables
put_user user true t = (false, t)
put_user user false t = (true, record t { user = some user })

unfoldable pub register_single_user :
    Option ℕ → Text → Text → AuthTables → Result StoreError (Bool × AuthTables)
unfolding timestamp_ms
register_single_user clock username hash t = do
  now ← timestamp_ms clock
  ensure (in_range 3 64 (length (spaces_trimmed username)) && in_range 32 1024 (length hash))
      database
  let user : User = record { username = some username; password_hash = hash; updated_at_ms = now }
  ok (put_user user (has_registered_user t) t)

abbrev pub password_result {ℓ} : {A : Type ℓ} → Result PasswordError A → Result StoreError A
password_result (ok a) = ok a
password_result (err e) = err (password e)

abbrev pub verified : Crypto → Text → Text → Option (Text × Text) → Result StoreError Bool
verified crypto username password' none = ok false
verified crypto username password' (some (registered_username', hash)) = do
  encoded ← password_result (parse_hash crypto hash)
  password_valid ← password_result (verify_password crypto password' encoded)
  ok (registered_username' == username && password_valid)

unfoldable pub verify_single_user_credentials :
    Crypto → Text → Text → AuthTables → Result StoreError Bool
unfolding parse_hash verify_password
verify_single_user_credentials crypto username password' t =
    verified crypto username password' (registered t.user)

abbrev pub has_session : List ℕ → AuthTables → Bool
has_session token_digest t = any (λ session. session.token_digest == token_digest) t.sessions

unfoldable pub create_session :
    Crypto
    → Option ℕ
    → Option (List ℕ)
    → ℕ
    → AuthTables
    → Result StoreError (IssuedSession × AuthTables)
unfolding timestamp_ms issue_secret
create_session crypto clock random lifetime t = do
  ensure (leb lifetime i64_max) timestamp_overflow
  ensure (ltb 0 lifetime) (corrupt_record "session lifetime must be positive")
  now ← timestamp_ms clock
  ensure (leb (now + lifetime) i64_max) timestamp_overflow
  token ← issue_secret crypto random (text "fixer_session_")
  ensure (not (has_session (digest crypto token) t)) database
  let csrf_token = csrf_token_for_session crypto token
  let session : Session = record {
    token_digest = digest crypto token;
    csrf_digest = digest crypto csrf_token;
    created_at_ms = now;
    expires_at_ms = now + lifetime;
  }
  let issued : IssuedSession = record {
    token = token;
    csrf_token = csrf_token;
    expires_at_ms = now + lifetime;
  }
  ok (issued, record t { sessions = t.sessions ++ session ∷ [] })

abbrev pub is_session_token : Text → Bool
is_session_token token = is_some (strip_prefix (text "fixer_session_") token)

-- `? IS NULL OR csrf_digest = ?`
abbrev pub csrf_matches : Crypto → Option Text → Session → Bool
csrf_matches crypto none session = true
csrf_matches crypto (some csrf_token) session = session.csrf_digest == digest crypto csrf_token

-- What the statement selects of a session.
abbrev pub session_matches : Crypto → ℕ → Text → Option Text → Session → Bool
session_matches crypto now token csrf_token session =
    session.token_digest == digest crypto token
    && (ltb now session.expires_at_ms && csrf_matches crypto csrf_token session)

unfoldable pub authenticate_session :
    Crypto → Option ℕ → Text → Option Text → AuthTables → Result StoreError Bool
unfolding timestamp_ms
authenticate_session crypto clock token csrf_token t =
    if not (is_session_token token)
    then ok false
    else (timestamp_ms clock >>= λ now.
        ok (any (session_matches crypto now token csrf_token) t.sessions))

-- The session with the digest of the token that belongs to it.
abbrev pub with_csrf : Crypto → ℕ → Text → Session → Session
with_csrf crypto now token session =
    if session_matches crypto now token none session
    then record session { csrf_digest = digest crypto (csrf_token_for_session crypto token) }
    else session

-- `token_digest` is the primary key, so that at most one row is changed.
unfoldable pub synchronize_session_csrf :
    Crypto → Option ℕ → Text → AuthTables → Result StoreError (Option Text × AuthTables)
unfolding timestamp_ms
synchronize_session_csrf crypto clock token t =
    if not (is_session_token token)
    then ok (none, t)
    else (timestamp_ms clock >>= λ now. ok (
      (if any (session_matches crypto now token none) t.sessions
          then some (csrf_token_for_session crypto token)
          else none),
      record t { sessions = map (with_csrf crypto now token) t.sessions },
    ))

unfoldable pub revoke_session : Crypto → Text → AuthTables → Bool × AuthTables
revoke_session crypto token t = if not (is_session_token token) then (false, t) else (
  has_session (digest crypto token) t,
  record t {
    sessions = filter (λ session. not (session.token_digest == digest crypto token)) t.sessions;
  },
)

unfoldable pub issue_api_token :
    Crypto
    → Option ℕ
    → Option (List ℕ)
    → Text
    → AuthTables
    → Result StoreError (IssuedApiToken × AuthTables)
unfolding timestamp_ms issue_secret
issue_api_token crypto clock random name t = do
  let trimmed = trim name
  ensure (not (is_empty trimmed || ltb 100 (len trimmed)))
      (corrupt_record "API token name must contain between 1 and 100 bytes")
  token ← issue_secret crypto random (text "fixer_pat_")
  now ← timestamp_ms clock
  ensure (not (any (λ row. row.token_digest == digest crypto token) t.api_tokens)) database
  let id = suc t.last_token_id
  let row : ApiToken = record {
    id = id;
    name = trimmed;
    token_digest = digest crypto token;
    created_at_ms = now;
    revoked_at_ms = none;
  }
  let issued : IssuedApiToken = record { id = id; token = token }
  ok (issued, record t { api_tokens = t.api_tokens ++ row ∷ []; last_token_id = id })

abbrev pub is_api_token : Text → Bool
is_api_token token = is_some (strip_prefix (text "fixer_pat_") token)

abbrev pub token_matches : List ℕ → ApiToken → Bool
token_matches token_digest row = row.token_digest == token_digest && not (is_some row.revoked_at_ms)

abbrev pub id_of : Option ApiToken → Option ℕ
id_of none = none
id_of (some row) = some row.id

unfoldable pub authenticate_api_token : Crypto → Text → AuthTables → Option ℕ
authenticate_api_token crypto token t =
    if not (is_api_token token)
    then none
    else id_of (find (token_matches (digest crypto token)) t.api_tokens)

abbrev pub is_live : ℕ → ApiToken → Bool
is_live id row = row.id == id && not (is_some row.revoked_at_ms)

abbrev pub revoked_at : ℕ → ℕ → ApiToken → ApiToken
revoked_at now id row = if is_live id row then record row { revoked_at_ms = some now } else row

-- The table refuses a revocation before the creation.
unfoldable pub revoke_api_token : Option ℕ → ℕ → AuthTables → Result StoreError (Bool × AuthTables)
unfolding timestamp_ms
revoke_api_token clock id t =
    if id == 0
    then ok (false, t)
    else (timestamp_ms clock >>= λ now.
        ensure (not (any (λ row. is_live id row && ltb now row.created_at_ms) t.api_tokens))
          database
        >> ok (
          any (is_live id) t.api_tokens,
          record t { api_tokens = map (revoked_at now id) t.api_tokens },
        ))
