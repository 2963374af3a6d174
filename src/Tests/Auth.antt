-- ===== src/Tests/Auth.antt =====
-- Users, sessions and tokens with a readable digest, and instances of the theorems of Server/Auth.
use fixer.Common.{
  ℕ, ◌≡◌, refl, true, false, none, some, Option, [], ◌∷◌, ◌++◌, map, ◌==◌, nat_eq, list_eq,
  if◌then◌else◌,
}
use fixer.Std.Text.{Text, text, split}
use fixer.Std.Result.{ok, err}
use fixer.Jobs.Store.{database, timestamp_ms}
use fixer.Server.Auth.Secrets.{Crypto, issue_secret, parse_hash, verify_password}
use fixer.Server.Auth.Store.{
  ApiToken, AuthTables, IssuedSession, IssuedApiToken, register_single_user, create_session,
  authenticate_session, issue_api_token, authenticate_api_token, revoke_api_token,
  verify_single_user_credentials,
}
use fixer.Server.Auth.Requests.{
  post, get_method, unauthorized, forbidden_csrf, session_cookie, csrf_cookie, cookie_value,
  bearer_token, authenticate_request,
}
use fixer.Server.Auth.Routes.{
  AuthSettings, Supply, registration_closed, invalid_login, CredentialsRequest, SessionResponse,
  session_response, register, login, validate_registration,
}
use fixer.Std.Decimal.{digits, to_decimal}
use fixer.Server.Auth.LoggedIn.{LoggedIn, login-LoggedIn}
use fixer.Server.Auth.Guarded.{Shown, authenticate_request-Shown}
use fixer.Server.Auth.History.{start, next, registers, issues}
use fixer.Server.Auth.Revoked.{empty_tables, revoke_api_token-forever}

abbrev plain : Crypto
plain = record {
  sha256 = λ t. t;
  encode = λ bytes. map (λ c. if c == 0 then b'.' else c) bytes;
  hash_with = λ password salt. some (password ++ salt);
  algorithm = λ _. some (text "argon2id");
  verifies = λ password hash. password == hash;
}

abbrev session_token : Text
session_token = text "fixer_session_x"

abbrev session : IssuedSession
session = record {
  token = session_token;
  csrf_token = text "fixer_csrf_fixer/csrf/v1.fixer_session_x";
  expires_at_ms = 1500;
}

abbrev with_session : AuthTables
with_session = record {
  user = none;
  sessions =
      record {
        token_digest = session_token;
        csrf_digest = text "fixer_csrf_fixer/csrf/v1.fixer_session_x";
        created_at_ms = 1000;
        expires_at_ms = 1500;
      }
      ∷ [];
  api_tokens = [];
  last_token_id = 0;
}

session_created :
    create_session plain (some 1000) (some (text "x")) 500 empty_tables ≡ ok (session, with_session)
unfolding create_session issue_secret timestamp_ms
session_created = refl

session_reused : create_session plain (some 1200) (some (text "x")) 500 with_session ≡ err database
unfolding create_session issue_secret timestamp_ms
session_reused = refl

abbrev cookie_header : Text × Option Text
cookie_header = (text "cookie", some (text "a=1; fixer_session=fixer_session_x"))

abbrev csrf_header : Text × Option Text
csrf_header = (text "x-csrf-token", some session.csrf_token)

posted :
    authenticate_request plain
      (some 1400)
      (some 1401)
      (cookie_header ∷ csrf_header ∷ [])
      post
      with_session
    ≡ ok tt
unfolding authenticate_request bearer_token cookie_value authenticate_session timestamp_ms split
posted = refl

posted_without :
    authenticate_request plain (some 1400) (some 1401) (cookie_header ∷ []) post with_session
    ≡ err forbidden_csrf
unfolding authenticate_request bearer_token cookie_value authenticate_session timestamp_ms split
posted_without = refl

asked_late :
    authenticate_request plain (some 1500) (some 1500) (cookie_header ∷ []) get_method with_session
    ≡ err unauthorized
unfolding authenticate_request bearer_token cookie_value authenticate_session timestamp_ms split
asked_late = refl

abbrev api_token : IssuedApiToken
api_token = record { id = 1; token = text "fixer_pat_k" }

abbrev token_row : Option ℕ → ApiToken
token_row revoked = record {
  id = 1;
  name = text "ci";
  token_digest = text "fixer_pat_k";
  created_at_ms = 5;
  revoked_at_ms = revoked;
}

abbrev with_token : Option ℕ → AuthTables
with_token revoked = record {
  user = none;
  sessions = [];
  api_tokens = token_row revoked ∷ [];
  last_token_id = 1;
}

token_issued :
    issue_api_token plain (some 5) (some (text "k")) (text " ci ") empty_tables
    ≡ ok (api_token, with_token none)
unfolding issue_api_token issue_secret timestamp_ms
token_issued = refl

token_revoked : revoke_api_token (some 9) 1 (with_token none) ≡ ok (true, with_token (some 9))
unfolding revoke_api_token timestamp_ms
token_revoked = refl

token_known : authenticate_api_token plain (text "fixer_pat_k") (with_token none) ≡ some 1
unfolding authenticate_api_token
token_known = refl

abbrev with_user : AuthTables
with_user = record {
  user = some (record {
    username = some (text "admin");
    password_hash = text "passwordpasswordpasswordpassword";
    updated_at_ms = 7;
  });
  sessions = [];
  api_tokens = token_row (some 9) ∷ [];
  last_token_id = 1;
}

abbrev long_hash : Text
long_hash = text "passwordpasswordpasswordpassword"

user_registered :
    register_single_user (some 7) (text "admin") long_hash (with_token (some 9))
    ≡ ok (true, with_user)
unfolding register_single_user timestamp_ms
user_registered = refl

user_kept : register_single_user (some 8) (text "other") long_hash with_user ≡ ok (false, with_user)
unfolding register_single_user timestamp_ms
user_kept = refl

abbrev supply : Supply
supply = record {
  clock = some 1000;
  clock' = some 1000;
  clock'' = some 1000;
  salt = some [];
  random = some (text "x");
}

abbrev settings : AuthSettings
settings = record { secure_cookie = false; session_lifetime_ms = 500 }

second_registration :
    register plain supply settings
      (some (record { username = text "other"; password = long_hash }))
      with_user
    ≡ (err registration_closed, with_user)
unfolding register validate_registration
second_registration = refl

wrong_password :
    login plain supply settings
      (some (record { username = text "admin"; password = text "no" }))
      with_user
    ≡ (err invalid_login, with_user)
unfolding login verify_single_user_credentials parse_hash verify_password
wrong_password = refl

abbrev right_password : CredentialsRequest
right_password = record { username = text " admin"; password = long_hash }

abbrev logged_in : SessionResponse
logged_in = record {
  username = text "admin";
  csrf_token = session.csrf_token;
  expires_at_ms = 1500;
  cookies =
      text "fixer_session=fixer_session_x; Path=/api; HttpOnly; SameSite=Strict; Max-Age=0"
      ∷ text
          "fixer_csrf=fixer_csrf_fixer/csrf/v1.fixer_session_x; Path=/; SameSite=Strict; Max-Age=0"
      ∷ [];
}

login_succeeds :
    login plain supply settings (some right_password) with_user
    ≡ (ok logged_in, record with_user { sessions = with_session.sessions })
unfolding login verify_single_user_credentials parse_hash verify_password session_response
    create_session issue_secret timestamp_ms session_cookie csrf_cookie to_decimal digits
login_succeeds = refl

login-LoggedIn_example :
    LoggedIn plain supply settings
      (some right_password)
      with_user
      logged_in
      (record with_user { sessions = with_session.sessions })
login-LoggedIn_example =
    login-LoggedIn plain supply settings (some right_password) with_user login_succeeds

authenticate_request-Shown_example :
    Shown plain (some 1400) (some 1401) (cookie_header ∷ csrf_header ∷ []) post with_session
authenticate_request-Shown_example =
    authenticate_request-Shown plain (some 1400) (some 1401) (cookie_header ∷ csrf_header ∷ []) post
      with_session posted

revoke_api_token-forever_example :
    authenticate_api_token plain (text "fixer_pat_k") with_user ≡ none
revoke_api_token-forever_example =
    revoke_api_token-forever plain (text "fixer_pat_k") (some 9) 1
      (next start (issues (some 5) (some (text "k")) (text " ci ") api_token token_issued))
      token_known token_revoked
      (next start (registers (some 7) (text "admin") long_hash true user_registered))
