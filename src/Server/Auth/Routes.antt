-- ===== src/Server/Auth/Routes.antt =====
-- crates/fixer-server/src/api/v1/auth.rs: the routes that register, log in, log out and tell the
-- status. A body is `none` if it is no JSON of the fields. A response is what the route decides:
-- its body and the cookies that it sets.
use fixer.Common.{
  ℕ, ◌/◌, Bool, true, false, not, ◌||◌, Option, none, some, List, [], ◌∷◌, is_empty, all, length,
  ltb, ◌==◌, nat_eq, if◌then◌else◌,
}
use fixer.Std.Text.{Text, text, len, trim, in_range}
use fixer.Std.Map.{Map}
use fixer.Std.Result.{Result, ok, err, ◌>>=◌, ◌>>◌, ensure}
use fixer.Jobs.Store.{StoreError}
use fixer.Server.Auth.Secrets.{Crypto, hash_password}
use fixer.Server.Auth.Store.{
  AuthTables, IssuedSession, has_registered_user, registered_username, register_single_user,
  verify_single_user_credentials, create_session, authenticate_session, synchronize_session_csrf,
  revoke_session, is_some,
}
use fixer.Server.Auth.Requests.{
  HeaderMap, cookie_value, session_cookie, csrf_cookie, expired_session_cookie, expired_csrf_cookie,
}

pub record CredentialsRequest : Type 0 where
  pub username : Text
  pub password : Text

-- What AuthState holds beside the store and the policies of other layers.
pub record AuthSettings : Type 0 where
  pub secure_cookie : Bool
  pub session_lifetime_ms : ℕ

pub data ApiError : Type 0 where
  invalid_registration : Option (Map Text Text) → ApiError
  registration_closed invalid_login unavailable : ApiError

pub record SessionResponse : Type 0 where
  pub username : Text
  pub csrf_token : Text
  pub expires_at_ms : ℕ
  pub cookies : List Text

pub record AuthStatusResponse : Type 0 where
  pub registration_required : Bool
  pub authenticated : Bool
  pub username : Option Text
  pub cookies : List Text

abbrev pub available {ℓ κ} : {A : Type ℓ} {E : Type κ} → Result E A → Result ApiError A
available (ok a) = ok a
available (err e) = err unavailable

-- HeaderValue::from_str
abbrev header_value : Text → Result ApiError Text
header_value value = do
  ensure (all (λ c. in_range 0x20 0x7e c || c == 0x09) value) unavailable
  ok value

abbrev pub request_body : Option CredentialsRequest → ApiError → Result ApiError CredentialsRequest
request_body none error = err error
request_body (some request) error = ok request

abbrev username_detail : Text → Map Text Text → Map Text Text
username_detail username details =
    if in_range 3 64 (length username)
    then details
    else (text "username", text "must contain between 3 and 64 characters") ∷ details

abbrev password_detail : Text → Map Text Text
password_detail password =
    if in_range 8 1024 (len password)
    then []
    else (text "password", text "must contain between 8 and 1024 bytes") ∷ []

unfoldable pub validate_registration : Text → Text → Result ApiError (Unit {0})
validate_registration username password =
    let details = username_detail username (password_detail password) in
    ensure (is_empty details) (invalid_registration (some details))

-- Duration::as_secs
abbrev as_secs : ℕ → ℕ
as_secs milliseconds = milliseconds / 1000

-- A route ends with its response or error, and with the tables as its statements left them.
abbrev pub Handled {ℓ} : Type ℓ → Type ℓ
Handled A = Result ApiError A × AuthTables

-- A statement of a route, and how the route goes on from it.
abbrev pub stored {ℓ κ} :
    {A : Type ℓ} {B : Type κ}
    → AuthTables
    → Result StoreError (A × AuthTables)
    → (A → AuthTables → Handled B)
    → Handled B
stored t (err e) go_on = (err unavailable, t)
stored t (ok (a, t')) go_on = go_on a t'

-- A check of a route, that changes nothing.
abbrev pub checked {ℓ κ} :
    {A : Type ℓ} {B : Type κ} → AuthTables → Result ApiError A → (A → Handled B) → Handled B
checked t (err e) go_on = (err e, t)
checked t (ok a) go_on = go_on a

abbrev pub issued_response : AuthSettings → Text → IssuedSession → Result ApiError SessionResponse
issued_response settings username session = do
  cookie ←
      header_value
        (session_cookie session.token settings.secure_cookie (as_secs settings.session_lifetime_ms))
  csrf ←
      header_value (
        csrf_cookie session.csrf_token settings.secure_cookie
          (as_secs settings.session_lifetime_ms))
  ok (record {
    username = username;
    csrf_token = session.csrf_token;
    expires_at_ms = session.expires_at_ms;
    cookies = cookie ∷ csrf ∷ [];
  })

unfoldable pub session_response :
    Crypto → Option ℕ → Option (List ℕ) → AuthSettings → Text → AuthTables → Handled SessionResponse
unfolding create_session session_cookie csrf_cookie
session_response crypto clock random settings username t =
    stored t (create_session crypto clock random settings.session_lifetime_ms t)
      (λ session t'. (issued_response settings username session, t'))

-- The times of the statements and the random bytes that a route gets.
pub record Supply : Type 0 where
  pub clock : Option ℕ
  pub clock' : Option ℕ
  pub clock'' : Option ℕ
  pub salt : Option (List ℕ)
  pub random : Option (List ℕ)

unfoldable pub register :
    Crypto
    → Supply
    → AuthSettings
    → Option CredentialsRequest
    → AuthTables
    → Handled SessionResponse
unfolding validate_registration hash_password register_single_user session_response
register crypto supply settings body t =
    checked t (request_body body (invalid_registration none)) (λ request.
      let username = trim request.username in
      checked t (validate_registration username request.password) (λ _.
        checked t (ensure (not (has_registered_user t)) registration_closed) (λ _.
          checked t (available (hash_password crypto supply.salt request.password))
            (λ password_hash.
              stored t (register_single_user supply.clock username password_hash t)
                (λ registered t'. checked t' (ensure registered registration_closed) (λ _.
                  session_response crypto supply.clock' supply.random settings username t'))))))

unfoldable pub login :
    Crypto
    → Supply
    → AuthSettings
    → Option CredentialsRequest
    → AuthTables
    → Handled SessionResponse
unfolding verify_single_user_credentials session_response
login crypto supply settings body t = checked t (request_body body invalid_login) (λ request.
    let username = trim request.username in
    checked t
      (ensure
        (not (
          is_empty username
          || ltb 64 (length username)
          || is_empty request.password
          || ltb 1024 (len request.password)))
        invalid_login)
      (λ _.
        checked t (available (verify_single_user_credentials crypto username request.password t))
          (λ verified.
            checked t (ensure verified invalid_login)
              (λ _. session_response crypto supply.clock supply.random settings username t))))

abbrev revoked_by : Crypto → Option Text → AuthTables → AuthTables
revoked_by crypto none t = t
revoked_by crypto (some token) t = (revoke_session crypto token t).1

abbrev expired_cookies : AuthSettings → Result ApiError (List Text)
expired_cookies settings = do
  cookie ← header_value (expired_session_cookie settings.secure_cookie)
  csrf ← header_value (expired_csrf_cookie settings.secure_cookie)
  ok (cookie ∷ csrf ∷ [])

-- The response is the cookies that it sets.
unfoldable pub logout : Crypto → AuthSettings → HeaderMap → AuthTables → Handled (List Text)
unfolding revoke_session cookie_value session_cookie csrf_cookie
logout crypto settings headers t =
    (expired_cookies settings, revoked_by crypto (cookie_value (text "fixer_session") headers) t)

abbrev refreshed_cookies : AuthSettings → Option Text → Result ApiError (List Text)
refreshed_cookies settings none = ok []
refreshed_cookies settings (some csrf) = do
  cookie ←
      header_value (csrf_cookie csrf settings.secure_cookie (as_secs settings.session_lifetime_ms))
  ok (cookie ∷ [])

abbrev status_response :
    AuthSettings → Bool → Bool → Option Text → Option Text → Result ApiError AuthStatusResponse
status_response settings registration_required authenticated username refreshed_csrf = do
  cookies ← refreshed_cookies settings refreshed_csrf
  ok (record {
    registration_required = registration_required;
    authenticated = authenticated;
    username = if authenticated then username else none;
    cookies = cookies;
  })

abbrev csrf_valid : Crypto → Supply → Text → Option Text → AuthTables → Result ApiError Bool
csrf_valid crypto supply token none t = ok false
csrf_valid crypto supply token (some csrf) t =
    available (authenticate_session crypto supply.clock' token (some csrf) t)

abbrev csrf_status :
    Crypto
    → Supply
    → AuthSettings
    → Option Text
    → Text
    → AuthTables
    → Bool
    → Handled AuthStatusResponse
csrf_status crypto supply settings username token t true =
    (status_response settings false true username none, t)
csrf_status crypto supply settings username token t false =
    stored t (synchronize_session_csrf crypto supply.clock'' token t)
      (λ refreshed t'. (status_response settings false (is_some refreshed) username refreshed, t'))

abbrev session_status :
    Crypto
    → Supply
    → AuthSettings
    → HeaderMap
    → Option Text
    → Text
    → AuthTables
    → Bool
    → Handled AuthStatusResponse
session_status crypto supply settings headers username token t false =
    (status_response settings false false username none, t)
session_status crypto supply settings headers username token t true =
    checked t (csrf_valid crypto supply token (cookie_value (text "fixer_csrf") headers) t)
      (csrf_status crypto supply settings username token t)

abbrev token_status :
    Crypto
    → Supply
    → AuthSettings
    → HeaderMap
    → Option Text
    → Option Text
    → AuthTables
    → Handled AuthStatusResponse
token_status crypto supply settings headers username none t =
    (status_response settings false false username none, t)
token_status crypto supply settings headers username (some token) t =
    checked t (available (authenticate_session crypto supply.clock token none t))
      (session_status crypto supply settings headers username token t)

unfoldable pub status :
    Crypto → Supply → AuthSettings → HeaderMap → AuthTables → Handled AuthStatusResponse
unfolding authenticate_session synchronize_session_csrf cookie_value csrf_cookie
status crypto supply settings headers t = elim (registered_username t) [
  | none ↦ (status_response settings true false none none, t)
  | some username ↦
      token_status crypto supply settings headers (some username)
        (cookie_value (text "fixer_session") headers) t
]
