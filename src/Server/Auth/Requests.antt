-- ===== src/Server/Auth/Requests.antt =====
-- crates/fixer-server/src/auth/mod.rs: who may use a protected route, and the cookies.
use fixer.Common.{
  ℕ, Bool, true, false, not, ◌&&◌, ◌||◌, Option, none, some, List, [], ◌∷◌, ◌++◌, is_empty, any,
  ◌==◌, nat_eq, list_eq, if◌then◌else◌,
}
use fixer.Std.Text.{Text, text, split, trim, strip_prefix, split_once}
use fixer.Std.Decimal.{to_decimal}
use fixer.Std.Result.{Result, ok, err, ◌>>=◌, ◌>>◌, ensure}
use fixer.Jobs.Store.{StoreError}
use fixer.Server.Auth.Secrets.{Crypto}
use fixer.Server.Auth.Store.{AuthTables, authenticate_session, authenticate_api_token}

-- The headers in order, by their names in lower case, each with its `to_str`: `none` if the value is
-- not visible ASCII.
abbrev pub HeaderMap : Type 0
HeaderMap = List (Text × Option Text)

pub data Method : Type 0 where
  head options post put patch delete other : Method
  get_method : Method

-- The responses that refuse a request.
pub data Denied : Type 0 where
  unauthorized forbidden_csrf authentication_unavailable : Denied

-- HeaderMap::get, and then to_str
abbrev pub header_text : Text → HeaderMap → Option Text
header_text name [] = none
header_text name ((key, value) ∷ headers) = if key == name then value else header_text name headers

abbrev matching : Text → Option (Text × Text) → Option Text → Option Text
matching name none later = later
matching name (some (candidate, value)) later =
    if candidate == name && not (is_empty value) then some value else later

-- The first pair of a cookie header with the name and some value, or else what comes later.
abbrev pub value_in : Text → List Text → Option Text → Option Text
value_in name [] later = later
value_in name (pair ∷ pairs) later =
    matching name (split_once b'=' (trim pair)) (value_in name pairs later)

abbrev cookie_in : Text → Option Text → Option Text → Option Text
cookie_in name none later = later
cookie_in name (some value) later = value_in name (split b';' value) later

unfoldable pub cookie_value : Text → HeaderMap → Option Text
unfolding split
cookie_value name [] = none
cookie_value name ((key, value) ∷ headers) =
    let later = cookie_value name headers in
    if key == text "cookie" then cookie_in name value later else later

abbrev is_ascii_whitespace : ℕ → Bool
is_ascii_whitespace c = c == 0x09 || c == 0x0a || c == 0x0c || c == 0x0d || c == 0x20

abbrev bearer_of : Option Text → Option Text
bearer_of none = none
bearer_of (some token) =
    if is_empty token || any is_ascii_whitespace token then none else some token

abbrev behind_bearer : Option Text → Option Text
behind_bearer none = none
behind_bearer (some value) = strip_prefix (text "Bearer ") value

unfoldable pub bearer_token : HeaderMap → Option Text
bearer_token headers = bearer_of (behind_bearer (header_text (text "authorization") headers))

abbrev pub is_state_changing : Method → Bool
is_state_changing post = true
is_state_changing put = true
is_state_changing patch = true
is_state_changing delete = true
is_state_changing _ = false

-- `map_err(|_| authentication_unavailable())`
abbrev pub or_unavailable {ℓ} : {A : Type ℓ} → Result StoreError A → Result Denied A
or_unavailable (ok a) = ok a
or_unavailable (err e) = err authentication_unavailable

abbrev pub check_bearer : Option ℕ → Result Denied (Unit {0})
check_bearer none = err unauthorized
check_bearer (some id) = ok tt

abbrev pub check_csrf :
    Crypto → Option ℕ → Text → Option Text → AuthTables → Result Denied (Unit {0})
check_csrf crypto clock token none t = err forbidden_csrf
check_csrf crypto clock token (some csrf) t = do
  csrf_valid ← or_unavailable (authenticate_session crypto clock token (some csrf) t)
  ensure csrf_valid forbidden_csrf

abbrev pub check_session :
    Crypto
    → Option ℕ
    → Option ℕ
    → HeaderMap
    → Method
    → Option Text
    → AuthTables
    → Result Denied (Unit {0})
check_session crypto clock clock' headers method none t = err unauthorized
check_session crypto clock clock' headers method (some token) t = do
  session_valid ← or_unavailable (authenticate_session crypto clock token none t)
  ensure session_valid unauthorized
  (if is_state_changing method
      then check_csrf crypto clock' token (header_text (text "x-csrf-token") headers) t
      else ok tt)

-- The branch of a bearer token, or the other.
abbrev pub check_either :
    Crypto → Option Text → Result Denied (Unit {0}) → AuthTables → Result Denied (Unit {0})
check_either crypto none session t = session
check_either crypto (some token) session t = check_bearer (authenticate_api_token crypto token t)

-- `clock` and `clock'` are the times of the two statements.
unfoldable pub authenticate_request :
    Crypto → Option ℕ → Option ℕ → HeaderMap → Method → AuthTables → Result Denied (Unit {0})
unfolding bearer_token cookie_value authenticate_session authenticate_api_token
authenticate_request crypto clock clock' headers method t =
    check_either crypto (bearer_token headers)
      (check_session crypto clock clock' headers method
        (cookie_value (text "fixer_session") headers) t)
      t

abbrev secure_text : Bool → Text
secure_text secure = if secure then text "; Secure" else []

unfoldable pub session_cookie : Text → Bool → ℕ → Text
unfolding to_decimal
session_cookie token secure max_age_seconds =
    text "fixer_session="
    ++ (token
        ++ (text "; Path=/api; HttpOnly; SameSite=Strict; Max-Age="
            ++ (to_decimal max_age_seconds ++ secure_text secure)))

unfoldable pub csrf_cookie : Text → Bool → ℕ → Text
unfolding to_decimal
csrf_cookie token secure max_age_seconds =
    text "fixer_csrf="
    ++ (token
        ++ (text "; Path=/; SameSite=Strict; Max-Age="
            ++ (to_decimal max_age_seconds ++ secure_text secure)))

abbrev pub expired_session_cookie : Bool → Text
expired_session_cookie secure = session_cookie [] secure 0

abbrev pub expired_csrf_cookie : Bool → Text
expired_csrf_cookie secure = csrf_cookie [] secure 0
