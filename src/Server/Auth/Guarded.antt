-- ===== src/Server/Auth/Guarded.antt =====
-- What a request has shown that passes to a protected route.
use fixer.Common.{
  ℕ, ◌<◌, ◌≡◌, refl, ap, ◌∙◌, subst, Bool, true, false, not, Bool-cases, inl, inr, Option, none,
  some, Option-cases, List, [], ◌∷◌, any, find, arith, ◌==◌, nat_eq, list_eq, if◌then◌else◌,
}
use fixer.Std.Text.{Text, text}
use fixer.Std.Result.{Result, ok, err, ◌>>=◌, ensure, >>=-eq-ok, ok-injective}
use fixer.Jobs.Store.{StoreError, timestamp_ms}
use fixer.Server.Auth.Secrets.{Crypto, digest}
use fixer.Server.Auth.Store.{
  Session, ApiToken, AuthTables, is_some, id_of, token_matches, is_session_token, csrf_matches,
  session_matches, authenticate_session, is_api_token, authenticate_api_token,
}
use fixer.Server.Auth.Requests.{
  HeaderMap, Method, Denied, unauthorized, forbidden_csrf, header_text, cookie_value, bearer_token,
  is_state_changing, or_unavailable, check_bearer, check_csrf, check_session, check_either,
  authenticate_request,
}

-- The row of an API token that is not revoked.
pub record LiveToken (crypto : Crypto) (token : Text) (t : AuthTables) : Type 0 where
  pub row : ApiToken
  pub kept : find (token_matches (digest crypto token)) t.api_tokens ≡ some row
  pub its_digest : (row.token_digest == digest crypto token) ≡ true
  pub live : is_some row.revoked_at_ms ≡ false

-- The row of a session that has not expired, with the CSRF token if there is one.
pub record LiveSession (crypto : Crypto) (clock : Option ℕ) (token : Text)
    (csrf_token : Option Text) (t : AuthTables) : Type 0 where
  pub now : ℕ
  pub timed : timestamp_ms clock ≡ ok now
  pub session : Session
  pub its_token : (session.token_digest == digest crypto token) ≡ true
  pub unexpired : now < session.expires_at_ms
  pub its_csrf : csrf_matches crypto csrf_token session ≡ true

any-find : {A : Type 0} (p : A → Bool) (xs : List A) → any p xs ≡ true → (x : A) × (p x ≡ true)
any-find p [] h = absurd (cc h)
any-find p (x ∷ xs) h = elim (Bool-cases (p x)) [
  | inl found ↦ (x, found)
  | inr other ↦ any-find p xs (ground arith)
]

find-holds : {A : Type 0} (p : A → Bool) (xs : List A) {x : A} → find p xs ≡ some x → p x ≡ true
find-holds p [] h = absurd (cc h)
find-holds p (y ∷ xs) {x} h = elim (Bool-cases (p y)) [
  | inl found ↦ let same : y ≡ x = ground arith in subst (λ z. p z ≡ true) same found
  | inr other ↦ find-holds p xs (ground arith)
]

else_true :
    (good : Bool) (m : Result StoreError Bool)
    → (if not good then ok false else m) ≡ ok true
    → m ≡ ok true
else_true true m h = h
else_true false m h = absurd (cc h)

else_some :
    (good : Bool) (m : Option ℕ) {id : ℕ} → (if not good then none else m) ≡ some id → m ≡ some id
else_some true m h = h
else_some false m h = absurd (cc h)

matched_session :
    (crypto : Crypto) (now : ℕ) (token : Text) (csrf_token : Option Text) (session : Session)
    → session_matches crypto now token csrf_token session ≡ true
    → ((session.token_digest == digest crypto token) ≡ true)
      × (now < session.expires_at_ms)
      × (csrf_matches crypto csrf_token session ≡ true)
matched_session crypto now token csrf_token session h = (ground arith, ground arith, ground arith)

authenticate_session-LiveSession :
    (crypto : Crypto) (clock : Option ℕ) (token : Text) (csrf_token : Option Text) (t : AuthTables)
    → authenticate_session crypto clock token csrf_token t ≡ ok true
    → LiveSession crypto clock token csrf_token t
unfolding authenticate_session
authenticate_session-LiveSession crypto clock token csrf_token t h =
    let (now, timed, found) =
      >>=-eq-ok (timestamp_ms clock)
        (λ now. ok (any (session_matches crypto now token csrf_token) t.sessions))
        (else_true (is_session_token token)
          (timestamp_ms clock >>= λ now.
            ok (any (session_matches crypto now token csrf_token) t.sessions))
          h) in
    let (session, matched) =
      any-find (session_matches crypto now token csrf_token) t.sessions (ok-injective found) in
    let (its_token, unexpired, its_csrf) =
      matched_session crypto now token csrf_token session matched in
    record {
      now = now;
      timed = timed;
      session = session;
      its_token = its_token;
      unexpired = unexpired;
      its_csrf = its_csrf;
    }

id_of-some :
    (found : Option ApiToken) {id : ℕ}
    → id_of found ≡ some id
    → (row : ApiToken) × (found ≡ some row)
id_of-some none h = absurd (cc h)
id_of-some (some row) h = (row, refl)

matched_token :
    (token_digest : List ℕ) (row : ApiToken)
    → token_matches token_digest row ≡ true
    → ((row.token_digest == token_digest) ≡ true) × (is_some row.revoked_at_ms ≡ false)
matched_token token_digest row h = (ground arith, ground arith)

authenticate_api_token-LiveToken :
    (crypto : Crypto) (token : Text) (t : AuthTables) {id : ℕ}
    → authenticate_api_token crypto token t ≡ some id
    → LiveToken crypto token t
unfolding authenticate_api_token
authenticate_api_token-LiveToken crypto token t h =
    let (row, kept) = id_of-some (find (token_matches (digest crypto token)) t.api_tokens) (
      else_some (is_api_token token)
        (id_of (find (token_matches (digest crypto token)) t.api_tokens)) h) in
    let (its_digest, live) =
      matched_token (digest crypto token) row
        (find-holds (token_matches (digest crypto token)) t.api_tokens kept) in
    record { row = row; kept = kept; its_digest = its_digest; live = live }

-- What a request shows: an API token, or else a session, and for a change its CSRF token.
pub data Shown (crypto : Crypto) (clock clock' : Option ℕ) (headers : HeaderMap) (method : Method)
    (t : AuthTables) : Type 0 where
  by_token :
      (token : Text)
      → bearer_token headers ≡ some token
      → LiveToken crypto token t
      → Shown crypto clock clock' headers method t
  by_session :
      (token : Text)
      → cookie_value (text "fixer_session") headers ≡ some token
      → LiveSession crypto clock token none t
      → (is_state_changing method ≡ true
          → (csrf : Text) × (header_text (text "x-csrf-token") headers ≡ some csrf)
            × LiveSession crypto clock' token (some csrf) t)
      → Shown crypto clock clock' headers method t

or_unavailable-ok :
    {A : Type 0} (m : Result StoreError A) {a : A} → or_unavailable m ≡ ok a → m ≡ ok a
or_unavailable-ok (ok a) h = ap ok (ok-injective h)
or_unavailable-ok (err e) h = absurd (cc h)

ensured : {E : Type 0} (b : Bool) (e : E) {u : Unit {0}} → ensure b e ≡ ok u → b ≡ true
ensured true e h = refl
ensured false e h = absurd (cc h)

check_session_valid :
    (crypto : Crypto) (clock : Option ℕ) (token : Text) (csrf_token : Option Text) (t : AuthTables)
    {valid : Bool} (e : Denied) {u : Unit {0}}
    → or_unavailable (authenticate_session crypto clock token csrf_token t) ≡ ok valid
    → ensure valid e ≡ ok u
    → LiveSession crypto clock token csrf_token t
check_session_valid crypto clock token csrf_token t {valid} e answered holds =
    authenticate_session-LiveSession crypto clock token csrf_token t (
      or_unavailable-ok (authenticate_session crypto clock token csrf_token t) answered
      ∙ ap ok (ensured valid e holds))

check_csrf-LiveSession :
    (crypto : Crypto) (clock : Option ℕ) (token : Text) (csrf : Option Text) (t : AuthTables)
    → check_csrf crypto clock token csrf t ≡ ok tt
    → (given : Text) × (csrf ≡ some given) × LiveSession crypto clock token (some given) t
check_csrf-LiveSession crypto clock token none t h = absurd (cc h)
check_csrf-LiveSession crypto clock token (some csrf) t h =
    let (valid, answered, holds) =
      >>=-eq-ok (or_unavailable (authenticate_session crypto clock token (some csrf) t)) _ h in
    (csrf, refl, check_session_valid crypto clock token (some csrf) t forbidden_csrf answered holds)

check_either-Shown :
    (crypto : Crypto) (clock clock' : Option ℕ) (headers : HeaderMap) (method : Method)
    (t : AuthTables) (bearer cookie : Option Text)
    → bearer_token headers ≡ bearer
    → cookie_value (text "fixer_session") headers ≡ cookie
    → check_either crypto bearer (check_session crypto clock clock' headers method cookie t) t
      ≡ ok tt
    → Shown crypto clock clock' headers method t
check_either-Shown crypto clock clock' headers method t (some token) cookie has_bearer has_cookie
      h =
    elim (Option-cases (authenticate_api_token crypto token t)) [
      | inl refused ↦ absurd (cc (subst (λ id. check_bearer id ≡ ok tt) refused h))
      | inr (id, answered) ↦
          by_token token has_bearer (authenticate_api_token-LiveToken crypto token t answered)
    ]
check_either-Shown crypto clock clock' headers method t none none has_bearer has_cookie h =
    absurd (cc h)
check_either-Shown crypto clock clock' headers method t none (some token) has_bearer has_cookie h =
    let (valid, answered, h1) =
      >>=-eq-ok (or_unavailable (authenticate_session crypto clock token none t)) _ h in
    let (_, holds, h2) = >>=-eq-ok (ensure valid unauthorized) _ h1 in
    by_session token has_cookie
      (check_session_valid crypto clock token none t unauthorized answered holds)
      (λ changing.
        check_csrf-LiveSession crypto clock' token (header_text (text "x-csrf-token") headers) t (
          subst
            (λ b.
              (if b
                then check_csrf crypto clock' token (header_text (text "x-csrf-token") headers) t
                else ok tt)
              ≡ ok tt)
            changing h2))

-- A request passes only if it bears an API token that is known and not revoked, or has the cookie
-- of a session that has not expired, and for a method that changes state also the CSRF token of
-- such a session in its header.
pub authenticate_request-Shown :
    (crypto : Crypto) (clock clock' : Option ℕ) (headers : HeaderMap) (method : Method)
    (t : AuthTables)
    → authenticate_request crypto clock clock' headers method t ≡ ok tt
    → Shown crypto clock clock' headers method t
unfolding authenticate_request
authenticate_request-Shown crypto clock clock' headers method t h =
    check_either-Shown crypto clock clock' headers method t (bearer_token headers)
      (cookie_value (text "fixer_session") headers) refl refl h
