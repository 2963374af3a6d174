-- ===== src/Server/Auth/History.antt =====
-- What lasts in the tables, whatever statements run later.
use fixer.Common.{
  ℕ, ◌≡◌, refl, subst, Bool, true, false, not, ◌&&◌, ◌||◌, Bool-cases, inl, inr, ◌⊎◌, Option, none,
  some, List, [], ◌∷◌, ◌++◌, any, map, length, is_empty, ltb, ◌==◌, nat_eq, list_eq, if◌then◌else◌,
}
use fixer.Std.Text.{Text, text, len, trim, in_range}
use fixer.Std.Result.{Result, ok, ensure, >>=-eq-ok, ok-injective}
use fixer.Jobs.Store.{StoreError, corrupt_record, database, timestamp_ms}
use fixer.Server.Auth.Secrets.{Crypto, digest, issue_secret}
use fixer.Server.Auth.Store.{
  User, ApiToken, AuthTables, IssuedSession, IssuedApiToken, registered, has_registered_user,
  put_user, spaces_trimmed, register_single_user, create_session, synchronize_session_csrf,
  revoke_session, issue_api_token, is_some, is_live, revoked_at, revoke_api_token, is_session_token,
}
use fixer.Server.Auth.Lifetime.{create_session-Created}

-- A statement that succeeded.
pub data Step (crypto : Crypto) (t t' : AuthTables) : Type 0 where
  registers :
      (clock : Option ℕ) (username hash : Text) (done : Bool)
      → register_single_user clock username hash t ≡ ok (done, t')
      → Step crypto t t'
  creates :
      (clock : Option ℕ) (random : Option (List ℕ)) (lifetime : ℕ) (issued : IssuedSession)
      → create_session crypto clock random lifetime t ≡ ok (issued, t')
      → Step crypto t t'
  synchronizes :
      (clock : Option ℕ) (token : Text) (csrf : Option Text)
      → synchronize_session_csrf crypto clock token t ≡ ok (csrf, t')
      → Step crypto t t'
  revokes : (token : Text) → (revoke_session crypto token t).1 ≡ t' → Step crypto t t'
  issues :
      (clock : Option ℕ) (random : Option (List ℕ)) (name : Text) (issued : IssuedApiToken)
      → issue_api_token crypto clock random name t ≡ ok (issued, t')
      → Step crypto t t'
  withdraws :
      (clock : Option ℕ) (id : ℕ) (done : Bool)
      → revoke_api_token clock id t ≡ ok (done, t')
      → Step crypto t t'

pub data History (crypto : Crypto) (t : AuthTables) : AuthTables → Type 0 where
  start : History crypto t t
  next : {t' t'' : AuthTables} → History crypto t t' → Step crypto t' t'' → History crypto t t''

-- What a step does to the user and to the API tokens.
pub data Change (crypto : Crypto) (t t' : AuthTables) : Type 0 where
  neither : t'.user ≡ t.user → t'.api_tokens ≡ t.api_tokens → Change crypto t t'
  first_user : registered t.user ≡ none → t'.api_tokens ≡ t.api_tokens → Change crypto t t'
  new_token :
      (row : ApiToken)
      → t'.user ≡ t.user
      → any (λ other. other.token_digest == row.token_digest) t.api_tokens ≡ false
      → t'.api_tokens ≡ t.api_tokens ++ row ∷ []
      → Change crypto t t'
  withdrawn :
      (now id : ℕ)
      → t'.user ≡ t.user
      → t'.api_tokens ≡ map (revoked_at now id) t.api_tokens
      → Change crypto t t'

pub branch :
    {A : Type 0} (b : Bool) (x y : A) {z : A}
    → (if b then x else y) ≡ z
    → ((b ≡ true) × (x ≡ z)) ⊎ ((b ≡ false) × (y ≡ z))
branch true x y h = inl (refl, h)
branch false x y h = inr (refl, h)

unregistered : (o : Option (Text × Text)) → is_some o ≡ false → o ≡ none
unregistered none h = refl
unregistered (some u) h = absurd (cc h)

put_user-Change :
    (crypto : Crypto) (t : AuthTables) (user : User) (taken : Bool)
    → has_registered_user t ≡ taken
    → Change crypto t ((put_user user taken t).1)
put_user-Change crypto t user true h = neither refl refl
put_user-Change crypto t user false h = first_user (unregistered (registered t.user) h) refl

-- The tables of a result.
result-Change :
    {A : Type 0} (crypto : Crypto) (t : AuthTables) {result result' : A × AuthTables}
    → ◌≡◌ {A = Result StoreError (A × AuthTables)} (ok result) (ok result')
    → Change crypto t (result.1)
    → Change crypto t (result'.1)
result-Change {A} crypto t h change =
    subst (λ result. Change crypto t (result.1)) (ok-injective h) change

pub not_ensured : (b : Bool) (e : StoreError) {u : Unit {0}} → ensure (not b) e ≡ ok u → b ≡ false
not_ensured true e h = absurd (cc h)
not_ensured false e h = refl

pub Step-Change : (crypto : Crypto) {t t' : AuthTables} → Step crypto t t' → Change crypto t t'
unfolding register_single_user synchronize_session_csrf revoke_session issue_api_token
    revoke_api_token
Step-Change crypto {t} (registers clock username hash done h) =
    let (now, timed, h1) = >>=-eq-ok (timestamp_ms clock) _ h in
    let (_, fits, last) =
      >>=-eq-ok
        (ensure (in_range 3 64 (length (spaces_trimmed username)) && in_range 32 1024 (length hash))
          database)
        _ h1 in
    result-Change crypto t last (
      put_user-Change crypto t
        (record { username = some username; password_hash = hash; updated_at_ms = now })
        (has_registered_user t) refl)
Step-Change crypto {t} (creates clock random lifetime issued h) =
    let created = create_session-Created crypto clock random lifetime t h in
    neither (created.same_user) (created.same_tokens)
Step-Change crypto {t} (synchronizes clock token csrf h) =
    elim (branch (not (is_session_token token)) _ _ h) [
      | inl (other, last) ↦ result-Change crypto t last (neither refl refl)
      | inr (good, h1) ↦
          let (now, timed, last) = >>=-eq-ok (timestamp_ms clock) _ h1 in
          result-Change crypto t last (neither refl refl)
    ]
Step-Change crypto {t} (revokes token h) =
    subst (Change crypto t) h (elim (Bool-cases (is_session_token token)) [
      | inl good ↦ rw good (neither refl refl)
      | inr other ↦ rw other (neither refl refl)
    ])
Step-Change crypto {t} (issues clock random name issued h) =
    let (_, named, h1) =
      >>=-eq-ok
        (ensure (not (is_empty (trim name) || ltb 100 (len (trim name))))
          (corrupt_record "API token name must contain between 1 and 100 bytes"))
        _ h in
    let (token, secret', h2) = >>=-eq-ok (issue_secret crypto random (text "fixer_pat_")) _ h1 in
    let (now, timed, h3) = >>=-eq-ok (timestamp_ms clock) _ h2 in
    let (_, unique, last) =
      >>=-eq-ok
        (ensure (not (any (λ row. row.token_digest == digest crypto token) t.api_tokens)) database)
        _ h3 in
    result-Change crypto t last (
      new_token _ refl
        (not_ensured (any (λ row. row.token_digest == digest crypto token) t.api_tokens) database
          unique)
        refl)
Step-Change crypto {t} (withdraws clock id done h) = elim (branch (id == 0) _ _ h) [
  | inl (other, last) ↦ result-Change crypto t last (neither refl refl)
  | inr (good, h1) ↦
      let (now, timed, h2) = >>=-eq-ok (timestamp_ms clock) _ h1 in
      let (_, ordered, last) =
        >>=-eq-ok
          (ensure (not (any (λ row. is_live id row && ltb now row.created_at_ms) t.api_tokens))
            database)
          _ h2 in
      result-Change crypto t last (withdrawn now id refl refl)
]
