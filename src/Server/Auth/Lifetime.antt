-- ===== src/Server/Auth/Lifetime.antt =====
-- How long a session authenticates.
use fixer.Common.{
  ℕ, ◌+◌, ◌≤◌, ◌≡◌, refl, sym, ap, ◌∙◌, subst, ==_refl, Bool, true, false, not, ◌&&◌, ◌||◌,
  Bool-cases, inl, inr, Option, none, some, List, [], ◌∷◌, ◌++◌, any, filter, ltb, leb, le→leb,
  arith, ◌==◌, nat_eq, list_eq,
}
use fixer.Std.Text.{Text, text}
use fixer.Std.Result.{ok, ◌>>=◌, ensure, >>=-eq-ok, ok-injective}
use fixer.Jobs.Store.{
  StoreError, corrupt_record, database, timestamp_overflow, timestamp_ms, i64_max,
}
use fixer.Server.Auth.Secrets.{Crypto, digest, issue_secret, csrf_token_for_session}
use fixer.Server.Auth.Store.{
  Session, AuthTables, IssuedSession, has_session, create_session, is_session_token,
  session_matches, authenticate_session, revoke_session,
}

timestamp_ms-ok : (now : ℕ) → now ≤ i64_max → timestamp_ms (some now) ≡ ok now
unfolding timestamp_ms
timestamp_ms-ok now h = rw (le→leb now i64_max h) refl

-- What the statement of a session's authentication finds.
abbrev pub is_authentic : Crypto → ℕ → Text → Option Text → AuthTables → Bool
is_authentic crypto now token csrf_token t =
    is_session_token token && any (session_matches crypto now token csrf_token) t.sessions

authenticate_session-now :
    (crypto : Crypto) (token : Text) (csrf_token : Option Text) (now : ℕ) (t : AuthTables)
    → now ≤ i64_max
    → authenticate_session crypto (some now) token csrf_token t
      ≡ ok (is_authentic crypto now token csrf_token t)
unfolding authenticate_session
authenticate_session-now crypto token csrf_token now t h =
    elim (Bool-cases (is_session_token token)) [
      | inl good ↦ rw good (
          ap (λ m. m >>= λ now. ok (any (session_matches crypto now token csrf_token) t.sessions))
            (timestamp_ms-ok now h))
      | inr bad ↦ rw bad refl
    ]

module _ {A : Type 0} (p q : A → Bool) where
  any-filter :
      (xs : List A)
      → ((x : A) → q x ≡ true → p x ≡ true)
      → any q (filter (λ x. not (p x)) xs) ≡ false
  any-filter [] h = refl
  any-filter (x ∷ xs) h = elim (Bool-cases (p x)) [
    | inl kept ↦ rw kept (any-filter xs h)
    | inr dropped ↦ ground (arith, h x, any-filter xs h)
  ]

  any-weaken :
      (xs : List A) → ((x : A) → q x ≡ true → p x ≡ true) → any p xs ≡ false → any q xs ≡ false
  any-weaken [] h k = refl
  any-weaken (x ∷ xs) h k =
      let rest : any q xs ≡ false = any-weaken xs h (ground arith) in ground (arith, h x, rest)

  pub any-append : (xs ys : List A) → any q (xs ++ ys) ≡ (any q xs || any q ys)
  any-append [] ys = refl
  any-append (x ∷ xs) ys = ground (arith, any-append xs ys)

session_matches-digest :
    (crypto : Crypto) (now : ℕ) (token : Text) (csrf_token : Option Text) (session : Session)
    → session_matches crypto now token csrf_token session ≡ true
    → (session.token_digest == digest crypto token) ≡ true
session_matches-digest crypto now token csrf_token session h = ground arith

-- A session that was revoked is refused, whatever the time and the CSRF token.
pub revoke_session-authenticate_session :
    (crypto : Crypto) (token : Text) (csrf_token : Option Text) (now : ℕ) (t : AuthTables)
    → now ≤ i64_max
    → authenticate_session crypto (some now) token csrf_token ((revoke_session crypto token t).1)
      ≡ ok false
unfolding revoke_session
revoke_session-authenticate_session crypto token csrf_token now t h =
    authenticate_session-now crypto token csrf_token now ((revoke_session crypto token t).1) h
    ∙ ap ok (elim (Bool-cases (is_session_token token)) [
      | inl good ↦ rw good (
          any-filter (λ session. session.token_digest == digest crypto token)
            (session_matches crypto now token csrf_token) t.sessions
            (session_matches-digest crypto now token csrf_token))
      | inr bad ↦ rw bad refl
    ])

-- What a new session is.
pub record Created (crypto : Crypto) (t : AuthTables) (issued : IssuedSession) (t' : AuthTables)
    : Type 0 where
  pub session : Session
  pub same_user : t'.user ≡ t.user
  pub same_tokens : t'.api_tokens ≡ t.api_tokens
  pub rows : t'.sessions ≡ t.sessions ++ session ∷ []
  pub fresh : has_session (digest crypto issued.token) t ≡ false
  pub its_token : session.token_digest ≡ digest crypto issued.token
  pub its_csrf : session.csrf_digest ≡ digest crypto issued.csrf_token
  pub its_end : session.expires_at_ms ≡ issued.expires_at_ms
  pub prefixed : is_session_token issued.token ≡ true

issue_secret-prefixed :
    (crypto : Crypto) (random : Option (List ℕ)) {token : Text}
    → issue_secret crypto random (text "fixer_session_") ≡ ok token
    → is_session_token token ≡ true
unfolding issue_secret
issue_secret-prefixed crypto none h = absurd (cc h)
issue_secret-prefixed crypto (some bytes) h =
    subst (λ token. is_session_token token ≡ true) (ok-injective h) refl

not_ensured : (b : Bool) (e : StoreError) {u : Unit {0}} → ensure (not b) e ≡ ok u → b ≡ false
not_ensured true e h = absurd (cc h)
not_ensured false e h = refl

pub create_session-Created :
    (crypto : Crypto) (clock : Option ℕ) (random : Option (List ℕ)) (lifetime : ℕ) (t : AuthTables)
    {issued : IssuedSession} {t' : AuthTables}
    → create_session crypto clock random lifetime t ≡ ok (issued, t')
    → Created crypto t issued t'
unfolding create_session
create_session-Created crypto clock random lifetime t h =
    let (_, short, h1) = >>=-eq-ok (ensure (leb lifetime i64_max) timestamp_overflow) _ h in
    let (_, positive, h2) =
      >>=-eq-ok (ensure (ltb 0 lifetime) (corrupt_record "session lifetime must be positive")) _
        h1 in
    let (now, timed, h3) = >>=-eq-ok (timestamp_ms clock) _ h2 in
    let (_, ends, h4) = >>=-eq-ok (ensure (leb (now + lifetime) i64_max) timestamp_overflow) _ h3 in
    let (token, secret', h5) =
      >>=-eq-ok (issue_secret crypto random (text "fixer_session_")) _ h4 in
    let (_, unique, last) =
      >>=-eq-ok (ensure (not (has_session (digest crypto token) t)) database) _ h5 in
    subst (λ result. Created crypto t (result.0) (result.1)) (ok-injective last)
      (record {
        session = record {
          token_digest = digest crypto token;
          csrf_digest = digest crypto (csrf_token_for_session crypto token);
          created_at_ms = now;
          expires_at_ms = now + lifetime;
        };
        same_user = refl;
        same_tokens = refl;
        rows = refl;
        fresh = not_ensured (has_session (digest crypto token) t) database unique;
        its_token = refl;
        its_csrf = refl;
        its_end = refl;
        prefixed = issue_secret-prefixed crypto random secret';
      })

-- The CSRF tokens that a request may have with a new session: none, where none is asked for, or its
-- own.
abbrev pub Belongs : IssuedSession → Option Text → Type 0
Belongs issued none = Unit
Belongs issued (some csrf_token) = csrf_token ≡ issued.csrf_token

same_digest : {ds es : List ℕ} → ds ≡ es → (ds == es) ≡ true
same_digest {ds} {es} h = ap (λ d. d == es) h ∙ ==_refl es

three : (a b c : Bool) → a ≡ true → c ≡ true → (a && (b && c)) ≡ b
three a b c h k = ground arith

Created-matches :
    (crypto : Crypto) {t t' : AuthTables} (issued : IssuedSession) (csrf_token : Option Text)
    (now : ℕ)
    → (created : Created crypto t issued t') → Belongs issued csrf_token
    → session_matches crypto now issued.token csrf_token created.session
      ≡ ltb now issued.expires_at_ms
Created-matches crypto issued none now created belongs =
    three (created.session.token_digest == digest crypto issued.token)
      (ltb now created.session.expires_at_ms) true (same_digest (created.its_token)) refl
    ∙ ap (ltb now) (created.its_end)
Created-matches crypto issued (some csrf_token) now created belongs =
    three (created.session.token_digest == digest crypto issued.token)
      (ltb now created.session.expires_at_ms)
      (created.session.csrf_digest == digest crypto csrf_token) (same_digest (created.its_token))
      (same_digest (created.its_csrf ∙ ap (digest crypto) (sym belongs)))
    ∙ ap (ltb now) (created.its_end)

-- A new session authenticates, alone and with its CSRF token, exactly until it expires.
pub create_session-authenticate_session :
    (crypto : Crypto) (clock : Option ℕ) (random : Option (List ℕ)) (lifetime : ℕ) (t : AuthTables)
    {issued : IssuedSession} {t' : AuthTables} (csrf_token : Option Text) (now : ℕ)
    → create_session crypto clock random lifetime t ≡ ok (issued, t')
    → Belongs issued csrf_token
    → now ≤ i64_max
    → authenticate_session crypto (some now) issued.token csrf_token t'
      ≡ ok (ltb now issued.expires_at_ms)
create_session-authenticate_session crypto clock random lifetime t {issued} {t'} csrf_token now h
      belongs timely =
    let created = create_session-Created crypto clock random lifetime t h in
    let matches = session_matches crypto now issued.token csrf_token in
    let old : any matches t.sessions ≡ false =
      any-weaken (λ session. session.token_digest == digest crypto issued.token) matches t.sessions
        (session_matches-digest crypto now issued.token csrf_token) (created.fresh) in
    let new' : matches (created.session) ≡ ltb now issued.expires_at_ms =
      Created-matches crypto issued csrf_token now created belongs in
    let all' : any matches t'.sessions
        ≡ (any matches t.sessions || any matches (created.session ∷ [])) =
      ap (any matches) (created.rows)
      ∙ any-append (λ _. true) matches t.sessions (created.session ∷ []) in
    authenticate_session-now crypto issued.token csrf_token now t' timely
    ∙ ap ok (
        both (is_session_token issued.token) (any matches t'.sessions) (any matches t.sessions)
          (matches (created.session)) (ltb now issued.expires_at_ms) (created.prefixed) all' old
          new')
  where
    both :
        (a b c d e : Bool) → a ≡ true → b ≡ (c || (d || false)) → c ≡ false → d ≡ e → (a && b) ≡ e
    both a b c d e h1 h2 h3 h4 = ground arith
