-- ===== src/Server/Auth/Revoked.antt =====
-- A token that is revoked never authenticates again.
use fixer.Common.{
  ℕ, ◌≤◌, ◌≡◌, refl, sym, ap, ◌∙◌, subst, Bool, true, false, not, ◌&&◌, Bool-cases, inl, inr,
  Option, none, some, List, [], ◌∷◌, any, find, ltb, map, arith, ◌==◌, nat_eq, list_eq,
  if◌then◌else◌,
}
use fixer.Std.Text.{Text}
use fixer.Std.Result.{ok, ensure, >>=-eq-ok, ok-injective}
use fixer.Jobs.Store.{database, timestamp_ms}
use fixer.Server.Auth.Secrets.{Crypto, digest}
use fixer.Server.Auth.Store.{
  ApiToken, AuthTables, token_matches, id_of, is_some, is_live, revoked_at, revoke_api_token,
  authenticate_api_token, is_api_token,
}
use fixer.Server.Auth.History.{History, branch}
use fixer.Server.Auth.Forever.{
  IsRevoked, has, count, none-count, revoked_at-matches, any-has-map, any-matches-map,
  History-IsRevoked, History-IsUnique,
}

abbrev pub empty_tables : AuthTables
empty_tables = record { user = none; sessions = []; api_tokens = []; last_token_id = 0 }

matches_of_none :
    (ds : List ℕ) (rows : List ApiToken)
    → any (has ds) rows ≡ false
    → any (token_matches ds) rows ≡ false
matches_of_none ds [] h = refl
matches_of_none ds (row ∷ rows) h =
    let rest = matches_of_none ds rows (ground arith) in ground (arith, rest)

find-has :
    (ds : List ℕ) (rows : List ApiToken) {row : ApiToken}
    → find (token_matches ds) rows ≡ some row
    → any (has ds) rows ≡ true
find-has ds [] h = absurd (cc h)
find-has ds (row ∷ rows) {row = found} h = elim (Bool-cases (has ds row)) [
  | inl its ↦ rw its refl
  | inr other ↦
      let rest : find (token_matches ds) rows ≡ some found = ground arith in
      rw other (find-has ds rows rest)
]

-- The marked first row was the only one.
marked-IsRevoked :
    (ds : List ℕ) (now id : ℕ) (rows : List ApiToken) {row : ApiToken}
    → find (token_matches ds) rows ≡ some row
    → row.id ≡ id
    → count ds rows ≤ 1
    → any (token_matches ds) (map (revoked_at now id) rows) ≡ false
marked-IsRevoked ds now id [] h same h1 = refl
marked-IsRevoked ds now id (first' ∷ rows) {row} h same h1 = elim (Bool-cases (has ds first')) [
  | inl its ↦
      let none_more : any (has ds) rows ≡ false = none-count ds rows (ground arith) in
      elim (Bool-cases (is_some first'.revoked_at_ms)) [
        | inl old ↦ absurd (cc (sym none_more ∙ find-has ds rows (later its old)))
        | inr live ↦
            rw (mark_first its live)
              (any-matches-map ds now id rows (matches_of_none ds rows none_more))
      ]
  | inr other ↦
      let unmatched : token_matches ds first' ≡ false = rw other refl in
      let rest : find (token_matches ds) rows ≡ some row = ground arith in
      let few : count ds rows ≤ 1 = ground arith in
      rw (revoked_at-matches ds now id first' unmatched)
        (marked-IsRevoked ds now id rows rest same few)
]
  where
    later :
        has ds first' ≡ true
        → is_some first'.revoked_at_ms ≡ true
        → find (token_matches ds) rows ≡ some row
    later its old = ground arith

    mark_first :
        has ds first' ≡ true
        → is_some first'.revoked_at_ms ≡ false
        → token_matches ds (revoked_at now id first') ≡ false
    mark_first its live =
        let found : first' ≡ row = ground arith in
        let its_id : first'.id ≡ id = ap (λ r. r.id) found ∙ same in
        let is_it : is_live id first' ≡ true = ground arith in rw is_it (ground arith)

id_of-inv :
    (found : Option ApiToken) {id : ℕ}
    → id_of found ≡ some id
    → (row : ApiToken) × (found ≡ some row) × (row.id ≡ id)
id_of-inv none h = absurd (cc h)
id_of-inv (some row) h = (row, refl, cc h)

unmatched_lem :
    (crypto : Crypto) (token : Text) (t : AuthTables)
    → any (token_matches (digest crypto token)) t.api_tokens ≡ false
    → authenticate_api_token crypto token t ≡ none
unfolding authenticate_api_token
unmatched_lem crypto token t h = elim (Bool-cases (is_api_token token)) [
  | inl good ↦ rw good (ap id_of (find_none (token_matches (digest crypto token)) t.api_tokens h))
  | inr other ↦ rw other refl
]
  where
    find_none :
        (p : ApiToken → Bool) (rows : List ApiToken) → any p rows ≡ false → find p rows ≡ none
    find_none p [] k = refl
    find_none p (row ∷ rows) k = let rest = find_none p rows (ground arith) in ground (arith, rest)

revoke_api_token-rows :
    (clock : Option ℕ) (id : ℕ) (t : AuthTables) {t' : AuthTables}
    → revoke_api_token clock id t ≡ ok (true, t')
    → (now : ℕ) × (map (revoked_at now id) t.api_tokens ≡ t'.api_tokens)
unfolding revoke_api_token
revoke_api_token-rows clock id t h = elim (branch (id == 0) _ _ h) [
  | inl (other, last) ↦ absurd (cc (ap (λ result. result.0) (ok-injective last)))
  | inr (good, h1) ↦
      let (now, timed, h2) = >>=-eq-ok (timestamp_ms clock) _ h1 in
      let (_, ordered, last) =
        >>=-eq-ok
          (ensure (not (any (λ row. is_live id row && ltb now row.created_at_ms) t.api_tokens))
            database)
          _ h2 in
      (now, ap (λ result. result.1.api_tokens) (ok-injective last))
]

-- In tables that statements have made from empty ones, a token that authenticates, and is then
-- revoked by the id that it has shown, never authenticates again, whatever statements run later.
pub revoke_api_token-forever :
    (crypto : Crypto) {t t' t'' : AuthTables} (token : Text) (clock : Option ℕ) (id : ℕ)
    → History crypto empty_tables t
    → authenticate_api_token crypto token t ≡ some id
    → revoke_api_token clock id t ≡ ok (true, t')
    → History crypto t' t''
    → authenticate_api_token crypto token t'' ≡ none
unfolding authenticate_api_token
revoke_api_token-forever crypto {t} {t'} {t''} token clock id before' known revoked after' =
    let ds = digest crypto token in
    let unique = History-IsUnique crypto before' (λ _. omega arith) in
    let (row, found, same) =
      id_of-inv (find (token_matches ds) t.api_tokens) (shown (is_api_token token) _ known) in
    let (now, rows) = revoke_api_token-rows clock id t revoked in
    let dead : IsRevoked ds t'.api_tokens = subst (IsRevoked ds) rows (
      any-has-map ds now id t.api_tokens ∙ find-has ds t.api_tokens found,
      marked-IsRevoked ds now id t.api_tokens found same (unique ds),
    ) in
    unmatched_lem crypto token t'' ((History-IsRevoked crypto ds after' dead).1)
  where
    shown :
        (good : Bool) (m : Option ℕ) {n : ℕ} → (if not good then none else m) ≡ some n → m ≡ some n
    shown true m h = h
    shown false m h = absurd (cc h)
