-- ===== src/Server/Auth/Forever.antt =====
-- The user stays whoever registered first, and a token that was revoked stays so.
use fixer.Common.{
  ℕ, suc, ◌+◌, ◌≤◌, ◌≡◌, refl, sym, ap, ◌∙◌, subst, Bool, true, false, Bool-cases, inl, inr, some,
  List, [], ◌∷◌, ◌++◌, any, filter, map, length, arith, ◌==◌, nat_eq, list_eq, list_beq_iff,
}
use fixer.Std.Text.{Text}
use fixer.Server.Auth.Secrets.{Crypto}
use fixer.Server.Auth.Store.{ApiToken, AuthTables, registered, token_matches, is_live, revoked_at}
use fixer.Server.Auth.Lifetime.{any-append}
use fixer.Server.Auth.History.{
  History, start, next, Change, neither, first_user, new_token, withdrawn, Step-Change,
}

Change-registered :
    (crypto : Crypto) {t t' : AuthTables} {user : Text × Text}
    → Change crypto t t'
    → registered t.user ≡ some user
    → registered t'.user ≡ some user
Change-registered crypto (neither same_user same_tokens) h = ap registered same_user ∙ h
Change-registered crypto (first_user nobody same_tokens) h = absurd (cc (sym nobody ∙ h))
Change-registered crypto (new_token row same_user unique more) h = ap registered same_user ∙ h
Change-registered crypto (withdrawn now id same_user marked) h = ap registered same_user ∙ h

-- Once a user is registered, the name and the hash of the password stay, whatever statements run
-- afterwards.
pub History-registered :
    (crypto : Crypto) {t t' : AuthTables} {user : Text × Text}
    → History crypto t t'
    → registered t.user ≡ some user
    → registered t'.user ≡ some user
History-registered crypto start h = h
History-registered crypto (next history step) h =
    Change-registered crypto (Step-Change crypto step) (History-registered crypto history h)

abbrev pub has : List ℕ → ApiToken → Bool
has ds row = row.token_digest == ds

-- Rows have the digest, and all of them are revoked.
abbrev pub IsRevoked : List ℕ → List ApiToken → Type 0
IsRevoked ds rows = (any (has ds) rows ≡ true) × (any (token_matches ds) rows ≡ false)

revoked_at-has :
    (ds : List ℕ) (now id : ℕ) (row : ApiToken) → has ds (revoked_at now id row) ≡ has ds row
revoked_at-has ds now id row = elim (Bool-cases (is_live id row)) [
  | inl live ↦ rw live refl
  | inr other ↦ rw other refl
]

pub revoked_at-matches :
    (ds : List ℕ) (now id : ℕ) (row : ApiToken)
    → token_matches ds row ≡ false
    → token_matches ds (revoked_at now id row) ≡ false
revoked_at-matches ds now id row h = elim (Bool-cases (is_live id row)) [
  | inl live ↦ rw live (ground arith)
  | inr other ↦ rw other h
]

pub any-has-map :
    (ds : List ℕ) (now id : ℕ) (rows : List ApiToken)
    → any (has ds) (map (revoked_at now id) rows) ≡ any (has ds) rows
any-has-map ds now id [] = refl
any-has-map ds now id (row ∷ rows) =
    rw (revoked_at-has ds now id row) (rw (any-has-map ds now id rows) refl)

pub any-matches-map :
    (ds : List ℕ) (now id : ℕ) (rows : List ApiToken)
    → any (token_matches ds) rows ≡ false
    → any (token_matches ds) (map (revoked_at now id) rows) ≡ false
any-matches-map ds now id [] h = refl
any-matches-map ds now id (row ∷ rows) h =
    let first' : token_matches ds row ≡ false = ground arith in
    let rest = any-matches-map ds now id rows (ground arith) in
    rw (revoked_at-matches ds now id row first') rest

-- A row with a new digest has none that there is.
other_digest :
    (ds : List ℕ) (row : ApiToken) (rows : List ApiToken)
    → any (has ds) rows ≡ true
    → any (λ other. other.token_digest == row.token_digest) rows ≡ false
    → has ds row ≡ false
other_digest ds row rows h k = elim (Bool-cases (has ds row)) [
  | inl same ↦
      let e : row.token_digest ≡ ds = (list_beq_iff row.token_digest ds).0 same in
      absurd (cc (sym h ∙ subst (λ d. any (λ other. other.token_digest == d) rows ≡ false) e k))
  | inr other ↦ other
]

Change-IsRevoked :
    (crypto : Crypto) (ds : List ℕ) {t t' : AuthTables}
    → Change crypto t t'
    → IsRevoked ds t.api_tokens
    → IsRevoked ds t'.api_tokens
Change-IsRevoked crypto ds (neither same_user same_tokens) h =
    subst (IsRevoked ds) (sym same_tokens) h
Change-IsRevoked crypto ds (first_user nobody same_tokens) h =
    subst (IsRevoked ds) (sym same_tokens) h
Change-IsRevoked crypto ds {t} (new_token row same_user unique more) (there, none_live) =
    subst (IsRevoked ds) (sym more) (
      let e = any-append (λ _. true) (has ds) t.api_tokens (row ∷ []) in
      let e' = any-append (λ _. true) (token_matches ds) t.api_tokens (row ∷ []) in
      let other = other_digest ds row t.api_tokens there unique in
      (e ∙ rw there refl, e' ∙ rw none_live (rw other refl)))
Change-IsRevoked crypto ds {t} (withdrawn now id same_user marked) (there, none_live) =
    subst (IsRevoked ds) (sym marked)
      (any-has-map ds now id t.api_tokens ∙ there, any-matches-map ds now id t.api_tokens none_live)

pub History-IsRevoked :
    (crypto : Crypto) (ds : List ℕ) {t t' : AuthTables}
    → History crypto t t'
    → IsRevoked ds t.api_tokens
    → IsRevoked ds t'.api_tokens
History-IsRevoked crypto ds start h = h
History-IsRevoked crypto ds (next history step) h =
    Change-IsRevoked crypto ds (Step-Change crypto step) (History-IsRevoked crypto ds history h)

abbrev pub count : List ℕ → List ApiToken → ℕ
count ds rows = length (filter (has ds) rows)

-- The constraint UNIQUE of the digests.
abbrev pub IsUnique : List ApiToken → Type 0
IsUnique rows = (ds : List ℕ) → count ds rows ≤ 1

count-append :
    (ds : List ℕ) (rows : List ApiToken) (row : ApiToken)
    → count ds (rows ++ row ∷ []) ≡ count ds rows + count ds (row ∷ [])
count-append ds [] row = omega arith
count-append ds (first' ∷ rows) row = ground (arith, count-append ds rows row)

count-map :
    (ds : List ℕ) (now id : ℕ) (rows : List ApiToken)
    → count ds (map (revoked_at now id) rows) ≡ count ds rows
count-map ds now id [] = refl
count-map ds now id (row ∷ rows) = elim (Bool-cases (has ds row)) [
  | inl its ↦ rw (revoked_at-has ds now id row) (rw its (ap suc (count-map ds now id rows)))
  | inr other ↦ rw (revoked_at-has ds now id row) (rw other (count-map ds now id rows))
]

count-none : (ds : List ℕ) (rows : List ApiToken) → any (has ds) rows ≡ false → count ds rows ≡ 0
count-none ds [] h = refl
count-none ds (row ∷ rows) h = elim (Bool-cases (has ds row)) [
  | inl its ↦ absurd (ground arith)
  | inr other ↦ rw other (count-none ds rows (ground arith))
]

pub none-count :
    (ds : List ℕ) (rows : List ApiToken) → count ds rows ≡ 0 → any (has ds) rows ≡ false
none-count ds [] h = refl
none-count ds (row ∷ rows) h = elim (Bool-cases (has ds row)) [
  | inl its ↦ absurd (ground arith)
  | inr other ↦ rw other (none-count ds rows (ground arith))
]

count_new :
    (ds : List ℕ) (rows : List ApiToken) (row : ApiToken)
    → any (λ other. other.token_digest == row.token_digest) rows ≡ false
    → count ds rows ≤ 1
    → count ds (rows ++ row ∷ []) ≤ 1
count_new ds rows row unique h = elim (Bool-cases (has ds row)) [
  | inl its ↦
      let e : row.token_digest ≡ ds = (list_beq_iff row.token_digest ds).0 its in
      let none' =
        count-none ds rows
          (subst (λ d. any (λ other. other.token_digest == d) rows ≡ false) e unique) in
      let one : count ds (row ∷ []) ≡ 1 = rw its refl in
      let total = count-append ds rows row in omega arith
  | inr other ↦
      let zero' : count ds (row ∷ []) ≡ 0 = rw other refl in
      let total = count-append ds rows row in omega arith
]

Change-IsUnique :
    (crypto : Crypto) {t t' : AuthTables}
    → Change crypto t t'
    → IsUnique t.api_tokens
    → IsUnique t'.api_tokens
Change-IsUnique crypto (neither same_user same_tokens) h = subst IsUnique (sym same_tokens) h
Change-IsUnique crypto (first_user nobody same_tokens) h = subst IsUnique (sym same_tokens) h
Change-IsUnique crypto {t} (new_token row same_user unique more) h =
    subst IsUnique (sym more) (λ ds. count_new ds t.api_tokens row unique (h ds))
Change-IsUnique crypto {t} (withdrawn now id same_user marked) h =
    subst IsUnique (sym marked)
      (λ ds. subst (λ n. n ≤ 1) (sym (count-map ds now id t.api_tokens)) (h ds))

pub History-IsUnique :
    (crypto : Crypto) {t t' : AuthTables}
    → History crypto t t'
    → IsUnique t.api_tokens
    → IsUnique t'.api_tokens
History-IsUnique crypto start h = h
History-IsUnique crypto (next history step) h =
    Change-IsUnique crypto (Step-Change crypto step) (History-IsUnique crypto history h)
