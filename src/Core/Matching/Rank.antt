-- ===== src/Core/Matching/Rank.antt =====
-- The order of the candidates in crates/fixer-core/src/matching/mod.rs.
use fixer.Common.{
  ℕ, ◌+◌, ◌*◌, ◌<◌, ◌≡◌, refl, ap, Bool, true, List, [], ◌∷◌, ltb, ◌==◌, nat_eq, all, arith, ◌∙◌,
}
use fixer.Std.Text.{Text}
use fixer.Std.Sort.{insert, sort_by, IsOrder}
use fixer.Std.Result.{ok, ◌>>=◌, >>=-eq-ok}
use fixer.Core.Error.{media_kind_eq}
use fixer.Core.Identity.{external_id_eq}
use fixer.Core.Matching.{
  MatchQuery, Candidate, MatchKey, class_order, sequence_order, key_lt, key_of, match_key,
  with_keys, comes_after, candidates_of, rank,
}

-- The keys' order in one number.
abbrev pub weight : MatchKey → ℕ
weight key = 2 * class_order key.class + sequence_order key.sequence

pub sequence_order-lt : (k : MatchKey) → sequence_order k.sequence < 2
sequence_order-lt k = ground arith

pub key_lt-weight : (j k : MatchKey) → key_lt j k ≡ ltb (weight j) (weight k)
unfolding key_lt
key_lt-weight j k = ground (arith, sequence_order-lt j, sequence_order-lt k)

module _ (to_lowercase : Text → Text) where
  -- The first candidate has the lesser key.
  abbrev pub is_worse : MatchQuery → Candidate → Candidate → Bool
  is_worse query x y = key_lt (key_of to_lowercase query x) (key_of to_lowercase query y)

  pub is_worse-IsOrder : (query : MatchQuery) → IsOrder (is_worse query)
  is_worse-IsOrder query =
      let w : Candidate → ℕ = λ c. weight (key_of to_lowercase query c) in
      let lt = λ (x : Candidate) (y : Candidate).
        key_lt-weight (key_of to_lowercase query x) (key_of to_lowercase query y) in
      record {
        asym = λ x y h. ground (arith, lt x y, lt y x);
        trans = λ x y z h k. ground (arith, lt x y, lt y z, lt x z);
      }

  abbrev pub keyed_list : MatchQuery → List Candidate → List (Candidate × MatchKey)
  keyed_list query [] = []
  keyed_list query (candidate ∷ candidates) =
      (candidate, key_of to_lowercase query candidate) ∷ keyed_list query candidates

  -- All candidates have the media kind of the query.
  abbrev pub same_kind : MatchQuery → List Candidate → Bool
  same_kind query = all λ candidate. query.media_kind == candidate.media_kind

  pub with_keys_inv :
      (query : MatchQuery) (candidates : List Candidate) {keyed : List (Candidate × MatchKey)}
      → with_keys to_lowercase query candidates ≡ ok keyed
      → (keyed ≡ keyed_list query candidates) × (same_kind query candidates ≡ true)
  unfolding with_keys match_key
  with_keys_inv query [] h = ground arith
  with_keys_inv query (candidate ∷ candidates) h =
      let (key, matched, rest) =
        >>=-eq-ok (match_key to_lowercase query candidate)
          (λ k. with_keys to_lowercase query candidates >>= λ r. ok ((candidate, k) ∷ r)) h in
      let (others, given, built) =
        >>=-eq-ok (with_keys to_lowercase query candidates) (λ r. ok ((candidate, key) ∷ r)) rest in
      ground (arith, with_keys_inv query candidates given, matched, built)

  pub with_keys_total :
      (query : MatchQuery) (candidates : List Candidate)
      → same_kind query candidates ≡ true
      → with_keys to_lowercase query candidates ≡ ok (keyed_list query candidates)
  unfolding with_keys match_key
  with_keys_total query [] h = refl
  with_keys_total query (candidate ∷ candidates) h =
      ground (arith, with_keys_total query candidates, h)

  candidates_of-insert :
      (query : MatchQuery) (x : Candidate) (keyed : List Candidate)
      → insert (comes_after to_lowercase) (x, key_of to_lowercase query x) (keyed_list query keyed)
        ≡ keyed_list query (insert (is_worse query) x keyed)
  unfolding insert
  candidates_of-insert query x [] = refl
  candidates_of-insert query x (y ∷ ys) = ground (arith, candidates_of-insert query x ys)

  sort_keyed :
      (query : MatchQuery) (candidates : List Candidate)
      → sort_by (comes_after to_lowercase) (keyed_list query candidates)
        ≡ keyed_list query (sort_by (is_worse query) candidates)
  unfolding sort_by
  sort_keyed query [] = refl
  sort_keyed query (x ∷ xs) =
      ap (insert (comes_after to_lowercase) (x, key_of to_lowercase query x)) (sort_keyed query xs)
      ∙ candidates_of-insert query x (sort_by (is_worse query) xs)

  candidates_of-keyed :
      (query : MatchQuery) (candidates : List Candidate)
      → candidates_of to_lowercase (keyed_list query candidates) ≡ candidates
  candidates_of-keyed query [] = refl
  candidates_of-keyed query (x ∷ xs) = ap (◌∷◌ x) (candidates_of-keyed query xs)

  pub rank_inv :
      (query : MatchQuery) (candidates : List Candidate) {ranked : List Candidate}
      → rank to_lowercase query candidates ≡ ok ranked
      → ranked ≡ sort_by (is_worse query) candidates
  unfolding rank
  rank_inv query candidates h =
      let (keyed, given, built) =
        >>=-eq-ok (with_keys to_lowercase query candidates)
          (λ k. ok (candidates_of to_lowercase (sort_by (comes_after to_lowercase) k))) h in
      let e = (with_keys_inv query candidates given).0 in
      let sorted =
        ap (λ k. candidates_of to_lowercase (sort_by (comes_after to_lowercase) k)) e
        ∙ ap (candidates_of to_lowercase) (sort_keyed query candidates)
        ∙ candidates_of-keyed query (sort_by (is_worse query) candidates) in
      ground (arith, built, sorted)
