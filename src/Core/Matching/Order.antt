-- ===== src/Core/Matching/Order.antt =====
-- What the matcher of crates/fixer-core/src/matching/mod.rs promises of its order.
use mathlib.Core.List.{Perm}
use fixer.Common.{
  ℕ, ◌≡◌, refl, ap, Bool, true, false, not, some, List, [], ◌∷◌, ◌++◌, ltb, ◌==◌, nat_eq, any,
  filter, first, All, is_empty, arith, Bool-cases, inl, inr, ◌↔◌, sym, ◌∙◌, subst, All-append,
  All-imp,
}
use fixer.Std.Text.{Text}
use fixer.Std.Sort.{
  sort_by, sort_by-perm, filter-sort_by, IsSorted, sort_by-IsSorted, sort_by-first, IsFirstBest,
}
use fixer.Std.Result.{ok, ◌>>◌, ensure, >>=-eq-ok}
use fixer.Core.Error.{media_kind_eq}
use fixer.Core.Identity.{external_id_eq}
use fixer.Core.Matching.{
  MatchQuery, Candidate, match_class, key_of, with_keys, no_candidates, candidates_of, comes_after,
  rank, select_candidate,
}
use fixer.Core.Matching.Rank.{
  is_worse, is_worse-IsOrder, same_kind, with_keys_inv, with_keys_total, rank_inv, keyed_list,
  key_lt-weight, weight, sequence_order-lt,
}

module _ (to_lowercase : Text → Text) (query : MatchQuery) where
  -- The candidate's key weighs `w`; keys of the same weight compare equal.
  abbrev pub has_weight : ℕ → Candidate → Bool
  has_weight w candidate = weight (key_of to_lowercase query candidate) == w

  same_weight :
      (w : ℕ) (x y : Candidate)
      → has_weight w x ≡ true
      → has_weight w y ≡ true
      → is_worse to_lowercase query x y ≡ false
  same_weight w x y h k =
      ground
        (arith, h, k, key_lt-weight (key_of to_lowercase query x) (key_of to_lowercase query y))

module _ (to_lowercase : Text → Text) (query : MatchQuery) (candidates : List Candidate) where
  -- The ranked candidates are the given ones, none lost and none added; none stands before one
  -- with a greater key; and candidates whose keys compare equal keep their given order.
  pub rank-IsSorted :
      {ranked : List Candidate}
      → rank to_lowercase query candidates ≡ ok ranked
      → Perm ranked candidates
        × IsSorted (is_worse to_lowercase query) ranked
        × ((w : ℕ)
            → filter (has_weight to_lowercase query w) ranked
              ≡ filter (has_weight to_lowercase query w) candidates)
  rank-IsSorted {ranked} h =
      let gt = is_worse to_lowercase query in
      let e = rank_inv to_lowercase query candidates h in
      (
        subst (λ r. Perm r candidates) (sym e) (sort_by-perm gt candidates),
        subst (IsSorted gt) (sym e)
            (sort_by-IsSorted gt (is_worse-IsOrder to_lowercase query) candidates),
        λ w.
            ap (filter (has_weight to_lowercase query w)) e
            ∙ filter-sort_by gt (has_weight to_lowercase query w) candidates
                (same_weight to_lowercase query w),
      )

  -- Ranking succeeds exactly where every candidate has the media kind of the query.
  pub rank_iff :
      ((ranked : List Candidate) × (rank to_lowercase query candidates ≡ ok ranked))
      ↔ (same_kind to_lowercase query candidates ≡ true)
  unfolding rank
  rank_iff = (
    λ r.
        let (keyed, given, built) =
          >>=-eq-ok (with_keys to_lowercase query candidates)
            (λ k. ok (candidates_of to_lowercase (sort_by (comes_after to_lowercase) k))) r.1 in
        (with_keys_inv to_lowercase query candidates given).1,
    λ same. (
      candidates_of to_lowercase
          (sort_by (comes_after to_lowercase) (keyed_list to_lowercase query candidates)),
      rw (with_keys_total to_lowercase query candidates same) refl,
    ),
  )

  -- The selected candidate is the first one with the greatest key: each candidate before it has a
  -- lesser key, and none after it has a greater one.
  pub select_candidate-IsFirstBest :
      {ranked : List Candidate} {selected : Candidate}
      → select_candidate to_lowercase query candidates ≡ ok ranked
      → first ranked ≡ some selected
      → IsFirstBest (is_worse to_lowercase query) selected candidates
  unfolding select_candidate
  select_candidate-IsFirstBest {ranked} {selected} h f =
      let (given, ranks, built) =
        >>=-eq-ok (rank to_lowercase query candidates)
          (λ r. ensure (not (is_empty r)) no_candidates >> ok r) h in
      let same : given ≡ ranked = ground arith in
      let e = rank_inv to_lowercase query candidates ranks in
      sort_by-first (is_worse to_lowercase query) (is_worse-IsOrder to_lowercase query) candidates
        (ap first (sym e ∙ same) ∙ f)

module _ (to_lowercase : Text → Text) (query : MatchQuery) where
  -- The query names the candidate's external id.
  abbrev pub has_id : Candidate → Bool
  has_id candidate = any (λ id. id == candidate.external_id) query.external_ids

  abbrev weight_of : Candidate → ℕ
  weight_of candidate = weight (key_of to_lowercase query candidate)

  weight-has_id : (c : Candidate) → has_id c ≡ ltb 5 (weight_of c)
  unfolding key_of match_class
  weight-has_id c = ground (arith, sequence_order-lt (key_of to_lowercase query c))

  lesser_ids :
      (selected : Candidate) (l : List Candidate)
      → has_id selected ≡ false
      → All (λ x. is_worse to_lowercase query selected x ≡ false) l
      → any has_id l ≡ false
  lesser_ids selected [] n h = refl
  lesser_ids selected (x ∷ l) n h = ground (
    arith,
    lesser_ids selected l n h.1,
    h.0,
    weight-has_id selected,
    weight-has_id x,
    key_lt-weight (key_of to_lowercase query selected) (key_of to_lowercase query x),
  )

  first_best_id :
      (selected : Candidate) (candidates : List Candidate)
      → has_id selected ≡ false
      → IsFirstBest (is_worse to_lowercase query) selected candidates
      → any has_id candidates ≡ false
  first_best_id selected candidates n (before, after, e, above, below) =
      let worse = is_worse to_lowercase query in
      let order = is_worse-IsOrder to_lowercase query in
      subst (λ l. any has_id l ≡ false) (sym e)
        (lesser_ids selected (before ++ selected ∷ after) n (
          All-append (λ x. worse selected x ≡ false) before (selected ∷ after)
            (All-imp (λ x. worse x selected ≡ true) (λ x. worse selected x ≡ false) before
              (λ x h. order.asym x selected h) above)
            (
              ground (
                arith,
                key_lt-weight (key_of to_lowercase query selected)
                    (key_of to_lowercase query selected),
              ),
              below,
            )))

  -- If the query names the external id of some candidate, the selected candidate is one whose
  -- external id it names.
  pub select_candidate-has_id :
      (candidates : List Candidate) {ranked : List Candidate} {selected : Candidate}
      → any has_id candidates ≡ true
      → select_candidate to_lowercase query candidates ≡ ok ranked
      → first ranked ≡ some selected
      → has_id selected ≡ true
  select_candidate-has_id candidates {ranked} {selected} some_id h f =
      elim (Bool-cases (has_id selected)) [
        | inl named ↦ named
        | inr unnamed ↦
            let best = select_candidate-IsFirstBest to_lowercase query candidates h f in
            absurd (cc (some_id, first_best_id selected candidates unnamed best))
      ]
