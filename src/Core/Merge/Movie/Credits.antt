-- ===== src/Core/Merge/Movie/Credits.antt =====
-- The credits that a merge of crates/fixer-core/src/merge/mod.rs keeps.
use fixer.Common.{
  ◌≡◌, refl, sym, ap, ◌∙◌, subst, true, false, List, [], ◌∷◌, ◌++◌, ◌==◌, list_eq, nat_eq,
  IsDistinct, All, Bool-cases, inl, inr,
}
use mathlib.Core.List.{Sublist}
use mathlib.Core.List.{append_assoc, append-nil}
use fixer.Std.Text.{Text, text, split, push_first}
use fixer.Std.Result.{Result, ok, err, ◌>>=◌}
use fixer.Core.Media.Parts.{Credit}
use fixer.Core.Merge.Policy.{is_field_path}
use fixer.Core.Merge.Provenance.{SourceRef, ProvenanceMap, sources_for, sources_for-add_source}
use fixer.Core.Merge.Unique.{MergeError, Sourced}
use fixer.Core.Merge.Kept.{values_of, sources_of, keys_of, all_values, paired}
use fixer.Core.Merge.Movie.{
  CreditsKept, credit_id, is_known, keep_credit, keep_credits, keep_all_credits, merge_credits,
}
use fixer.Core.Merge.Movie.People.{first_credits-sublist}
use fixer.Core.Merge.Movie.People.{
  identity, first_credits, first_known, first_fresh, Covered, first_credits-IsDistinct,
  first_credits-Covered,
}

pub credits_path : is_field_path (text "movie.credits") ≡ true
unfolding split push_first
credits_path = refl

bind_same :
    {E A B : Type 0} (r : Result E A) {f g : A → Result E B}
    → ((a : A) → f a ≡ g a)
    → (r >>= f) ≡ (r >>= g)
bind_same (ok a) h = h a
bind_same (err e) h = refl

bind_assoc :
    {E A B C : Type 0} (r : Result E A) (f : A → Result E B) (g : B → Result E C)
    → (r >>= λ a. f a >>= g) ≡ ((r >>= f) >>= g)
bind_assoc (ok a) f g = refl
bind_assoc (err e) f g = refl

module _ (to_lowercase : Text → Text) where
  -- The loop over the credits of all documents, each with its source.
  abbrev keep_pairs : List (Credit × SourceRef) → CreditsKept → Result MergeError CreditsKept
  keep_pairs [] state = ok state
  keep_pairs (v ∷ values) state = keep_credit to_lowercase v.1 v.0 state >>= keep_pairs values

  then_pairs :
      (source : SourceRef) (credits : List Credit) (more : List (Credit × SourceRef))
      (state : CreditsKept)
      → keep_pairs (paired source credits ++ more) state
        ≡ (keep_credits to_lowercase source credits state >>= keep_pairs more)
  unfolding keep_credits
  then_pairs source [] more state = refl
  then_pairs source (credit ∷ credits) more state =
      bind_same (keep_credit to_lowercase source credit state) (then_pairs source credits more)
      ∙ bind_assoc (keep_credit to_lowercase source credit state)
          (keep_credits to_lowercase source credits) (keep_pairs more)

  all_pairs {ℓ} :
      {A : Type ℓ} (credits : A → List Credit) (documents : List (Sourced A)) (state : CreditsKept)
      → keep_all_credits to_lowercase credits documents state
        ≡ keep_pairs (all_values credit_id credits documents) state
  unfolding keep_all_credits
  all_pairs credits [] state = refl
  all_pairs credits (document ∷ documents) state =
      bind_same (keep_credits to_lowercase document.source (credits document.value) state)
        (all_pairs credits documents)
      ∙ sym (
          then_pairs document.source (credits document.value)
            (all_values credit_id credits documents) state)

  -- What a loop adds to the state before.
  record Keeps (added : List (Credit × SourceRef)) (before after : CreditsKept) : Type 0 where
    result : after.result ≡ before.result ++ values_of credit_id added
    sources :
        sources_for (text "movie.credits") after.provenance
        ≡ sources_for (text "movie.credits") before.provenance ++ sources_of credit_id added
    others :
        (other : Text)
        → (text "movie.credits" == other) ≡ false
        → sources_for other after.provenance ≡ sources_for other before.provenance

  pairs_keep :
      (values : List (Credit × SourceRef)) (state : CreditsKept)
      → (after : CreditsKept) × (keep_pairs values state ≡ ok after)
        × Keeps (first_credits to_lowercase state.ids state.identities values) state after
  unfolding keep_credit
  pairs_keep [] state = (
    state,
    refl,
    record {
      result = sym (append-nil state.result);
      sources = sym (append-nil _);
      others = λ other h. refl;
    },
  )
  pairs_keep (v ∷ values) state = elim (Bool-cases (is_known to_lowercase v.0 state)) [
    | inl known ↦
        let (after, kept, keeps) = pairs_keep values state in
        (
          after,
          rw known kept,
          subst (λ added. Keeps added state after)
              (sym (first_known to_lowercase state.ids state.identities v values known)) keeps,
        )
    | inr fresh ↦
        let (provenance, added, sources) =
          sources_for-add_source (text "movie.credits") v.1 state.provenance credits_path in
        let state' : CreditsKept = record {
          ids = credit_id v.0 ∷ state.ids;
          identities = identity to_lowercase v.0 ∷ state.identities;
          result = state.result ++ v.0 ∷ [];
          provenance = provenance;
        } in
        let (after, kept, keeps) = pairs_keep values state' in
        let rest = first_credits to_lowercase state'.ids state'.identities values in
        (
          after,
          rw (fresh, added) kept,
          subst (λ added. Keeps added state after)
              (sym (first_fresh to_lowercase state.ids state.identities v values fresh))
              (record {
                result =
                    keeps.result ∙ append_assoc state.result (v.0 ∷ []) (values_of credit_id rest);
                sources =
                    keeps.sources
                    ∙ ap (λ z. z ++ sources_of credit_id rest) (sources (text "movie.credits"))
                    ∙ append_assoc (sources_for (text "movie.credits") state.provenance) (v.1 ∷ [])
                        (sources_of credit_id rest);
                others = λ other h. keeps.others other h ∙ rw (sources other, h) refl;
              }),
        )
  ]

  -- Credits are merged to the first credits of new people and roles, with their sources.
  pub merge_credits_lem :
      {A : Type 0} (credits : A → List Credit) (documents : List (Sourced A))
      (provenance : ProvenanceMap)
      → (after : ProvenanceMap) × (merge_credits to_lowercase credits documents provenance
          ≡ ok (
            values_of credit_id
                (first_credits to_lowercase [] [] (all_values credit_id credits documents)),
            after,
          ))
        × (sources_for (text "movie.credits") after
            ≡ sources_for (text "movie.credits") provenance
              ++ sources_of credit_id
                  (first_credits to_lowercase [] [] (all_values credit_id credits documents)))
        × ((other : Text)
            → (text "movie.credits" == other) ≡ false
            → sources_for other after ≡ sources_for other provenance)
  unfolding merge_credits
  merge_credits_lem credits documents provenance =
      let state : CreditsKept = record {
        ids = [];
        identities = [];
        result = [];
        provenance = provenance;
      } in
      let (after, kept, keeps) = pairs_keep (all_values credit_id credits documents) state in
      (
        after.provenance,
        rw (all_pairs credits documents state, kept)
            (ap (λ z. ok (z, after.provenance)) keeps.result),
        keeps.sources,
        keeps.others,
      )

  -- Credits are merged without an error: what is kept are some of the documents' credits in their
  -- order, no two of one person and no two of one name in one role; each credit of a document has the
  -- person or the name and role of a kept one; and each kept credit adds its source, in order, to
  -- those of the credits, and to no others.
  pub merge_credits-kept :
      {A : Type 0} (credits : A → List Credit) (documents : List (Sourced A))
      (provenance : ProvenanceMap)
      → (kept : List (Credit × SourceRef)) × (after : ProvenanceMap) × (merge_credits to_lowercase
            credits documents provenance
          ≡ ok (values_of credit_id kept, after))
        × Sublist kept (all_values credit_id credits documents)
        × IsDistinct (keys_of credit_id kept)
        × IsDistinct (keys_of (identity to_lowercase) kept)
        × All (Covered to_lowercase [] [] kept) (all_values credit_id credits documents)
        × (sources_for (text "movie.credits") after
            ≡ sources_for (text "movie.credits") provenance ++ sources_of credit_id kept)
        × ((other : Text)
            → (text "movie.credits" == other) ≡ false
            → sources_for other after ≡ sources_for other provenance)
  merge_credits-kept credits documents provenance =
      let values = all_values credit_id credits documents in
      let (after, merged, sources, others) = merge_credits_lem credits documents provenance in
      let (by_id, by_identity) = first_credits-IsDistinct to_lowercase [] [] values in
      (
        first_credits to_lowercase [] [] values,
        after,
        merged,
        first_credits-sublist to_lowercase [] [] values,
        by_id,
        by_identity,
        first_credits-Covered to_lowercase [] [] values,
        sources,
        others,
      )
