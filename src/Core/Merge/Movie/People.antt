-- ===== src/Core/Merge/Movie/People.antt =====
-- The first credits of new people and roles, for merge_credits of
-- crates/fixer-core/src/merge/mod.rs.
use mathlib.Core.List.{Sublist}
use mathlib.Core.List.Sublist
use fixer.Common.{
  ◌≡◌, refl, sym, subst, true, false, ◌||◌, List, [], ◌∷◌, list_eq, nat_eq, list_beq_iff, contains,
  IsDistinct, All, All-imp, arith, Bool-cases, inl, inr, if◌then◌else◌,
}
use fixer.Std.Text.{Text}
use fixer.Core.Media.Parts.{Credit}
use fixer.Core.Merge.Provenance.{SourceRef}
use fixer.Core.Merge.Kept.{keys_of}
use fixer.Core.Merge.Movie.{credit_id, credit_identity}

module _ (to_lowercase : Text → Text) where
  abbrev pub identity : Credit → Text
  identity credit = credit_identity to_lowercase credit

  -- The first credits of new people and roles, one by one.
  abbrev pub first_credits :
      List Text → List Text → List (Credit × SourceRef) → List (Credit × SourceRef)
  first_credits ids identities [] = []
  first_credits ids identities (v ∷ values) =
      let later = first_credits ids identities values in
      let now = first_credits (credit_id v.0 ∷ ids) (identity v.0 ∷ identities) values in
      if contains ids (credit_id v.0) || contains identities (identity v.0) then later else v ∷ now

  seen_id :
      (ids identities : List Text) (values : List (Credit × SourceRef)) (k : Text)
      → contains ids k ≡ true
      → contains (keys_of credit_id (first_credits ids identities values)) k ≡ false
  seen_id ids identities [] k h = refl
  seen_id ids identities (v ∷ values) k h = ground (
    arith,
    h,
    seen_id ids identities values k,
    seen_id (credit_id v.0 ∷ ids) (identity v.0 ∷ identities) values k,
    list_beq_iff (credit_id v.0) k,
  )

  seen_identity :
      (ids identities : List Text) (values : List (Credit × SourceRef)) (k : Text)
      → contains identities k ≡ true
      → contains (keys_of identity (first_credits ids identities values)) k ≡ false
  seen_identity ids identities [] k h = refl
  seen_identity ids identities (v ∷ values) k h = ground (
    arith,
    h,
    seen_identity ids identities values k,
    seen_identity (credit_id v.0 ∷ ids) (identity v.0 ∷ identities) values k,
    list_beq_iff (identity v.0) k,
  )

  pub first_credits-IsDistinct :
      (ids identities : List Text) (values : List (Credit × SourceRef))
      → IsDistinct (keys_of credit_id (first_credits ids identities values))
        × IsDistinct (keys_of identity (first_credits ids identities values))
  first_credits-IsDistinct ids identities [] = (tt, tt)
  first_credits-IsDistinct ids identities (v ∷ values) =
      elim (Bool-cases (contains ids (credit_id v.0) || contains identities (identity v.0))) [
        | inl known ↦ rw known (first_credits-IsDistinct ids identities values)
        | inr fresh ↦
            let (by_id, by_identity) =
              first_credits-IsDistinct (credit_id v.0 ∷ ids) (identity v.0 ∷ identities) values in
            rw fresh (
              (
                seen_id (credit_id v.0 ∷ ids) (identity v.0 ∷ identities) values (credit_id v.0)
                    (ground (arith, list_beq_iff (credit_id v.0) (credit_id v.0))),
                by_id,
              ),
              (
                seen_identity (credit_id v.0 ∷ ids) (identity v.0 ∷ identities) values
                    (identity v.0) (ground (arith, list_beq_iff (identity v.0) (identity v.0))),
                by_identity,
              ),
            )
      ]

  -- A credit is known by the seen names, or by a kept credit.
  abbrev pub Covered :
      List Text → List Text → List (Credit × SourceRef) → Credit × SourceRef → Type 0
  Covered ids identities kept v =
      (contains ids (credit_id v.0)
        || contains identities (identity v.0)
        || contains (keys_of credit_id kept) (credit_id v.0)
        || contains (keys_of identity kept) (identity v.0))
      ≡ true

  pub first_known :
      (ids identities : List Text) (v : Credit × SourceRef) (values : List (Credit × SourceRef))
      → (contains ids (credit_id v.0) || contains identities (identity v.0)) ≡ true
      → first_credits ids identities (v ∷ values) ≡ first_credits ids identities values
  first_known ids identities v values known = rw known refl

  pub first_fresh :
      (ids identities : List Text) (v : Credit × SourceRef) (values : List (Credit × SourceRef))
      → (contains ids (credit_id v.0) || contains identities (identity v.0)) ≡ false
      → first_credits ids identities (v ∷ values)
        ≡ v ∷ first_credits (credit_id v.0 ∷ ids) (identity v.0 ∷ identities) values
  first_fresh ids identities v values fresh = rw fresh refl

  pub first_credits-sublist :
      (ids identities : List Text) (values : List (Credit × SourceRef))
      → Sublist (first_credits ids identities values) values
  first_credits-sublist ids identities [] = Sublist.refl []
  first_credits-sublist ids identities (v ∷ values) =
      elim (Bool-cases (contains ids (credit_id v.0) || contains identities (identity v.0))) [
        | inl known ↦ rw known (Sublist.cons v (first_credits-sublist ids identities values))
        | inr fresh ↦ rw fresh (
            Sublist.cons-cons v
              (first_credits-sublist (credit_id v.0 ∷ ids) (identity v.0 ∷ identities) values))
      ]

  pub first_credits-Covered :
      (ids identities : List Text) (values : List (Credit × SourceRef))
      → All (Covered ids identities (first_credits ids identities values)) values
  first_credits-Covered ids identities [] = tt
  first_credits-Covered ids identities (v ∷ values) =
      elim (Bool-cases (contains ids (credit_id v.0) || contains identities (identity v.0))) [
        | inl known ↦
            subst (λ kept. All (Covered ids identities kept) (v ∷ values))
              (sym (first_known ids identities v values known))
              (ground (arith, known), first_credits-Covered ids identities values)
        | inr fresh ↦
            let rest = first_credits (credit_id v.0 ∷ ids) (identity v.0 ∷ identities) values in
            subst (λ kept. All (Covered ids identities kept) (v ∷ values))
              (sym (first_fresh ids identities v values fresh))
              (
                ground (arith, list_beq_iff (credit_id v.0) (credit_id v.0)),
                All-imp (Covered (credit_id v.0 ∷ ids) (identity v.0 ∷ identities) rest)
                    (Covered ids identities (v ∷ rest)) values (λ w h. ground (arith, h))
                    (first_credits-Covered (credit_id v.0 ∷ ids) (identity v.0 ∷ identities)
                      values),
              )
      ]
