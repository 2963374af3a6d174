-- ===== src/Core/Merge/First.antt =====
-- The result of merge_unique of crates/fixer-core/src/merge/mod.rs.
use fixer.Common.{
  if◌then◌else◌, Bool-cases, inl, inr, list_beq_iff, ◌≡◌, refl, ap, true, List, [], ◌∷◌, ◌++◌, ◌==◌,
  list_eq, nat_eq, contains, IsDistinct, arith, sym, ◌∙◌, subst,
}
use fixer.Std.Text.{Text}
use fixer.Std.Result.{ok}
use fixer.Core.Merge.Policy.{is_field_path}
use fixer.Core.Merge.Provenance.{SourceRef, ProvenanceMap, sources_for}
use fixer.Core.Merge.Unique.{Sourced, Kept, merge_unique}
use fixer.Core.Merge.Kept.{
  first_of_each, values_of, sources_of, keys_of, all_values, unseen, first_of_each-IsDistinct,
  keep_documents-Adds,
}

abbrev pub keys {κ} : {T : Type κ} → (T → Text) → List T → List Text
keys key [] = []
keys key (value ∷ values) = key value ∷ keys key values

keys-values_of {κ} :
    {T : Type κ} (key : T → Text) (l : List (T × SourceRef))
    → keys key (values_of key l) ≡ keys_of key l
keys-values_of key [] = refl
keys-values_of key (v ∷ l) = ap (◌∷◌ (key v.0)) (keys-values_of key l)

module _ {ℓ κ} {A : Type ℓ} {T : Type κ} (path : Text) (key : T → Text) (select : A → List T) where
  -- For a valid path a merge succeeds; it keeps the first value of each key over the documents in
  -- their order, adds the sources of exactly the kept values, in that order, to the provenance of
  -- the path, and leaves the provenance of every other path as it was.
  pub merge_unique_lem :
      (documents : List (Sourced A)) (provenance : ProvenanceMap)
      → is_field_path path ≡ true
      → (provenance' : ProvenanceMap) × (merge_unique path key select documents provenance
          ≡ ok
              (values_of key (first_of_each key [] (all_values key select documents)), provenance'))
        × ((other : Text)
            → sources_for other provenance' ≡ (
                if path == other
                then sources_for other provenance
                  ++ sources_of key (first_of_each key [] (all_values key select documents))
                else sources_for other provenance))
  unfolding merge_unique
  merge_unique_lem documents provenance valid =
      let start : Kept T = record { seen = []; result = []; provenance = provenance } in
      let (state, kept, adds) = keep_documents-Adds key select path documents start valid in
      (
        state.provenance,
        rw kept (ap (λ (r : List T). ok (r, state.provenance)) adds.result),
        λ other. elim (Bool-cases (path == other)) [
          | inl same ↦
              let e = (list_beq_iff path other).0 same in
              rw same (
                subst
                  (λ z.
                    sources_for z state.provenance
                    ≡ sources_for z provenance
                      ++ sources_of key (first_of_each key [] (all_values key select documents)))
                  e adds.sources)
          | inr differs ↦ rw differs (adds.others other differs)
        ],
      )

  -- The values of a merge have pairwise different keys, and every key that some document supplies
  -- is the key of one of them.
  pub merge_unique-IsDistinct :
      (documents : List (Sourced A)) (provenance : ProvenanceMap) {result : List T}
      {provenance' : ProvenanceMap}
      → is_field_path path ≡ true
      → merge_unique path key select documents provenance ≡ ok (result, provenance')
      → IsDistinct (keys key result)
        × ((k : Text)
            → contains (keys key result) k
              ≡ contains (keys_of key (all_values key select documents)) k)
  merge_unique-IsDistinct documents provenance {result} valid h =
      let all = all_values key select documents in
      let (other, e, sources) = merge_unique_lem documents provenance valid in
      let same : keys_of key (first_of_each key [] all) ≡ keys key result =
        sym (keys-values_of key (first_of_each key [] all)) ∙ ap (keys key) (cc (sym e ∙ h)) in
      (
        subst (λ z. IsDistinct z) same (first_of_each-IsDistinct key [] all),
        λ k. ap (λ (z : List Text). contains z k) (sym same) ∙ ground (arith, unseen key [] all k),
      )
