-- ===== src/Core/Merge/Localized/Fields.antt =====
-- A whole localized field in merge_localized of crates/fixer-core/src/merge/mod.rs.
use fixer.Common.{◌≡◌, refl, true, List, [], ◌∷◌, list_eq, nat_eq, All}
use fixer.Std.Text.{Text}
use fixer.Std.Result.{ok}
use fixer.Core.Error.{MediaKind}
use fixer.Core.Locale.{LocalizedEntry, LocalizedValue, TagParser, empty_value}
use fixer.Core.Merge.Policy.{is_field_path, MergePolicy}
use fixer.Core.Merge.Provenance.{ProvenanceMap}
use fixer.Core.Merge.Unique.{Sourced, Kept, keep_documents, merge_unique, ordered_documents}
use fixer.Core.Merge.Localized.{
  MergeConflict, language_key, Merged, merge_languages, merge_localized,
}
use fixer.Core.Merge.Localized.Languages.{IsParsed, Matches, merge_entries-Matches}

module _ {ℓ} {A : Type ℓ} (to_lowercase : Text → Text) (parser : TagParser) (path : Text)
    (select : A → LocalizedValue Text) where
  abbrev pub entries_of : A → List (LocalizedEntry Text)
  entries_of value = (select value).entries

  -- All tags of the documents are what the parser gives for their text.
  abbrev pub AreParsed : List (Sourced A) → Type 0
  AreParsed [] = Unit
  AreParsed (document ∷ documents) =
      All (IsParsed parser) (select document.value).entries × AreParsed documents

  merge_languages-Matches :
      (documents : List (Sourced A)) (merged : Merged) (kept : Kept (LocalizedEntry Text))
      → is_field_path path ≡ true
      → AreParsed documents
      → Matches merged kept
      → (merged' : Merged) × (kept' : Kept (LocalizedEntry Text)) × (merge_languages to_lowercase
            parser path select documents merged
          ≡ ok merged')
        × (keep_documents path language_key entries_of documents kept ≡ ok kept')
        × Matches merged' kept'
  unfolding merge_languages keep_documents
  merge_languages-Matches [] merged kept valid parsed m = (merged, kept, refl, refl, m)
  merge_languages-Matches (document ∷ documents) merged kept valid parsed m =
      let (merged', kept', a, b, m') =
        merge_entries-Matches to_lowercase parser path document.source
          (select document.value).entries merged kept valid parsed.0 m in
      let (merged'', kept'', a', b', m'') =
        merge_languages-Matches documents merged' kept' valid parsed.1 m' in
      (merged'', kept'', rw a a', rw b b', m'')

  -- Over documents in the order of precedence, the merge of a localized field succeeds, and its
  -- entries and provenance are those of keeping the first entry of each language.
  pub merge_localized-merge_unique :
      (policy : MergePolicy) (media_kind : MediaKind) (documents ordered : List (Sourced A))
      (conflicts : List MergeConflict) (provenance : ProvenanceMap)
      → is_field_path path ≡ true
      → ordered_documents policy media_kind path documents ≡ ok ordered
      → AreParsed ordered
      → (merged : Merged) × (merge_localized to_lowercase parser path policy media_kind select
            documents conflicts provenance
          ≡ ok merged)
        × (merge_unique path language_key entries_of ordered provenance
            ≡ ok (merged.result.entries, merged.provenance))
  unfolding merge_localized merge_unique
  merge_localized-merge_unique policy media_kind documents ordered conflicts provenance valid sorted
        parsed =
      let start : Merged = record {
        identities = [];
        result = empty_value;
        conflicts = conflicts;
        provenance = provenance;
      } in
      let kept : Kept (LocalizedEntry Text) = record {
        seen = [];
        result = [];
        provenance = provenance;
      } in
      let begins : Matches start kept = record {
        seen = λ k. refl;
        result = refl;
        provenance = refl;
      } in
      let (merged', kept', a, b, m) =
        merge_languages-Matches ordered start kept valid parsed begins in
      (merged', rw sorted a, rw (b, m.result, m.provenance) refl)
