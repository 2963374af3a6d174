-- ===== src/Core/Merge/Localized.antt =====
-- crates/fixer-core/src/merge/mod.rs: merge_localized, over the entries of a localized field.
pub mod Languages
pub mod Fields
pub mod Unsourced
use fixer.Common.{
  ℕ, String, ◌≡◌, refl, Bool, true, false, Option, none, some, List, [], ◌∷◌, ◌++◌, ◌==◌, list_eq,
  nat_eq, if◌then◌else◌, contains,
}
use fixer.Std.Map.{Map, get, put}
use fixer.Std.Text.{Text, text}
use fixer.Std.Result.{Result, ok, err, ◌>>=◌, map_err}
use fixer.Core.Error.{CoreError, MediaKind}
use fixer.Core.Identity.{ProviderId}
use fixer.Core.Locale.{
  LanguageTag, LocalizedEntry, tagged, untagged, LocalizedValue, TagParser, value_of, insert_tagged,
  insert_untagged, empty_value,
}
use fixer.Core.Matching.{normalize}
use fixer.Core.Merge.Policy.{MergePolicy}
use fixer.Core.Merge.Provenance.{SourceRef, ProvenanceMap, add_source}
use fixer.Core.Merge.Unique.{MergeError, invalid, Sourced, ordered_documents}

pub record MergeConflict : Type 0 where
  pub field_path : Text
  pub providers : List ProviderId
  pub message : Text

-- The key of an entry's language.
abbrev pub language_key : LocalizedEntry Text → Text
language_key (tagged language value) = language.normalized
language_key (untagged value) = text "<untagged>"

-- The state of the loop: `identities` has the value kept for each language, with its provider.
pub record Merged : Type 0 where
  pub identities : Map Text (Text × ProviderId)
  pub result : LocalizedValue Text
  pub conflicts : List MergeConflict
  pub provenance : ProvenanceMap

abbrev pub conflict_at : Text → Text → ProviderId → ProviderId → MergeConflict
conflict_at path language provider other = record {
  field_path = path ++ b'.' ∷ language;
  providers = provider ∷ other ∷ [];
  message = text "providers supplied different localized values";
}

module _ (to_lowercase : Text → Text) (parser : TagParser) (path : Text) where
  -- `result.insert(language.as_str(), value)` or `result.insert_untagged(value)`
  unfoldable pub insert_entry :
      LocalizedEntry Text → LocalizedValue Text → Result MergeError (LocalizedValue Text)
  insert_entry (tagged language value) result =
      map_err invalid (insert_tagged parser language.original value result)
  insert_entry (untagged value) result = ok (insert_untagged value result)

  -- An entry whose language has a value already.
  unfoldable pub compare_entry :
      SourceRef → LocalizedEntry Text → Text × ProviderId → Merged → Merged
  compare_entry source entry (existing, provider) state =
      if normalize to_lowercase existing == normalize to_lowercase (value_of entry)
      then state
      else record state {
        conflicts =
            state.conflicts ++ conflict_at path (language_key entry) provider source.provider ∷ [];
      }

  unfoldable pub insert_new : SourceRef → LocalizedEntry Text → Merged → Result MergeError Merged
  insert_new source entry state = do
    result ← insert_entry entry state.result
    provenance ← map_err invalid (add_source path source state.provenance)
    ok (record {
      identities = put (language_key entry) (value_of entry, source.provider) state.identities;
      result = result;
      conflicts = state.conflicts;
      provenance = provenance;
    })

  abbrev pub entry_step :
      SourceRef
      → LocalizedEntry Text
      → Merged
      → Option (Text × ProviderId)
      → Result MergeError Merged
  entry_step source entry state none = insert_new source entry state
  entry_step source entry state (some identity) = ok (compare_entry source entry identity state)

  unfoldable pub merge_entry : SourceRef → LocalizedEntry Text → Merged → Result MergeError Merged
  merge_entry source entry state =
      entry_step source entry state (get (language_key entry) state.identities)

  unfoldable pub merge_entries :
      SourceRef → List (LocalizedEntry Text) → Merged → Result MergeError Merged
  merge_entries source [] state = ok state
  merge_entries source (entry ∷ entries) state = do
    state' ← merge_entry source entry state
    merge_entries source entries state'

module _ {ℓ} {A : Type ℓ} (to_lowercase : Text → Text) (parser : TagParser) (path : Text) where
  unfoldable pub merge_languages :
      (A → LocalizedValue Text) → List (Sourced A) → Merged → Result MergeError Merged
  merge_languages select [] state = ok state
  merge_languages select (document ∷ documents) state = do
    state' ←
        merge_entries to_lowercase parser path document.source (select document.value).entries state
    merge_languages select documents state'

  -- The conflicts and the provenance are passed on from field to field.
  unfoldable pub merge_localized :
      MergePolicy
      → MediaKind
      → (A → LocalizedValue Text)
      → List (Sourced A)
      → List MergeConflict
      → ProvenanceMap
      → Result MergeError Merged
  merge_localized policy media_kind select documents conflicts provenance = do
    ordered ← ordered_documents policy media_kind path documents
    merge_languages select ordered (record {
      identities = [];
      result = empty_value;
      conflicts = conflicts;
      provenance = provenance;
    })
