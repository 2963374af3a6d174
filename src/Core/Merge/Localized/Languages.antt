-- ===== src/Core/Merge/Localized/Languages.antt =====
-- What merge_localized of crates/fixer-core/src/merge/mod.rs keeps: the same as merge_unique by
-- language.
use fixer.Common.{
  ◌≡◌, refl, ap, Bool, true, false, none, some, List, [], ◌∷◌, ◌++◌, ◌==◌, list_eq, nat_eq,
  contains, All, arith, Bool-cases, Option-cases, inl, inr, ◌∙◌, list_beq_iff,
}
use fixer.Std.Map.{Map, get, put, get-put}
use fixer.Std.Text.{Text}
use fixer.Std.Result.{ok}
use fixer.Core.Identity.{ProviderId}
use fixer.Core.Locale.{
  LocalizedEntry, tagged, untagged, LocalizedValue, TagParser, parse_tag, value_of, insert_tagged,
  insert_untagged,
}
use fixer.Core.Matching.{normalize}
use fixer.Core.Merge.Policy.{is_field_path}
use fixer.Core.Merge.Provenance.{SourceRef, ProvenanceMap, add_source, sources_for-add_source}
use fixer.Core.Merge.Unique.{Kept, keep, keep_values}
use fixer.Core.Merge.Localized.{
  language_key, Merged, insert_entry, compare_entry, insert_new, merge_entry, merge_entries,
}

-- The tag is what the parser gives for its own text.
abbrev pub IsParsed : TagParser → LocalizedEntry Text → Type 0
IsParsed parser (tagged language value) = parse_tag parser language.original ≡ ok language
IsParsed parser (untagged value) = Unit

-- The language has a value.
abbrev pub known : Text → Map Text (Text × ProviderId) → Bool
known k identities = elim (get k identities) [ none ↦ false | some identity ↦ true ]

-- The loop over languages and the loop over unique values are at the same point.
pub record Matches (merged : Merged) (kept : Kept (LocalizedEntry Text)) : Type 0 where
  pub seen : (k : Text) → contains kept.seen k ≡ known k merged.identities
  pub result : kept.result ≡ merged.result.entries
  pub provenance : kept.provenance ≡ merged.provenance

module _ (to_lowercase : Text → Text) (parser : TagParser) (path : Text) where
  insert_entry_lem :
      (entry : LocalizedEntry Text) (result : LocalizedValue Text)
      → IsParsed parser entry
      → insert_entry to_lowercase parser path entry result
        ≡ ok (record { entries = result.entries ++ entry ∷ [] })
  unfolding insert_entry insert_tagged insert_untagged
  insert_entry_lem (tagged language value) result h = rw h refl
  insert_entry_lem (untagged value) result h = refl

  compare_entry-Matches :
      (source : SourceRef) (entry : LocalizedEntry Text) (identity : Text × ProviderId)
      (merged : Merged) (kept : Kept (LocalizedEntry Text))
      → Matches merged kept
      → Matches (compare_entry to_lowercase parser path source entry identity merged) kept
  unfolding compare_entry
  compare_entry-Matches source entry identity merged kept m =
      elim (Bool-cases
        (normalize to_lowercase identity.0 == normalize to_lowercase (value_of entry))) [
          | inl same ↦ rw same m
          | inr differs ↦
              rw differs (record { seen = m.seen; result = m.result; provenance = m.provenance })
        ]

  put-Matches :
      (source : SourceRef) (entry : LocalizedEntry Text) (merged : Merged)
      (kept : Kept (LocalizedEntry Text)) (provenance : ProvenanceMap)
      → Matches merged kept
      → Matches
          (record {
            identities =
                put (language_key entry) (value_of entry, source.provider) merged.identities;
            result = record { entries = merged.result.entries ++ entry ∷ [] };
            conflicts = merged.conflicts;
            provenance = provenance;
          })
          (record {
            seen = language_key entry ∷ kept.seen;
            result = kept.result ++ entry ∷ [];
            provenance = provenance;
          })
  put-Matches source entry merged kept provenance m = record {
    seen = λ k. ground (
      arith,
      m.seen k,
      get-put (language_key entry) k (value_of entry, source.provider) merged.identities,
      list_beq_iff (language_key entry) k,
    );
    result = ap (λ (l : List (LocalizedEntry Text)). l ++ entry ∷ []) m.result;
    provenance = refl;
  }

  merge_entry-Matches :
      (source : SourceRef) (entry : LocalizedEntry Text) (merged : Merged)
      (kept : Kept (LocalizedEntry Text))
      → is_field_path path ≡ true
      → IsParsed parser entry
      → Matches merged kept
      → (merged' : Merged) × (kept' : Kept (LocalizedEntry Text)) × (merge_entry to_lowercase parser
            path source entry merged
          ≡ ok merged')
        × (keep path language_key source entry kept ≡ ok kept')
        × Matches merged' kept'
  unfolding merge_entry keep insert_new
  merge_entry-Matches source entry merged kept valid parsed m =
      elim (Option-cases (get (language_key entry) merged.identities)) [
        | inl absent ↦
            let (provenance, added, sources) =
              sources_for-add_source path source merged.provenance valid in
            let added' = ap (add_source path source) m.provenance ∙ added in
            let fresh : contains kept.seen (language_key entry) ≡ false =
              m.seen (language_key entry) ∙ rw (known, absent) refl in
            (
              record {
                identities =
                    put (language_key entry) (value_of entry, source.provider) merged.identities;
                result = record { entries = merged.result.entries ++ entry ∷ [] };
                conflicts = merged.conflicts;
                provenance = provenance;
              },
              record {
                seen = language_key entry ∷ kept.seen;
                result = kept.result ++ entry ∷ [];
                provenance = provenance;
              },
              rw (absent, insert_entry_lem entry merged.result parsed, added) refl,
              rw (fresh, added') refl,
              put-Matches source entry merged kept provenance m,
            )
        | inr present ↦
            let again : contains kept.seen (language_key entry) ≡ true =
              m.seen (language_key entry) ∙ rw (known, present.1) refl in
            (
              compare_entry to_lowercase parser path source entry present.0 merged,
              kept,
              rw present.1 refl,
              rw again refl,
              compare_entry-Matches source entry present.0 merged kept m,
            )
      ]

  pub merge_entries-Matches :
      (source : SourceRef) (entries : List (LocalizedEntry Text)) (merged : Merged)
      (kept : Kept (LocalizedEntry Text))
      → is_field_path path ≡ true
      → All (IsParsed parser) entries
      → Matches merged kept
      → (merged' : Merged) × (kept' : Kept (LocalizedEntry Text)) × (merge_entries to_lowercase
            parser path source entries merged
          ≡ ok merged')
        × (keep_values path language_key source entries kept ≡ ok kept')
        × Matches merged' kept'
  unfolding merge_entries keep_values
  merge_entries-Matches source [] merged kept valid parsed m = (merged, kept, refl, refl, m)
  merge_entries-Matches source (entry ∷ entries) merged kept valid parsed m =
      let (merged', kept', a, b, m') =
        merge_entry-Matches source entry merged kept valid parsed.0 m in
      let (merged'', kept'', a', b', m'') =
        merge_entries-Matches source entries merged' kept' valid parsed.1 m' in
      (merged'', kept'', rw a a', rw b b', m'')
