-- ===== src/Core/Merge/Localized/Unsourced.antt =====
-- The paths of the sources and of the conflicts in merge_localized of
-- crates/fixer-core/src/merge/mod.rs: a conflict's path goes on behind the path of its field.
use fixer.Common.{
  ℕ, suc, ◌+◌, ◌<◌, ◌≤◌, ◌≡◌, sym, ap, ◌∙◌, true, false, Option, none, some, List, [], ◌∷◌, ◌++◌,
  ◌==◌, list_eq, nat_eq, list_beq_iff, All, All-append, arith, Bool-cases, inl, inr, if◌then◌else◌,
  subst,
}
use fixer.Std.Text.{Text}
use fixer.Std.Map.{get}
use fixer.Std.Result.{ok, map_err, >>=-eq-ok}
use fixer.Core.Error.{MediaKind}
use fixer.Core.Identity.{ProviderId}
use fixer.Core.Locale.{LocalizedEntry, LocalizedValue, TagParser, empty_value, value_of}
use fixer.Core.Matching.{normalize}
use fixer.Core.Merge.Policy.{MergePolicy, is_field_path}
use fixer.Core.Merge.Provenance.{
  SourceRef, ProvenanceMap, sources_for, sources_for-add_source, add_source,
}
use fixer.Core.Merge.Unique.{invalid, Sourced, ordered_documents}
use fixer.Core.Merge.Localized.{
  MergeConflict, Merged, merge_localized, merge_languages, merge_entries, merge_entry, entry_step,
  insert_new, insert_entry, compare_entry, language_key, conflict_at,
}

-- The dots of a path.
abbrev pub dots : Text → ℕ
dots [] = 0
dots (c ∷ s) = let rest = dots s in if c == b'.' then suc rest else rest

dots-append : (s t : Text) → dots (s ++ t) ≡ dots s + dots t
dots-append [] t = omega arith
dots-append (c ∷ s) t = ground (arith, dots-append s t)

-- No path with two dots has a source.
abbrev pub IsShallow : ProvenanceMap → Type 0
IsShallow provenance = (key : Text) → 2 ≤ dots key → sources_for key provenance ≡ []

abbrev pub IsDeep : MergeConflict → Type 0
IsDeep conflict = 2 ≤ dots conflict.field_path

pub other_path : (path key : Text) → dots path < 2 → 2 ≤ dots key → (path == key) ≡ false
other_path path key shallow deep = elim (Bool-cases (path == key)) [
  | inl same ↦
      let e = (list_beq_iff path key).0 same in absurd (omega (arith, ap dots e, shallow, deep))
  | inr other ↦ other
]

add_source-IsShallow :
    (path : Text) (source : SourceRef) (provenance : ProvenanceMap) {after : ProvenanceMap}
    → is_field_path path ≡ true
    → dots path < 2
    → map_err invalid (add_source path source provenance) ≡ ok after
    → IsShallow provenance
    → IsShallow after
add_source-IsShallow path source provenance {after} valid shallow h before key deep =
    let (provenance', added, sources) = sources_for-add_source path source provenance valid in
    let same : after ≡ provenance' = ground (arith, added, h) in
    ap (sources_for key) same
    ∙ sources key
    ∙ rw (other_path path key shallow deep) (before key deep)

-- The conflicts and the provenance that go from field to field.
abbrev pub IsUnsourced : List MergeConflict → ProvenanceMap → Type 0
IsUnsourced conflicts provenance = All IsDeep conflicts × IsShallow provenance

module _ (to_lowercase : Text → Text) (parser : TagParser) (path : Text)
    (valid : is_field_path path ≡ true) (one : dots path ≡ 1) where
  abbrev Tidy : Merged → Type 0
  Tidy state = IsUnsourced state.conflicts state.provenance

  deep_conflict : (language : Text) → 2 ≤ dots (path ++ b'.' ∷ language)
  deep_conflict language = omega (arith, dots-append path (b'.' ∷ language), one)

  compare_entry-Tidy :
      (source : SourceRef) (entry : LocalizedEntry Text) (existing : Text) (provider : ProviderId)
      (state : Merged)
      → Tidy state
      → Tidy (compare_entry to_lowercase parser path source entry (existing, provider) state)
  unfolding compare_entry
  compare_entry-Tidy source entry existing provider state (deep, shallow) =
      elim (Bool-cases
        (normalize to_lowercase existing == normalize to_lowercase (value_of entry))) [
          | inl agrees ↦ rw agrees (deep, shallow)
          | inr differs ↦ rw differs (
            All-append IsDeep state.conflicts
                (conflict_at path (language_key entry) provider source.provider ∷ []) deep
                (deep_conflict (language_key entry), tt),
            shallow,
          )
        ]

  insert_new-Tidy :
      (source : SourceRef) (entry : LocalizedEntry Text) (state : Merged) {after : Merged}
      → insert_new to_lowercase parser path source entry state ≡ ok after
      → Tidy state
      → Tidy after
  unfolding insert_new
  insert_new-Tidy source entry state {after} h (deep, shallow) =
      let (result, _, h') =
        >>=-eq-ok (insert_entry to_lowercase parser path entry state.result) _ h in
      let (provenance, added, h'') =
        >>=-eq-ok (map_err invalid (add_source path source state.provenance)) _ h' in
      let same_conflicts : after.conflicts ≡ state.conflicts = ground arith in
      let same : after.provenance ≡ provenance = ground arith in
      (
        subst (All IsDeep) (sym same_conflicts) deep,
        subst IsShallow (sym same) (
            add_source-IsShallow path source state.provenance valid (omega (arith, one)) added
              shallow),
      )

  entry_step-Tidy :
      (source : SourceRef) (entry : LocalizedEntry Text) (state : Merged)
      (identity : Option (Text × ProviderId)) {after : Merged}
      → entry_step to_lowercase parser path source entry state identity ≡ ok after
      → Tidy state
      → Tidy after
  entry_step-Tidy source entry state none h before = insert_new-Tidy source entry state h before
  entry_step-Tidy source entry state (some (existing, provider)) {after} h before =
      let same : after
          ≡ compare_entry to_lowercase parser path source entry (existing, provider) state =
        cc h in
      subst Tidy (sym same) (compare_entry-Tidy source entry existing provider state before)

  merge_entries-Tidy :
      (source : SourceRef) (entries : List (LocalizedEntry Text)) (state : Merged) {after : Merged}
      → merge_entries to_lowercase parser path source entries state ≡ ok after
      → Tidy state
      → Tidy after
  unfolding merge_entries merge_entry
  merge_entries-Tidy source [] state {after} h before =
      let same : state ≡ after = cc h in subst Tidy same before
  merge_entries-Tidy source (entry ∷ entries) state h before =
      let (state', first, rest) =
        >>=-eq-ok (merge_entry to_lowercase parser path source entry state) _ h in
      merge_entries-Tidy source entries state' rest (
        entry_step-Tidy source entry state (get (language_key entry) state.identities) first before)

  merge_languages-Tidy {ℓ} :
      {A : Type ℓ} (select : A → LocalizedValue Text) (documents : List (Sourced A))
      (state : Merged) {after : Merged}
      → merge_languages to_lowercase parser path select documents state ≡ ok after
      → Tidy state
      → Tidy after
  unfolding merge_languages
  merge_languages-Tidy select [] state {after} h before =
      let same : state ≡ after = cc h in subst Tidy same before
  merge_languages-Tidy select (document ∷ documents) state h before =
      let (state', first, rest) =
        >>=-eq-ok
          (merge_entries to_lowercase parser path document.source (select document.value).entries
            state)
          _ h in
      merge_languages-Tidy select documents state' rest
        (merge_entries-Tidy document.source (select document.value).entries state first before)

  pub merge_localized-Tidy {ℓ} :
      {A : Type ℓ} (policy : MergePolicy) (kind : MediaKind) (select : A → LocalizedValue Text)
      (documents : List (Sourced A)) (conflicts : List MergeConflict) (provenance : ProvenanceMap)
      {after : Merged}
      → merge_localized to_lowercase parser path policy kind select documents conflicts provenance
        ≡ ok after
      → IsUnsourced conflicts provenance
      → Tidy after
  unfolding merge_localized
  merge_localized-Tidy policy kind select documents conflicts provenance h before =
      let (ordered, _, h') = >>=-eq-ok (ordered_documents policy kind path documents) _ h in
      merge_languages-Tidy select ordered
        (record {
          identities = [];
          result = empty_value;
          conflicts = conflicts;
          provenance = provenance;
        })
        h' before
