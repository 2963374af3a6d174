-- ===== src/Core/Merge/Unique.antt =====
-- The merge helpers of crates/fixer-core/src/merge/mod.rs over the documents in their order of
-- precedence.
use fixer.Common.{ℕ, List, [], ◌∷◌, ◌++◌, list_eq, nat_eq, if◌then◌else◌, contains}
use fixer.Std.Text.{Text}
use fixer.Std.Sort.{sort_by_key}
use fixer.Std.Result.{Result, ok, ◌>>=◌, map_err}
use fixer.Core.Error.{CoreError, MediaKind}
use fixer.Core.Merge.Policy.{FieldPath, new_field_path, MergePolicy, provider_rank}
use fixer.Core.Merge.Provenance.{SourceRef, ProvenanceMap, add_source}

-- The errors of the movie merger; `Invalid` keeps the core error instead of its message.
pub data MergeError : Type 0 where
  no_documents missing_source : MergeError
  unsupported_document : MediaKind → MergeError
  invalid : CoreError → MergeError

-- `MovieDocument`, `SeriesDocument` and `AnimeDocument` over their value.
pub record Sourced {ℓ} (A : Type ℓ) : Type ℓ where
  pub value : A
  pub source : SourceRef

abbrev pub source_rank {ℓ} : {A : Type ℓ} → MergePolicy → MediaKind → FieldPath → Sourced A → ℕ
source_rank policy media_kind field_path document =
    provider_rank policy media_kind field_path document.source.provider

unfoldable pub ordered_documents {ℓ} :
    {A : Type ℓ}
    → MergePolicy
    → MediaKind
    → Text
    → List (Sourced A)
    → Result MergeError (List (Sourced A))
ordered_documents policy media_kind path documents = do
  field_path ← map_err invalid (new_field_path path)
  ok (sort_by_key (source_rank policy media_kind field_path) documents)

-- The state of the loop: the keys seen, the values kept and the provenance.
pub record Kept {ℓ} (T : Type ℓ) : Type ℓ where
  pub seen : List Text
  pub result : List T
  pub provenance : ProvenanceMap

module _ {κ} {T : Type κ} (path : Text) (key : T → Text) where
  -- One value: kept with its source if its key is new.
  unfoldable pub keep : SourceRef → T → Kept T → Result MergeError (Kept T)
  keep source value state =
      if contains state.seen (key value)
      then ok state
      else (map_err invalid (add_source path source state.provenance) >>= λ provenance. ok (record {
        seen = key value ∷ state.seen;
        result = state.result ++ value ∷ [];
        provenance = provenance;
      }))

  unfoldable pub keep_values : SourceRef → List T → Kept T → Result MergeError (Kept T)
  unfolding keep
  keep_values source [] state = ok state
  keep_values source (value ∷ values) state = do
    state' ← keep source value state
    keep_values source values state'

module _ {ℓ κ} {A : Type ℓ} {T : Type κ} (path : Text) (key : T → Text) where
  unfoldable pub keep_documents :
      (A → List T) → List (Sourced A) → Kept T → Result MergeError (Kept T)
  unfolding keep_values
  keep_documents select [] state = ok state
  keep_documents select (document ∷ documents) state = do
    state' ← keep_values path key document.source (select document.value) state
    keep_documents select documents state'

  unfoldable pub merge_unique :
      (A → List T) → List (Sourced A) → ProvenanceMap → Result MergeError (List T × ProvenanceMap)
  merge_unique select documents provenance = do
    state ←
        keep_documents select documents (record { seen = []; result = []; provenance = provenance })
    ok (state.result, state.provenance)
