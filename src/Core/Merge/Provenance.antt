-- ===== src/Core/Merge/Provenance.antt =====
-- crates/fixer-core/src/provenance.rs: source references and field-level provenance.
use fixer.Common.{
  ℕ, ◌≡◌, refl, true, Option, none, some, List, [], ◌∷◌, ◌++◌, ◌==◌, list_eq, nat_eq, if◌then◌else◌,
  arith, list_beq_iff, leb,
}
use fixer.Std.Text.{Text}
use fixer.Std.Decimal.{u64_max}
use fixer.Std.Map.{Map, get, put, get-put}
use fixer.Std.Result.{Result, ok, err}
use fixer.Core.Error.{CoreError, invalid_field_path}
use fixer.Core.Identity.{ProviderId, ExternalId}
use fixer.Core.Locale.{LanguageTag}
use fixer.Core.Merge.Policy.{is_field_path}

pub record SourceRef : Type 0 where
  pub provider : ProviderId
  pub external_id : Option ExternalId
  pub locale : Option LanguageTag
  pub observed_at_unix_ms : ℕ

-- `u64::try_from(millis).unwrap_or(u64::MAX)` of `duration_since(UNIX_EPOCH).unwrap_or_default()`: a
-- time is its milliseconds since the epoch, or none before it.
abbrev pub unix_ms : Option ℕ → ℕ
unix_ms none = 0
unix_ms (some millis) = if leb millis u64_max then millis else u64_max

abbrev pub new_source : ProviderId → Option ExternalId → Option LanguageTag → Option ℕ → SourceRef
new_source provider external_id locale observed_at = record {
  provider = provider;
  external_id = external_id;
  locale = locale;
  observed_at_unix_ms = unix_ms observed_at;
}

-- `now` is what the clock says.
abbrev pub local_source : ProviderId → Option ℕ → SourceRef
local_source provider now = new_source provider none none now

abbrev pub ProvenanceMap : Type 0
ProvenanceMap = Map Text (List SourceRef)

abbrev or_empty : Option (List SourceRef) → List SourceRef
or_empty none = []
or_empty (some sources) = sources

unfoldable pub sources_for : Text → ProvenanceMap → List SourceRef
sources_for field_path provenance = or_empty (get field_path provenance)

-- `entry(field_path).or_default().push(source)`
unfoldable pub add_source : Text → SourceRef → ProvenanceMap → Result CoreError ProvenanceMap
unfolding sources_for
add_source field_path source provenance =
    if is_field_path field_path
    then ok (put field_path (sources_for field_path provenance ++ source ∷ []) provenance)
    else err (invalid_field_path field_path)

-- A source is added to the end of its own path's list and to no other, exactly where the path is
-- valid.
pub sources_for-add_source :
    (field_path : Text) (source : SourceRef) (provenance : ProvenanceMap)
    → is_field_path field_path ≡ true
    → (provenance' : ProvenanceMap) × (add_source field_path source provenance ≡ ok provenance')
      × ((other : Text)
          → sources_for other provenance' ≡ (
              if field_path == other
              then sources_for other provenance ++ source ∷ []
              else sources_for other provenance))
unfolding add_source sources_for
sources_for-add_source field_path source provenance h = (
  put field_path (sources_for field_path provenance ++ source ∷ []) provenance,
  rw h refl,
  λ other. ground (
    arith,
    get-put field_path other (sources_for field_path provenance ++ source ∷ []) provenance,
    list_beq_iff field_path other,
  ),
)
