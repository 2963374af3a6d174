-- ===== src/Core/Scrape.antt =====
-- crates/fixer-core/src/scrape.rs: exact targets, audit reports and the replacement manifest.
pub mod Manifest
pub mod Targets
use fixer.Common.{
  ℕ, String, ◌≡◌, Bool, true, false, not, ◌&&◌, ◌||◌, Option, none, some, List, [], ◌∷◌, arith, ltb,
  ◌==◌, nat_eq, list_eq, option_eq, PartialEq, all, any, is_empty, if◌then◌else◌, ◌↔◌, ap,
  list_beq_iff,
}
use fixer.Std.Map.{Map, get, put}
use fixer.Std.Text.{
  Text, text, len, is_ascii_digit, is_ascii_hexdigit, is_control, to_ascii_lowercase,
}
use fixer.Std.Result.{Result, ok, err, ◌>>=◌, ◌>>◌, ensure}
use fixer.Core.Error.{
  CoreError, MediaKind, movie, television, invalid_provider_target, invalid_domain_value,
}
use fixer.Core.Identity.{ProviderId, ExternalId, new_provider_id, new_external_id}

pub record ProviderTarget : Type 0 where
  pub media_kind : MediaKind
  pub provider : ProviderId
  pub external_id : ExternalId

unfoldable pub new_target : MediaKind → ProviderId → ExternalId → Result CoreError ProviderTarget
new_target media_kind provider external_id = do
  ensure (external_id.namespace == provider.as_str)
      (invalid_provider_target provider.as_str media_kind external_id.value)
  ok (record { media_kind = media_kind; provider = provider; external_id = external_id })

abbrev supports_tmdb : MediaKind → Bool
supports_tmdb movie = true
supports_tmdb television = true
supports_tmdb _ = false

unfoldable pub tmdb : MediaKind → Text → Result CoreError ProviderTarget
unfolding new_target new_provider_id new_external_id
tmdb media_kind id = do
  let valid_id = not (is_empty id) && all is_ascii_digit id && any (λ byte. not (byte == b'0')) id
  ensure (supports_tmdb media_kind && valid_id)
      (invalid_provider_target (text "tmdb") media_kind id)
  provider ← new_provider_id (text "tmdb")
  external_id ← new_external_id (text "tmdb") id
  new_target media_kind provider external_id

pub data ScrapeSelection : Type 0 where
  automatic : ScrapeSelection
  exact : ProviderTarget → ScrapeSelection

pub data OutputOperationKind : Type 0 where
  create_directory write_bytes copy move symlink hardlink reflink : OutputOperationKind

pub data OperationOutcome : Type 0 where
  dry_run succeeded failed : OperationOutcome

abbrev pub is_succeeded : OperationOutcome → Bool
is_succeeded succeeded = true
is_succeeded _ = false

abbrev pub is_failed : OperationOutcome → Bool
is_failed failed = true
is_failed _ = false

-- `OutputFingerprint(String)`
pub record OutputFingerprint : Type 0 where
  pub as_str : Text

unfoldable pub new_fingerprint : Text → Result CoreError OutputFingerprint
new_fingerprint value = do
  ensure (len value == 64 && all is_ascii_hexdigit value)
      (invalid_domain_value "output.fingerprint" value)
  ok (record { as_str = to_ascii_lowercase value })

abbrev pub fingerprint_beq : OutputFingerprint → OutputFingerprint → Bool
fingerprint_beq a b = a.as_str == b.as_str

pub fingerprint_beq_iff : (a b : OutputFingerprint) → (fingerprint_beq a b ≡ true) ↔ (a ≡ b)
fingerprint_beq_iff a b = (
  λ h. ground (arith, list_beq_iff a.as_str b.as_str),
  λ e. (list_beq_iff a.as_str b.as_str).1 (ap (λ (r : OutputFingerprint). r.as_str) e),
)

instance abbrev pub fingerprint_eq : PartialEq OutputFingerprint
fingerprint_eq = record { same = fingerprint_beq; same_iff = fingerprint_beq_iff }

pub record OperationReport : Type 0 where
  pub operation_index : ℕ
  pub kind : OutputOperationKind
  pub source : Option Text
  pub destination : Text
  pub outcome : OperationOutcome
  pub fingerprint : Option OutputFingerprint

abbrev max_audit_path_bytes : ℕ
max_audit_path_bytes = 4096

abbrev validated_audit_path : Text → String → Result CoreError Text
validated_audit_path value field = do
  ensure (not (is_empty value || ltb max_audit_path_bytes (len value) || any is_control value))
      (invalid_domain_value field value)
  ok value

-- `source.map(..).transpose()`
abbrev validated_source : Option Text → Result CoreError (Option Text)
validated_source none = ok none
validated_source (some value) = do
  value' ← validated_audit_path value "output.source"
  ok (some value')

unfoldable pub new_report :
    ℕ
    → OutputOperationKind
    → Option Text
    → Text
    → OperationOutcome
    → Option OutputFingerprint
    → Result CoreError OperationReport
new_report operation_index kind source destination outcome fingerprint = do
  destination' ← validated_audit_path destination "output.destination"
  source' ← validated_source source
  ok (record {
    operation_index = operation_index;
    kind = kind;
    source = source';
    destination = destination';
    outcome = outcome;
    fingerprint = fingerprint;
  })

abbrev pub Outputs : Type 0
Outputs = Map Text OutputFingerprint

pub record ReplacementManifest : Type 0 where
  pub outputs : Outputs

-- `insert(..).is_some_and(|previous| previous != fingerprint)`
abbrev pub conflicts_with : Option OutputFingerprint → OutputFingerprint → Bool
conflicts_with none fingerprint = false
conflicts_with (some previous) fingerprint = not (previous == fingerprint)

-- One report of the loop: only a succeeded report with a fingerprint counts.
abbrev pub record_output :
    Outputs → Text → Option OutputFingerprint → OperationOutcome → Result CoreError Outputs
record_output outputs destination none outcome = ok outputs
record_output outputs destination (some fingerprint) outcome =
    if is_succeeded outcome
    then (if conflicts_with (get destination outputs) fingerprint
        then err (invalid_domain_value "replacement_manifest.destination" destination)
        else ok (put destination fingerprint outputs))
    else ok outputs

unfoldable pub collect_outputs : Outputs → List OperationReport → Result CoreError Outputs
collect_outputs outputs [] = ok outputs
collect_outputs outputs (report ∷ reports) = do
  outputs' ← record_output outputs report.destination report.fingerprint report.outcome
  collect_outputs outputs' reports

unfoldable pub from_reports : List OperationReport → Result CoreError ReplacementManifest
unfolding collect_outputs
from_reports reports = do outputs ← collect_outputs [] reports; ok (record { outputs = outputs })

unfoldable pub allows : ReplacementManifest → Text → OutputFingerprint → Bool
allows manifest destination current = get destination manifest.outputs == some current
