-- ===== src/Core/Scrape/Manifest.antt =====
-- What the replacement manifest of crates/fixer-core/src/scrape.rs allows.
use fixer.Common.{
  ◌≡◌, refl, Bool, true, ◌&&◌, ◌||◌, Option, none, some, List, [], ◌∷◌, arith, ◌==◌, list_eq,
  nat_eq, option_eq, any, list_beq_iff, list_beq_refl, Bool-cases, inl, inr, Option-cases,
}
use fixer.Std.Map.{get, put, get-put}
use fixer.Std.Text.{Text}
use fixer.Std.Result.{ok, >>=-eq-ok}
use fixer.Core.Scrape.{
  OperationReport, OperationOutcome, OutputFingerprint, fingerprint_eq, fingerprint_beq_iff,
  is_succeeded, Outputs, record_output, collect_outputs, ReplacementManifest, from_reports, allows,
}

-- A succeeded report recorded exactly this fingerprint for this destination.
abbrev pub recorded : Text → OutputFingerprint → List OperationReport → Bool
recorded destination current = any λ report.
    is_succeeded report.outcome
    && (report.destination == destination && report.fingerprint == some current)

abbrev holds : Outputs → Text → OutputFingerprint → Bool
holds outputs destination current = get destination outputs == some current

-- One report adds exactly what it records.
record_output_lem :
    (outputs : Outputs) (d k : Text) (c : OutputFingerprint) (f : Option OutputFingerprint)
    (o : OperationOutcome) {outputs' : Outputs}
    → record_output outputs k f o ≡ ok outputs'
    → holds outputs' d c ≡ (holds outputs d c || (is_succeeded o && (k == d && f == some c)))
record_output_lem outputs d k c none o h = ground arith
record_output_lem outputs d k c (some f) o h = elim (Option-cases (get k outputs)) [
  | inl absent ↦ ground (arith, get-put k d f outputs, list_beq_iff k d)
  | inr present ↦
      ground (arith, get-put k d f outputs, list_beq_iff k d, fingerprint_beq_iff present.0 f)
]

collect_outputs_lem :
    (outputs : Outputs) (d : Text) (c : OutputFingerprint) (reports : List OperationReport)
    {outputs' : Outputs}
    → collect_outputs outputs reports ≡ ok outputs'
    → holds outputs' d c ≡ (holds outputs d c || recorded d c reports)
unfolding collect_outputs
collect_outputs_lem outputs d c [] h = ground arith
collect_outputs_lem outputs d c (r ∷ reports) {outputs'} h =
    let (mid, first, rest) =
      >>=-eq-ok (record_output outputs r.destination r.fingerprint r.outcome)
        (λ o. collect_outputs o reports) h in
    ground (
      arith,
      record_output_lem outputs d r.destination c r.fingerprint r.outcome first,
      collect_outputs_lem mid d c reports rest,
    )

-- A manifest that is built from reports allows a replacement exactly where a succeeded report
-- recorded that fingerprint for that destination.
pub allows-from_reports :
    (reports : List OperationReport) (destination : Text) (current : OutputFingerprint)
    {manifest : ReplacementManifest}
    → from_reports reports ≡ ok manifest
    → allows manifest destination current ≡ recorded destination current reports
unfolding from_reports allows
allows-from_reports reports d c {manifest} h =
    let (outputs, collected, built) =
      >>=-eq-ok (collect_outputs [] reports) (λ (o : Outputs). ok (record { outputs = o })) h in
    ground (arith, collect_outputs_lem [] d c reports collected, built)

-- No destination is recorded with two fingerprints.
abbrev pub IsConsistent : Outputs → List OperationReport → Type 0
IsConsistent outputs reports =
    (d : Text) (c c' : OutputFingerprint)
    → (holds outputs d c || recorded d c reports) ≡ true
    → (holds outputs d c' || recorded d c' reports) ≡ true
    → c ≡ c'

record_output_total :
    (outputs : Outputs) (k : Text) (f : Option OutputFingerprint) (o : OperationOutcome)
    → ((x g : OutputFingerprint)
        → get k outputs ≡ some x
        → f ≡ some g
        → is_succeeded o ≡ true
        → x ≡ g)
    → (outputs' : Outputs) × (record_output outputs k f o ≡ ok outputs')
record_output_total outputs k none o h = (outputs, refl)
record_output_total outputs k (some g) o h = elim (Bool-cases (is_succeeded o)) [
  | inr no_output ↦ (outputs, rw no_output)
  | inl output ↦ elim (Option-cases (get k outputs)) [
    | inl absent ↦ (put k g outputs, rw (output, absent))
    | inr present ↦
        let same = (fingerprint_beq_iff present.0 g).1 (h present.0 g present.1 refl output) in
        (put k g outputs, rw (output, present.1, same))
  ]
]

holds_first :
    (outputs : Outputs) (d : Text) (x : OutputFingerprint) (b : Bool)
    → get d outputs ≡ some x
    → (holds outputs d x || b) ≡ true
holds_first outputs d x b at = rw at (ground (arith, fingerprint_beq_iff x x))

recorded_first :
    (outputs : Outputs) (r : OperationReport) (g : OutputFingerprint)
    (reports : List OperationReport)
    → r.fingerprint ≡ some g
    → is_succeeded r.outcome ≡ true
    → (holds outputs r.destination g || recorded r.destination g (r ∷ reports)) ≡ true
recorded_first outputs r g reports f o =
    rw (f, o, list_beq_refl r.destination) (ground (arith, fingerprint_beq_iff g g))

-- What the outputs after the first report hold or the rest records, all reports record.
recorded_rest :
    (outputs mid : Outputs) (d : Text) (c : OutputFingerprint) (r : OperationReport)
    (reports : List OperationReport)
    → record_output outputs r.destination r.fingerprint r.outcome ≡ ok mid
    → (holds mid d c || recorded d c reports) ≡ true
    → (holds outputs d c || recorded d c (r ∷ reports)) ≡ true
recorded_rest outputs mid d c r reports first h =
    ground (arith, record_output_lem outputs d r.destination c r.fingerprint r.outcome first, h)

collect_outputs_total :
    (outputs : Outputs) (reports : List OperationReport)
    → IsConsistent outputs reports
    → (outputs' : Outputs) × (collect_outputs outputs reports ≡ ok outputs')
unfolding collect_outputs
collect_outputs_total outputs [] h = (outputs, refl)
collect_outputs_total outputs (r ∷ reports) h =
    let (mid, first) =
      record_output_total outputs r.destination r.fingerprint r.outcome (λ x g at f o.
        h r.destination x g
          (holds_first outputs r.destination x (recorded r.destination x (r ∷ reports)) at)
          (recorded_first outputs r g reports f o)) in
    let (last, rest) = collect_outputs_total mid reports (λ d c c' p q.
      h d c c' (recorded_rest outputs mid d c r reports first p)
        (recorded_rest outputs mid d c' r reports first q)) in
    (last, rw first rest)

-- Reports that record no destination with two fingerprints always make a manifest.
pub from_reports_total :
    (reports : List OperationReport)
    → IsConsistent [] reports
    → (manifest : ReplacementManifest) × (from_reports reports ≡ ok manifest)
unfolding from_reports
from_reports_total reports h =
    let (outputs, e) = collect_outputs_total [] reports h in (record { outputs = outputs }, rw e)
