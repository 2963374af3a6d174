-- ===== src/Tests/Core.antt =====
-- The scrape contracts of crates/fixer-core at small sizes, and instances of the theorems of Core.
use fixer.Common.{
  ℕ, zero, suc, ◌≡◌, refl, none, some, List, [], ◌∷◌, ◌++◌, arith, nat_eq, list_eq, option_eq,
}
use fixer.Std.Text.{Text, text, to_ascii_lowercase}
use fixer.Std.Result.{ok}
use fixer.Core.Error.{movie}
use fixer.Core.Scrape.{
  tmdb, OutputFingerprint, new_fingerprint, OperationReport, write_bytes, copy, succeeded, failed,
  ReplacementManifest, from_reports, allows,
}
use fixer.Core.Scrape.Targets.{tmdb_target}
use fixer.Core.Scrape.Manifest.{recorded, IsConsistent, allows-from_reports}

accepts_tmdb : tmdb movie (text "603") ≡ ok (tmdb_target movie (text "603"))
unfolding tmdb
accepts_tmdb = refl

-- Repeats a text.
abbrev repeat : ℕ → Text → Text
repeat zero s = []
repeat (suc n) s = s ++ repeat n s

hex : Text
hex = repeat 16 (text "0Aaf")

lower_hex : Text
lower_hex = repeat 16 (text "0aaf")

accepts_hex : new_fingerprint hex ≡ ok (record { as_str = lower_hex })
unfolding hex lower_hex new_fingerprint to_ascii_lowercase
accepts_hex = refl

abbrev print_a : OutputFingerprint
print_a = record { as_str = text "a" }

abbrev print_b : OutputFingerprint
print_b = record { as_str = text "b" }

abbrev reports : List OperationReport
reports =
    record {
      operation_index = 0;
      kind = write_bytes;
      source = none;
      destination = text "/m/a.nfo";
      outcome = succeeded;
      fingerprint = some print_a;
    }
    ∷ record {
      operation_index = 1;
      kind = copy;
      source = none;
      destination = text "/m/b.jpg";
      outcome = failed;
      fingerprint = some print_b;
    }
    ∷ []

abbrev manifest : ReplacementManifest
manifest = record { outputs = (text "/m/a.nfo", print_a) ∷ [] }

builds : from_reports reports ≡ ok manifest
unfolding from_reports
builds = refl

allows-from_reports_example :
    allows manifest (text "/m/b.jpg") print_b ≡ recorded (text "/m/b.jpg") print_b reports
allows-from_reports_example = allows-from_reports reports (text "/m/b.jpg") print_b builds

reports-IsConsistent : IsConsistent [] reports
reports-IsConsistent d c c' h h' = ground arith
