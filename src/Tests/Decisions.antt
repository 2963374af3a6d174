-- ===== src/Tests/Decisions.antt =====
-- The output plans of crates/fixer-core and the automatic decision of crates/fixer-server at small
-- sizes, and instances of their theorems.
use fixer.Common.{◌≡◌, refl, true, false, none, some, [], ◌∷◌, nat_eq, list_eq}
use fixer.Std.Text.{text, split, push_first}
use fixer.Std.Path.{components, segment_components}
use fixer.Std.Result.{ok}
use fixer.Core.Error.{movie, media_kind_eq}
use fixer.Core.Identity.{provider_eq}
use fixer.Core.Merge.Policy.{field_path_eq}
use fixer.Core.Output.{
  OutputOperation, OutputPlan, move, new_move, safe_target, absolute_source, non_empty_path,
}
use fixer.Core.Output.Inside.{IsInside, MovesAbsolute, of_move, built-IsInside}
use fixer.Jobs.Model.{JobInputDto, JobMediaKind, hardlink}
use fixer.Core.Scrape.{automatic, ProviderTarget}
use fixer.Jobs.Artifacts.{ReviewArtifacts}
use fixer.Jobs.Automation.{execute}
use fixer.Jobs.Runtime.Course.{ResolvedArtifact, SearchArtifact}
use fixer.Jobs.Runtime.Flow.{PreparedReview}

abbrev moved : OutputOperation
moved = move (text "/in/a.mkv") (text "Movies/A/a.mkv")

moves : new_move (text "/in/a.mkv") (text "Movies/A/a.mkv") ≡ ok moved
unfolding new_move absolute_source non_empty_path safe_target components segment_components split
    push_first
moves = refl

built-IsInside_example : IsInside moved × MovesAbsolute moved
built-IsInside_example =
    built-IsInside moved (of_move (text "/in/a.mkv") (text "Movies/A/a.mkv") moves)

abbrev input : JobInputDto
input = record {
  media_kind = JobMediaKind.movie;
  input_path = "/in";
  apply = true;
  selection = automatic;
  unattended = false;
  correction_of = none;
  retry_of = none;
  organization = some (record {
    destination_path = "/out";
    placement = hardlink;
    path_template = none;
    origin_rule_id = some 7;
    auto_execute = true;
  });
}

abbrev review : ReviewArtifacts
review = record {
  candidates =
      record {
        index = 0;
        media_kind = movie;
        provider = text "tmdb";
        external_id = record { namespace = text "tmdb"; value = text "603" };
        title = text "The Matrix";
        year = some 1999;
        sequence = none;
      }
      ∷ [];
  candidates_truncated = false;
  warnings = [];
  warnings_truncated = false;
  conflicts = [];
  conflicts_truncated = false;
}

abbrev plan : OutputPlan
plan = record { output_root = text "/out"; operations = moved ∷ [] }

abbrev resolved : ResolvedArtifact
resolved = record {
  conflict_count = ok 0;
  diagnostics = review;
  plan = ok plan;
  fingerprint = λ decision plan. ok "f";
}

abbrev chosen_target : ProviderTarget
chosen_target = record {
  media_kind = movie;
  provider = record { as_str = text "tmdb" };
  external_id = record { namespace = text "tmdb"; value = text "603" };
}

abbrev search : SearchArtifact
search = record {
  candidate_count = 1;
  candidates = ok (review.candidates, false);
  target = λ candidate. ok chosen_target;
  resolve_selected = λ index. ok resolved;
  checks = record {
    fs_policy = some (λ plan. true);
    exists = λ plan operation. false;
    is_dir = λ plan operation. false;
  };
}

abbrev prepared : PreparedReview
prepared = record {
  candidate_count = 1;
  conflict_count = 0;
  selected_target = some chosen_target;
  automatic = execute 0;
}
