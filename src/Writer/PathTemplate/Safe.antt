-- ===== src/Writer/PathTemplate/Safe.antt =====
-- A rendered path is a target that output plans and their executor accept.
use fixer.Common.{◌≡◌, false, arith, any, is_empty, ◌==◌, nat_eq}
use fixer.Std.Text.{Text}
use fixer.Std.Path.{is_absolute, components}
use fixer.Std.Result.{ok, >>=-eq-ok}
use fixer.Core.Output.{escapes, safe_target, non_empty_path}
use fixer.Sdk.Targets.{validate_relative_target}
use fixer.Writer.PathTemplate.{
  CaseTable, PathTemplate, TemplateContext, is_unclean, validate_relative_path, render_source,
  render,
}

-- What the checks of a rendered path ask for.
pub record IsSafe (path : Text) : Type 0 where
  pub not_empty : is_empty path ≡ false
  pub relative : is_absolute path ≡ false
  pub no_nul : any (λ c. c == 0) path ≡ false
  pub inside : any escapes (components path) ≡ false
  pub clean : any is_unclean (components path) ≡ false

validate_relative_path-IsSafe :
    (value : Text) {path : Text}
    → validate_relative_path value ≡ ok path
    → (value ≡ path) × IsSafe value
unfolding validate_relative_path
validate_relative_path-IsSafe value h = (
  ground arith,
  record {
    not_empty = ground arith;
    relative = ground arith;
    no_nul = ground arith;
    inside = ground arith;
    clean = ground arith;
  },
)

IsSafe-target : {path : Text} → IsSafe path → safe_target path ≡ ok path
unfolding safe_target non_empty_path
IsSafe-target safe = ground arith

IsSafe-relative : {path : Text} → IsSafe path → validate_relative_target path ≡ ok tt
unfolding validate_relative_target
IsSafe-relative safe = ground arith

-- Whatever a template renders to, if it renders, is a path that a builder of output operations
-- takes as its target, unchanged, and that the executor accepts.
pub render-safe_target :
    (table : CaseTable) (template : PathTemplate) (context : TemplateContext) {path : Text}
    → render table template context ≡ ok path
    → (safe_target path ≡ ok path) × (validate_relative_target path ≡ ok tt)
unfolding render
render-safe_target table template context h =
    let (value, rendered, checked) =
      >>=-eq-ok (render_source table template.source template.expressions context)
        validate_relative_path h in
    let (same, safe) = validate_relative_path-IsSafe value checked in
    rw (← same) (IsSafe-target safe, IsSafe-relative safe)
