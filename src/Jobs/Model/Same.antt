-- ===== src/Jobs/Model/Same.antt =====
-- `derive(PartialEq)` of the inputs in crates/fixer-server/src/jobs/model.rs, which the runtime
-- compares to find a run that is there.
use fixer.Common.{
  ◌≡◌, ◌↔◌, refl, Bool, true, false, not, ◌&&◌, ◌==◌, nat_eq, string_eq, option_eq, option_beq_iff,
  PartialEq, arith,
}
use fixer.Core.Error.{media_kind_eq, media_kind_beq_iff}
use fixer.Core.Identity.{provider_eq, external_id_eq, external_id_beq_iff}
use fixer.Core.Scrape.{ScrapeSelection, automatic, exact, ProviderTarget}
use fixer.Jobs.Model.{
  JobMediaKind, anime, book, movie, music, television, RulePlacement, JobOrganizationDto,
  JobInputDto,
}

abbrev kind_beq : JobMediaKind → JobMediaKind → Bool
kind_beq anime anime = true
kind_beq book book = true
kind_beq movie movie = true
kind_beq music music = true
kind_beq television television = true
kind_beq _ _ = false

kind_beq_iff : (a b : JobMediaKind) → (kind_beq a b ≡ true) ↔ (a ≡ b)
kind_beq_iff a b = ground arith

instance abbrev kind_eq : PartialEq JobMediaKind
kind_eq = record { same = kind_beq; same_iff = kind_beq_iff }

abbrev placement_beq : RulePlacement → RulePlacement → Bool
placement_beq RulePlacement.move RulePlacement.move = true
placement_beq RulePlacement.copy RulePlacement.copy = true
placement_beq RulePlacement.hardlink RulePlacement.hardlink = true
placement_beq RulePlacement.symlink RulePlacement.symlink = true
placement_beq RulePlacement.reflink RulePlacement.reflink = true
placement_beq _ _ = false

placement_beq_iff : (a b : RulePlacement) → (placement_beq a b ≡ true) ↔ (a ≡ b)
placement_beq_iff a b = ground arith

instance abbrev placement_eq : PartialEq RulePlacement
placement_eq = record { same = placement_beq; same_iff = placement_beq_iff }

abbrev bool_beq : Bool → Bool → Bool
bool_beq true b = b
bool_beq false b = not b

bool_beq_iff : (a b : Bool) → (bool_beq a b ≡ true) ↔ (a ≡ b)
bool_beq_iff a b = ground arith

instance abbrev bool_eq : PartialEq Bool
bool_eq = record { same = bool_beq; same_iff = bool_beq_iff }

abbrev target_beq : ProviderTarget → ProviderTarget → Bool
target_beq a b =
    a.media_kind == b.media_kind && (a.provider == b.provider && a.external_id == b.external_id)

target_beq_iff : (a b : ProviderTarget) → (target_beq a b ≡ true) ↔ (a ≡ b)
target_beq_iff a b = ground (
  arith,
  media_kind_beq_iff a.media_kind b.media_kind,
  provider_eq.same_iff a.provider b.provider,
  external_id_beq_iff a.external_id b.external_id,
)

instance abbrev target_eq : PartialEq ProviderTarget
target_eq = record { same = target_beq; same_iff = target_beq_iff }

abbrev selection_beq : ScrapeSelection → ScrapeSelection → Bool
selection_beq automatic automatic = true
selection_beq (exact a) (exact b) = a == b
selection_beq _ _ = false

selection_beq_iff : (a b : ScrapeSelection) → (selection_beq a b ≡ true) ↔ (a ≡ b)
selection_beq_iff automatic automatic = ground arith
selection_beq_iff automatic (exact b) = ground arith
selection_beq_iff (exact a) automatic = ground arith
selection_beq_iff (exact a) (exact b) = ground (arith, target_beq_iff a b)

instance abbrev selection_eq : PartialEq ScrapeSelection
selection_eq = record { same = selection_beq; same_iff = selection_beq_iff }

abbrev organization_beq : JobOrganizationDto → JobOrganizationDto → Bool
organization_beq a b =
    a.destination_path == b.destination_path
    && (a.placement == b.placement
        && (a.path_template == b.path_template
            && (a.origin_rule_id == b.origin_rule_id && a.auto_execute == b.auto_execute)))

organization_beq_iff : (a b : JobOrganizationDto) → (organization_beq a b ≡ true) ↔ (a ≡ b)
organization_beq_iff a b = ground (
  arith,
  string_eq.same_iff a.destination_path b.destination_path,
  placement_beq_iff a.placement b.placement,
  option_beq_iff a.path_template b.path_template,
  option_beq_iff a.origin_rule_id b.origin_rule_id,
  bool_beq_iff a.auto_execute b.auto_execute,
)

instance abbrev organization_eq : PartialEq JobOrganizationDto
organization_eq = record { same = organization_beq; same_iff = organization_beq_iff }

-- The first four fields, and the last four.
abbrev media_beq : JobInputDto → JobInputDto → Bool
media_beq a b =
    a.media_kind == b.media_kind
    && (a.input_path == b.input_path && (a.apply == b.apply && a.selection == b.selection))

abbrev origin_beq : JobInputDto → JobInputDto → Bool
origin_beq a b =
    a.unattended == b.unattended
    && (a.correction_of == b.correction_of
        && (a.retry_of == b.retry_of && a.organization == b.organization))

abbrev pub input_beq : JobInputDto → JobInputDto → Bool
input_beq a b = media_beq a b && origin_beq a b

media_beq_iff :
    (a b : JobInputDto)
    → (media_beq a b ≡ true) ↔ (
        (a.media_kind ≡ b.media_kind)
        × (a.input_path ≡ b.input_path)
        × (a.apply ≡ b.apply)
        × (a.selection ≡ b.selection))
media_beq_iff a b = ground (
  arith,
  kind_beq_iff a.media_kind b.media_kind,
  string_eq.same_iff a.input_path b.input_path,
  bool_beq_iff a.apply b.apply,
  selection_beq_iff a.selection b.selection,
)

origin_beq_iff :
    (a b : JobInputDto)
    → (origin_beq a b ≡ true) ↔ (
        (a.unattended ≡ b.unattended)
        × (a.correction_of ≡ b.correction_of)
        × (a.retry_of ≡ b.retry_of)
        × (a.organization ≡ b.organization))
origin_beq_iff a b = ground (
  arith,
  bool_beq_iff a.unattended b.unattended,
  option_beq_iff a.correction_of b.correction_of,
  option_beq_iff a.retry_of b.retry_of,
  option_beq_iff a.organization b.organization,
)

input_beq_sound : (a b : JobInputDto) → input_beq a b ≡ true → a ≡ b
input_beq_sound a b h =
    let (kind, path, apply, selection) = (media_beq_iff a b).0 (ground arith) in
    let (unattended, correction, retry, organization) = (origin_beq_iff a b).0 (ground arith) in cc

input_beq_refl : (a : JobInputDto) → input_beq a a ≡ true
input_beq_refl a =
    rw
      (
        (media_beq_iff a a).1 (refl, refl, refl, refl),
        (origin_beq_iff a a).1 (refl, refl, refl, refl),
      )
      refl

pub input_beq_iff : (a b : JobInputDto) → (input_beq a b ≡ true) ↔ (a ≡ b)
input_beq_iff a b = (input_beq_sound a b, λ e. rw e (input_beq_refl b))

instance abbrev pub input_eq : PartialEq JobInputDto
input_eq = record { same = input_beq; same_iff = input_beq_iff }
