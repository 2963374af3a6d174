-- ===== src/Core/Locale/Parents.antt =====
-- The parent tags of crates/fixer-core/src/locale.rs.
use fixer.Common.{
  ℕ, zero, suc, ◌≤◌, ◌<◌, ◌≡◌, refl, ap, true, false, none, some, List, [], ◌∷◌, ◌++◌, ◌==◌, nat_eq,
  length, length-append, contains, arith, Option-cases, inl, inr, ◌⊎◌, ◌↔◌, list_eq, list_beq_iff,
  sym, ◌∙◌, Bool-cases, subst,
}
use mathlib.Core.List.{append_assoc}
use fixer.Std.Text.{Text}
use fixer.Core.Locale.{LanguageTag, rsplit_once, parents_from, parent_normalized_tags}

rsplit_once-eq-none : (sep : ℕ) (s : Text) → rsplit_once sep s ≡ none → contains s sep ≡ false
unfolding rsplit_once
rsplit_once-eq-none sep [] h = refl
rsplit_once-eq-none sep (c ∷ s) h = ground (arith, rsplit_once-eq-none sep s)

rsplit_once-eq-some :
    (sep : ℕ) (s before after : Text)
    → rsplit_once sep s ≡ some (before, after)
    → (s ≡ before ++ sep ∷ after) × (contains after sep ≡ false)
unfolding rsplit_once
rsplit_once-eq-some sep [] before after h = absurd (cc h)
rsplit_once-eq-some sep (c ∷ s) before after h = elim (Option-cases (rsplit_once sep s)) [
  | inl absent ↦ ground (arith, rsplit_once-eq-none sep s absent, absent)
  | inr found ↦
      let (e, clean) = rsplit_once-eq-some sep s found.0.0 found.0.1 found.1 in
      ground (arith, e, clean, found)
]

contains-middle : (sep : ℕ) (before after : Text) → contains (before ++ sep ∷ after) sep ≡ true
contains-middle sep [] after = ground arith
contains-middle sep (c ∷ before) after = ground (arith, contains-middle sep before after)

-- A split of a text at a separator is the last one, or stands in the text before the last one.
split_last :
    (sep : ℕ) (p before rest after : Text)
    → p ++ sep ∷ rest ≡ before ++ sep ∷ after
    → contains after sep ≡ false
    → (p ≡ before) ⊎ ((tail : Text) × (before ≡ p ++ sep ∷ tail))
split_last sep [] [] rest after e h = inl refl
split_last sep [] (c ∷ before) rest after e h = inr (before, cc e)
split_last sep (c ∷ p) [] rest after e h =
    let same : p ++ sep ∷ rest ≡ after = cc e in absurd (cc (h, same, contains-middle sep p rest))
split_last sep (c ∷ p) (d ∷ before) rest after e h =
    elim (split_last sep p before rest after (cc e) h) [
      | inl same ↦ inl (cc (same, e))
      | inr tail ↦ inr (tail.0, cc (tail.1, e))
    ]

-- An occurrence of the separator is found, so the split is not `none`.
rsplit_once-middle :
    (sep : ℕ) (p rest : Text)
    → (found : Text × Text) × (rsplit_once sep (p ++ sep ∷ rest) ≡ some (found.0, found.1))
rsplit_once-middle sep p rest = elim (Option-cases (rsplit_once sep (p ++ sep ∷ rest))) [
  | inl absent ↦
      absurd (cc (rsplit_once-eq-none sep (p ++ sep ∷ rest) absent, contains-middle sep p rest))
  | inr found ↦ found
]

parents_from-step :
    (fuel : ℕ) (s next rest : Text)
    → rsplit_once b'-' s ≡ some (next, rest)
    → parents_from (suc fuel) s ≡ next ∷ parents_from fuel next
unfolding parents_from
parents_from-step fuel s next rest h = rw (parents_from, h)

-- Every prefix before a hyphen is a parent, and enough steps are made to reach it.
parents_complete :
    (fuel : ℕ) (s p rest : Text)
    → length s ≤ fuel
    → s ≡ p ++ b'-' ∷ rest
    → contains (parents_from fuel s) p ≡ true
parents_complete zero s p rest le e =
    absurd (omega (arith, ap length e, length-append p (b'-' ∷ rest)))
parents_complete (suc fuel) s p rest le e =
    let ((next, last), split') = rsplit_once-middle b'-' p rest in
    let split : rsplit_once b'-' s ≡ some (next, last) = ap (rsplit_once b'-') e ∙ split' in
    let (e', clean) = rsplit_once-eq-some b'-' s next last split in
    let shorter : length next ≤ fuel =
      omega (arith, ap length e', length-append next (b'-' ∷ last)) in
    let hit : contains (next ∷ parents_from fuel next) p ≡ true =
      elim (split_last b'-' p next rest last (sym e ∙ e') clean) [
        | inl same ↦ ground (arith, list_beq_iff next p, same)
        | inr tail ↦ ground (arith, parents_complete fuel next p tail.0 shorter tail.1)
      ] in
    subst (λ l. contains l p ≡ true) (sym (parents_from-step fuel s next last split)) hit

parents_sound :
    (fuel : ℕ) (s p : Text)
    → contains (parents_from fuel s) p ≡ true
    → (rest : Text) × (s ≡ p ++ b'-' ∷ rest)
unfolding parents_from
parents_sound zero s p h = absurd (cc h)
parents_sound (suc fuel) s p h = elim (Option-cases (rsplit_once b'-' s)) [
  | inl absent ↦ absurd (ground (arith, h, absent))
  | inr found ↦
      let ((next, last), split) = found in
      let (e, clean) = rsplit_once-eq-some b'-' s next last split in
      let h' = subst (λ l. contains l p ≡ true) (parents_from-step fuel s next last split) h in
      elim (Bool-cases (next == p)) [
        | inl same ↦ (last, subst (λ z. s ≡ z ++ b'-' ∷ last) ((list_beq_iff next p).0 same) e)
        | inr other ↦
            let (rest, deeper) = parents_sound fuel next p (ground (arith, h', other)) in
            (
              rest ++ b'-' ∷ last,
              e
                  ∙ ap (λ (z : Text). z ++ b'-' ∷ last) deeper
                  ∙ append_assoc p (b'-' ∷ rest) (b'-' ∷ last),
            )
      ]
]

-- The parents of a language tag are exactly the texts that stand before a hyphen of its normal
-- form: none is left out by the number of steps.
pub parent_normalized_tags_iff :
    (tag : LanguageTag) (p : Text)
    → (contains (parent_normalized_tags tag) p ≡ true)
      ↔ ((rest : Text) × (tag.normalized ≡ p ++ b'-' ∷ rest))
unfolding parent_normalized_tags
parent_normalized_tags_iff tag p = (
  parents_sound (length tag.normalized) tag.normalized p,
  λ r. parents_complete (length tag.normalized) tag.normalized p r.0 (omega arith) r.1,
)

-- Each list member is shorter than the one before.
abbrev pub IsShortening : ℕ → List Text → Type 0
IsShortening n [] = Unit
IsShortening n (s ∷ l) = (length s < n) × IsShortening (length s) l

parents-IsShortening : (fuel : ℕ) (s : Text) → IsShortening (length s) (parents_from fuel s)
unfolding parents_from
parents-IsShortening zero s = tt
parents-IsShortening (suc fuel) s = elim (Option-cases (rsplit_once b'-' s)) [
  | inl absent ↦ rw (parents_from, absent) tt
  | inr found ↦
      let ((next, last), split) = found in
      let (e, clean) = rsplit_once-eq-some b'-' s next last split in
      subst (IsShortening (length s)) (sym (parents_from-step fuel s next last split)) (
        omega (arith, ap length e, length-append next (b'-' ∷ last)),
        parents-IsShortening fuel next,
      )
]

-- The nearest parent comes first: each parent is shorter than the one before, and the first one
-- is shorter than the tag.
pub parent_normalized_tags-IsShortening :
    (tag : LanguageTag) → IsShortening (length tag.normalized) (parent_normalized_tags tag)
unfolding parent_normalized_tags
parent_normalized_tags-IsShortening tag =
    parents-IsShortening (length tag.normalized) tag.normalized
