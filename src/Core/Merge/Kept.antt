-- ===== src/Core/Merge/Kept.antt =====
-- What merge_unique of crates/fixer-core/src/merge/mod.rs keeps.
use fixer.Common.{
  ◌≡◌, refl, ap, true, false, not, ◌&&◌, List, [], ◌∷◌, ◌++◌, ◌==◌, list_eq, nat_eq, if◌then◌else◌,
  contains, IsDistinct, arith, Bool-cases, inl, inr, sym, ◌∙◌, list_beq_iff, list_beq_refl,
}
use mathlib.Core.List.{append_assoc, append-nil}
use fixer.Std.Text.{Text}
use fixer.Std.Result.{ok}
use fixer.Core.Merge.Policy.{is_field_path}
use fixer.Core.Merge.Provenance.{SourceRef, sources_for, sources_for-add_source}
use fixer.Core.Merge.Unique.{Sourced, Kept, keep, keep_values, keep_documents}

-- Values with their source.
abbrev pub paired {κ} : {T : Type κ} → SourceRef → List T → List (T × SourceRef)
paired source [] = []
paired source (value ∷ values) = (value, source) ∷ paired source values

module _ {κ} {T : Type κ} (key : T → Text) where
  -- The first value of each key, of those whose key is not seen yet.
  abbrev pub first_of_each : List Text → List (T × SourceRef) → List (T × SourceRef)
  first_of_each seen [] = []
  first_of_each seen (v ∷ values) =
      let later = first_of_each seen values in
      let now = first_of_each (key v.0 ∷ seen) values in
      if contains seen (key v.0) then later else v ∷ now

  abbrev pub values_of : List (T × SourceRef) → List T
  values_of [] = []
  values_of (v ∷ values) = v.0 ∷ values_of values

  abbrev pub sources_of : List (T × SourceRef) → List SourceRef
  sources_of [] = []
  sources_of (v ∷ values) = v.1 ∷ sources_of values

  abbrev pub keys_of : List (T × SourceRef) → List Text
  keys_of [] = []
  keys_of (v ∷ values) = key v.0 ∷ keys_of values

  pub unseen :
      (seen : List Text) (values : List (T × SourceRef)) (k : Text)
      → contains (keys_of (first_of_each seen values)) k
        ≡ (contains (keys_of values) k && not (contains seen k))
  unseen seen [] k = refl
  unseen seen (v ∷ values) k =
      ground
        (arith, unseen seen values k, unseen (key v.0 ∷ seen) values k, list_beq_iff (key v.0) k)

  pub first_of_each-IsDistinct :
      (seen : List Text) (values : List (T × SourceRef))
      → IsDistinct (keys_of (first_of_each seen values))
  first_of_each-IsDistinct seen [] = tt
  first_of_each-IsDistinct seen (v ∷ values) = elim (Bool-cases (contains seen (key v.0))) [
    | inl known ↦ rw known (first_of_each-IsDistinct seen values)
    | inr fresh ↦ rw fresh (
      ground (arith, unseen (key v.0 ∷ seen) values (key v.0), list_beq_iff (key v.0) (key v.0)),
      first_of_each-IsDistinct (key v.0 ∷ seen) values,
    )
  ]

  -- The state after the values: what the first values of each new key add to the state before.
  pub record Adds (path : Text) (values : List (T × SourceRef)) (before after : Kept T)
      : Type κ where
    pub result : after.result ≡ before.result ++ values_of (first_of_each before.seen values)
    pub sources :
        sources_for path after.provenance
        ≡ sources_for path before.provenance ++ sources_of (first_of_each before.seen values)
    pub others :
        (other : Text)
        → (path == other) ≡ false
        → sources_for other after.provenance ≡ sources_for other before.provenance
    pub rest :
        (more : List (T × SourceRef))
        → first_of_each before.seen (values ++ more)
          ≡ first_of_each before.seen values ++ first_of_each after.seen more

  values_of-append : (l m : List (T × SourceRef)) → values_of (l ++ m) ≡ values_of l ++ values_of m
  values_of-append [] m = refl
  values_of-append (v ∷ l) m = ap (◌∷◌ v.0) (values_of-append l m)

  sources_of-append :
      (l m : List (T × SourceRef)) → sources_of (l ++ m) ≡ sources_of l ++ sources_of m
  sources_of-append [] m = refl
  sources_of-append (v ∷ l) m = ap (◌∷◌ v.1) (sources_of-append l m)

  Adds-nil : (path : Text) (state : Kept T) → Adds path [] state state
  Adds-nil path state = record {
    result = sym (append-nil state.result);
    sources = sym (append-nil (sources_for path state.provenance));
    others = λ other h. refl;
    rest = λ more. refl;
  }

  Adds-append :
      (path : Text) (l m : List (T × SourceRef)) {a b c : Kept T}
      → Adds path l a b
      → Adds path m b c
      → Adds path (l ++ m) a c
  Adds-append path l m {a} {b} {c} x y =
      let f = first_of_each a.seen l in
      let g = first_of_each b.seen m in
      record {
        result =
            y.result
            ∙ ap (λ (z : List T). z ++ values_of g) x.result
            ∙ append_assoc a.result (values_of f) (values_of g)
            ∙ ap (λ (z : List T). a.result ++ z)
                (sym (ap values_of (x.rest m) ∙ values_of-append f g));
        sources =
            y.sources
            ∙ ap (λ (z : List SourceRef). z ++ sources_of g) x.sources
            ∙ append_assoc (sources_for path a.provenance) (sources_of f) (sources_of g)
            ∙ ap (λ (z : List SourceRef). sources_for path a.provenance ++ z)
                (sym (ap sources_of (x.rest m) ∙ sources_of-append f g));
        others = λ other h. y.others other h ∙ x.others other h;
        rest = λ more.
            ap (first_of_each a.seen) (append_assoc l m more)
            ∙ x.rest (m ++ more)
            ∙ ap (λ (z : List (T × SourceRef)). f ++ z) (y.rest more)
            ∙ sym (append_assoc f g (first_of_each c.seen more))
            ∙ ap (λ (z : List (T × SourceRef)). z ++ first_of_each c.seen more) (sym (x.rest m));
      }

  keep-Adds :
      (path : Text) (source : SourceRef) (value : T) (a : Kept T)
      → is_field_path path ≡ true
      → (b : Kept T) × (keep path key source value a ≡ ok b) × Adds path ((value, source) ∷ []) a b
  unfolding keep
  keep-Adds path source value a valid = elim (Bool-cases (contains a.seen (key value))) [
    | inl known ↦ (
      a,
      rw known refl,
      record {
        result = rw known (sym (append-nil a.result));
        sources = rw known (sym (append-nil (sources_for path a.provenance)));
        others = λ other h. refl;
        rest = λ more. rw known refl;
      },
    )
    | inr fresh ↦
        let (provenance, added, sources) = sources_for-add_source path source a.provenance valid in
        (
          record {
            seen = key value ∷ a.seen;
            result = a.result ++ value ∷ [];
            provenance = provenance;
          },
          rw (fresh, added) refl,
          record {
            result = rw fresh refl;
            sources = rw (fresh, sources path, list_beq_refl path) refl;
            others = λ other h. rw (sources other, h) refl;
            rest = λ more. rw fresh refl;
          },
        )
  ]

  keep_values-Adds :
      (path : Text) (source : SourceRef) (values : List T) (a : Kept T)
      → is_field_path path ≡ true
      → (b : Kept T) × (keep_values path key source values a ≡ ok b)
        × Adds path (paired source values) a b
  unfolding keep_values
  keep_values-Adds path source [] a valid = (a, refl, Adds-nil path a)
  keep_values-Adds path source (value ∷ values) a valid =
      let (b, first, one) = keep-Adds path source value a valid in
      let (c, later, more) = keep_values-Adds path source values b valid in
      (c, rw first later, Adds-append path ((value, source) ∷ []) (paired source values) one more)

module _ {ℓ κ} {A : Type ℓ} {T : Type κ} (key : T → Text) (select : A → List T) where
  -- All values of the documents in order, each with its document's source.
  abbrev pub all_values : List (Sourced A) → List (T × SourceRef)
  all_values [] = []
  all_values (document ∷ documents) =
      paired document.source (select document.value) ++ all_values documents

  pub keep_documents-Adds :
      (path : Text) (documents : List (Sourced A)) (a : Kept T)
      → is_field_path path ≡ true
      → (b : Kept T) × (keep_documents path key select documents a ≡ ok b)
        × Adds key path (all_values documents) a b
  unfolding keep_documents
  keep_documents-Adds path [] a valid = (a, refl, Adds-nil key path a)
  keep_documents-Adds path (document ∷ documents) a valid =
      let (b, first, one) =
        keep_values-Adds key path document.source (select document.value) a valid in
      let (c, later, more) = keep_documents-Adds path documents b valid in
      (
        c,
        rw first later,
        Adds-append key path (paired document.source (select document.value)) (all_values documents)
            one more,
      )
