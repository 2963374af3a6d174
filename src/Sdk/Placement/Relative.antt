-- ===== src/Sdk/Placement/Relative.antt =====
-- A relative link leads back to what it stands for.
use mathlib.Core.List.{append_assoc, append-nil, map-append}
use fixer.Common.{
  ◌≡◌, refl, sym, ◌∙◌, ap, inl, inr, Bool-cases, some, List, [], ◌∷◌, ◌++◌, map, ◌==◌, nat_eq,
  list_eq, list_beq_iff, arith,
}
use fixer.Std.Text.{Text}
use fixer.Std.Path.{Component, root_dir, parent_dir, normal}
use fixer.Std.FilePath.{FilePath, component_eq, init, last_component, parent_path, pop, join_path}
use fixer.Std.Fs.{normalize_from}
use fixer.Sdk.Targets.{normalize_path}
use fixer.Sdk.Placement.{climb, after_common, push_all, relative_parts, relative_path}

init-append : (d : FilePath) (c : Component) → init (d ++ c ∷ []) ≡ d
unfolding init
init-append [] c = refl
init-append (a ∷ []) c = refl
init-append (a ∷ b ∷ d) c = ap (λ (l : FilePath). a ∷ l) (init-append (b ∷ d) c)

last_component-append : (d : FilePath) (c : Component) → last_component (d ++ c ∷ []) ≡ some c
unfolding last_component
last_component-append [] c = refl
last_component-append (a ∷ []) c = refl
last_component-append (a ∷ b ∷ d) c = last_component-append (b ∷ d) c

pop-append : (d : FilePath) (segment : Text) → pop (d ++ normal segment ∷ []) ≡ d
unfolding pop parent_path
pop-append d segment =
    rw (last_component-append d (normal segment), pop, parent_path) (init-append d (normal segment))

normalize_from-names :
    (done : FilePath) (xs : List Text) (rest : FilePath)
    → normalize_from done (map normal xs ++ rest) ≡ normalize_from (done ++ map normal xs) rest
unfolding normalize_from
normalize_from-names done [] rest = rw (append-nil done)
normalize_from-names done (x ∷ xs) rest =
    normalize_from-names (done ++ normal x ∷ []) xs rest
    ∙ ap (λ (d : FilePath). normalize_from d rest)
        (append_assoc done (normal x ∷ []) (map normal xs))

-- Climbing once more at the end is climbing once more at the start.
climb_more :
    (xs : List Text) (rest : FilePath)
    → parent_dir ∷ (climb (map normal xs) ++ rest) ≡ climb (map normal xs) ++ parent_dir ∷ rest
climb_more [] rest = refl
climb_more (x ∷ xs) rest = ap (λ (l : FilePath). parent_dir ∷ l) (climb_more xs rest)

climbs_back :
    (done : FilePath) (xs : List Text) (rest : FilePath)
    → normalize_from (done ++ map normal xs) (climb (map normal xs) ++ rest)
      ≡ normalize_from done rest
climbs_back done [] rest = rw (append-nil done)
climbs_back done (x ∷ xs) rest =
    ap (λ (l : FilePath). normalize_from (done ++ normal x ∷ map normal xs) l) (climb_more xs rest)
    ∙ ap (λ (d : FilePath). normalize_from d (climb (map normal xs) ++ parent_dir ∷ rest))
        (sym (append_assoc done (normal x ∷ []) (map normal xs)))
    ∙ climbs_back (done ++ normal x ∷ []) xs (parent_dir ∷ rest)
    ∙ up
  where
    up : normalize_from (done ++ normal x ∷ []) (parent_dir ∷ rest) ≡ normalize_from done rest
    up = unfold normalize_from in ap (λ (d : FilePath). normalize_from d rest) (pop-append done x)

push_all-names :
    (result : FilePath) (xs : List Text) → push_all result (map normal xs) ≡ result ++ map normal xs
unfolding push_all
push_all-names result [] = sym (append-nil result)
push_all-names [] (x ∷ xs) = push_all-names (normal x ∷ []) xs
push_all-names (c ∷ result) (x ∷ xs) =
    push_all-names (c ∷ result ++ normal x ∷ []) xs
    ∙ append_assoc (c ∷ result) (normal x ∷ []) (map normal xs)

-- What two lists of names have in common, and what is behind it.
abbrev Split : List Text → List Text → Type 0
Split xs ys =
    (p : List Text) × (a : List Text) × (b : List Text) × (after_common (map normal xs)
        (map normal ys)
      ≡ (map normal a, map normal b))
    × (xs ≡ p ++ a)
    × (ys ≡ p ++ b)

Split-common : (xs ys : List Text) → Split xs ys
unfolding after_common
Split-common [] ys = ([], [], ys, refl, refl, refl)
Split-common (x ∷ xs) [] = ([], x ∷ xs, [], refl, refl, refl)
Split-common (x ∷ xs) (y ∷ ys) = elim (Bool-cases (x == y)) [
  | inl same ↦
      let (p, a, b, e, f, g) = Split-common xs ys in
      (x ∷ p, a, b, rw same e, ap (λ (l : List Text). x ∷ l) f, ground (arith, list_beq_iff x y))
  | inr differ ↦ ([], x ∷ xs, y ∷ ys, rw differ, refl, refl)
]

-- The relative path between two lists of names.
abbrev way : List Text → List Text → FilePath
way a b = climb (map normal a) ++ map normal b

join-way :
    (base : FilePath) (a b : List Text)
    → join_path (root_dir ∷ base) (way a b) ≡ root_dir ∷ (base ++ way a b)
join-way base [] [] = ap (λ (l : FilePath). root_dir ∷ l) (sym (append-nil base))
join-way base [] (y ∷ b) = refl
join-way base (x ∷ a) b = refl

normalize-way :
    (p a b : List Text)
    → normalize_path (root_dir ∷ (map normal (p ++ a) ++ way a b)) ≡ root_dir ∷ map normal (p ++ b)
unfolding normalize_path
normalize-way p a b =
    opened (map normal (p ++ a) ++ way a b)
    ∙ normalize_from-names (root_dir ∷ []) (p ++ a) (way a b)
    ∙ ap (λ (l : FilePath). normalize_from (root_dir ∷ l) (way a b)) (map-append normal p a)
    ∙ climbs_back (root_dir ∷ map normal p) a (map normal b)
    ∙ ap (normalize_from (root_dir ∷ map normal p)) (sym (append-nil (map normal b)))
    ∙ normalize_from-names (root_dir ∷ map normal p) b []
    ∙ closed ((root_dir ∷ map normal p) ++ map normal b)
    ∙ ap (λ (l : FilePath). root_dir ∷ l) (sym (map-append normal p b))
  where
    opened :
        (rest : FilePath)
        → normalize_from [] (root_dir ∷ rest) ≡ normalize_from (root_dir ∷ []) rest
    opened rest = unfold normalize_from in refl

    closed : (done : FilePath) → normalize_from done [] ≡ done
    closed done = unfold normalize_from in refl

relative_path-way :
    (xs ys a b : List Text)
    → after_common (map normal xs) (map normal ys) ≡ (map normal a, map normal b)
    → relative_path (root_dir ∷ map normal xs) (root_dir ∷ map normal ys) ≡ some (way a b)
unfolding relative_path after_common
relative_path-way xs ys a b e =
    ap (λ (parts : FilePath × FilePath). some (relative_parts parts)) e
    ∙ ap some (push_all-names (climb (map normal a)) b)

-- From one absolute path to another there is always a relative path, and it leads there: joined to
-- the path where it starts, and with its dots taken away, it is the path where it should end.
pub relative_path-normalize_path :
    (xs ys : List Text)
    → (path : FilePath) × (relative_path (root_dir ∷ map normal xs) (root_dir ∷ map normal ys)
        ≡ some path)
      × (normalize_path (join_path (root_dir ∷ map normal xs) path) ≡ root_dir ∷ map normal ys)
relative_path-normalize_path xs ys =
    let (p, a, b, e, f, g) = Split-common xs ys in
    (
      way a b,
      relative_path-way xs ys a b e,
      ap normalize_path (join-way (map normal xs) a b)
          ∙ ap (λ (l : List Text). normalize_path (root_dir ∷ (map normal l ++ way a b))) f
          ∙ normalize-way p a b
          ∙ ap (λ (l : List Text). root_dir ∷ map normal l) (sym g),
    )
