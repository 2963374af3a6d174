-- ===== src/Std/FilePath.antt =====
-- std::path::PathBuf as the list of its components, by which Rust compares paths.
use fixer.Common.{
  ℕ, ◌≡◌, ◌↔◌, Bool, true, false, ◌&&◌, Option, none, some, List, [], ◌∷◌, ◌++◌, arith, ◌==◌,
  nat_eq, list_eq, list_beq_iff, PartialEq, if◌then◌else◌, ltb,
}
use fixer.Std.Text.{Text, text}
use fixer.Std.Path.{Component, root_dir, cur_dir, parent_dir, normal}

abbrev pub component_beq : Component → Component → Bool
component_beq root_dir root_dir = true
component_beq cur_dir cur_dir = true
component_beq parent_dir parent_dir = true
component_beq (normal a) (normal b) = a == b
component_beq _ _ = false

pub component_beq_iff : (a b : Component) → (component_beq a b ≡ true) ↔ (a ≡ b)
component_beq_iff root_dir b = ground arith
component_beq_iff cur_dir b = ground arith
component_beq_iff parent_dir b = ground arith
component_beq_iff (normal a) root_dir = ground arith
component_beq_iff (normal a) cur_dir = ground arith
component_beq_iff (normal a) parent_dir = ground arith
component_beq_iff (normal a) (normal b) = ground (arith, list_beq_iff a b)

instance abbrev pub component_eq : PartialEq Component
component_eq = record { same = component_beq; same_iff = component_beq_iff }

abbrev pub FilePath : Type 0
FilePath = List Component

-- Path::is_absolute
abbrev pub is_absolute_path : FilePath → Bool
is_absolute_path (root_dir ∷ _) = true
is_absolute_path _ = false

-- Path::join. A dot at the start of a path that is joined to another says nothing.
abbrev pub join_path : FilePath → FilePath → FilePath
join_path base [] = base
join_path base (root_dir ∷ rest) = root_dir ∷ rest
join_path [] (cur_dir ∷ rest) = cur_dir ∷ rest
join_path (c ∷ base) (cur_dir ∷ rest) = (c ∷ base) ++ rest
join_path base (parent_dir ∷ rest) = base ++ parent_dir ∷ rest
join_path base (normal segment ∷ rest) = base ++ normal segment ∷ rest

-- All components but the last.
unfoldable pub init : FilePath → FilePath
init [] = []
init (c ∷ []) = []
init (c ∷ d ∷ rest) = c ∷ init (d ∷ rest)

unfoldable pub last_component : FilePath → Option Component
last_component [] = none
last_component (c ∷ []) = some c
last_component (c ∷ d ∷ rest) = last_component (d ∷ rest)

-- Path::parent
unfoldable pub parent_path : FilePath → Option FilePath
unfolding init last_component
parent_path path = elim (last_component path) [
  | none ↦ none
  | some c ↦ elim c [ root_dir ↦ none | _ ↦ some (init path) ]
]

-- `file_name().unwrap_or_default()`
unfoldable pub file_name : FilePath → Text
unfolding last_component
file_name path = elim (last_component path) [
  | none ↦ []
  | some c ↦ elim c [ normal segment ↦ segment | _ ↦ [] ]
]

abbrev component_text : Component → Text
component_text root_dir = []
component_text cur_dir = text "."
component_text parent_dir = text ".."
component_text (normal segment) = segment

-- The components after the first, each behind a slash.
unfoldable pub show_rest : FilePath → Text
show_rest [] = []
show_rest (c ∷ rest) = b'/' ∷ (component_text c ++ show_rest rest)

-- `to_string_lossy`
unfoldable pub show_path : FilePath → Text
unfolding show_rest
show_path [] = []
show_path (root_dir ∷ []) = text "/"
show_path (c ∷ rest) = component_text c ++ show_rest rest

-- PathBuf::pop, of a path that may be empty.
unfoldable pub pop : FilePath → FilePath
unfolding parent_path
pop path = elim (parent_path path) [ none ↦ path | some parent ↦ parent ]

-- Path::starts_with, by components.
abbrev pub starts_with : FilePath → FilePath → Bool
starts_with path [] = true
starts_with [] (b ∷ base) = false
starts_with (a ∷ path) (b ∷ base) = component_beq a b && starts_with path base

-- Ord: a root comes before a dot, two dots and names; names are compared as texts.
abbrev text_gt : Text → Text → Bool
text_gt [] b = false
text_gt (x ∷ a) [] = true
text_gt (x ∷ a) (y ∷ b) = if x == y then text_gt a b else ltb y x

abbrev component_rank : Component → ℕ
component_rank root_dir = 0
component_rank cur_dir = 1
component_rank parent_dir = 2
component_rank (normal segment) = 3

abbrev component_gt : Component → Component → Bool
component_gt (normal a) (normal b) = text_gt a b
component_gt a b = ltb (component_rank b) (component_rank a)

abbrev pub path_gt : FilePath → FilePath → Bool
path_gt [] base = false
path_gt (a ∷ path) [] = true
path_gt (a ∷ path) (b ∷ base) = if component_beq a b then path_gt path base else component_gt a b
