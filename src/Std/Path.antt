-- ===== src/Std/Path.antt =====
-- std::path on Unix: a path is its text, split at slashes. Empty segments and dots say nothing,
-- but for a dot that starts a relative path.
use fixer.Common.{
  Bool, false, ◌||◌, List, [], ◌∷◌, ◌++◌, ◌==◌, nat_eq, list_eq, if◌then◌else◌, is_empty,
}
use fixer.Std.Text.{Text, text, split}

pub data Component : Type 0 where
  root_dir cur_dir parent_dir : Component
  normal : Text → Component

-- Path::is_absolute
abbrev pub is_absolute : Text → Bool
is_absolute [] = false
is_absolute (c ∷ s) = c == b'/'

unfoldable pub segment_components : List Text → List Component
segment_components [] = []
segment_components (segment ∷ segments) =
    let rest = segment_components segments in
    if is_empty segment || segment == text "."
    then rest
    else if segment == text ".."
    then parent_dir ∷ rest
    else normal segment ∷ rest

-- What stands before the segments.
abbrev path_start : List Text → List Component
path_start [] = []
path_start (segment ∷ segments) = if segment == text "." then cur_dir ∷ [] else []

-- Path::components
unfoldable pub components : Text → List Component
unfolding segment_components
components path =
    let segments = split b'/' path in
    let start = path_start segments in
    (if is_absolute path then root_dir ∷ [] else start) ++ segment_components segments
