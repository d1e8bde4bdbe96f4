-- ===== src/Hostnames.antt =====
-- sunbeam-python/sunbeam/utils.py, `hostnames_match` and `match_hostname`.
pub mod Matching
mod Samples
use snap_openstack.Prelude.{
  String, Bool, ◌||◌, Option, none, some, List, [], ◌∷◌, keep, elem, starts_with, join, ◌==◌,
  string_eq, if◌then◌else◌,
}

unfoldable pub hostnames_match : String → String → Bool
hostnames_match name other =
    name == other || starts_with name (join other ".") || starts_with other (join name ".")

-- The set of the texts of a list, as a list without repetition.
unfoldable pub to_set : List String → List String
to_set [] = []
to_set (x ∷ xs) = let rest = to_set xs in if elem x rest then rest else x ∷ rest

-- `matches.pop() if len(matches) == 1 else None`
unfoldable pub only : List String → Option String
only (x ∷ []) = some x
only _ = none

unfoldable pub match_hostname : String → List String → Option String
unfolding to_set only
match_hostname name candidates =
    if elem name candidates
    then some name
    else only (to_set (keep (hostnames_match name) candidates))
