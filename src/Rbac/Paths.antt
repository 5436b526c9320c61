-- ===== src/Rbac/Paths.antt =====
-- Folder paths: `get_parent_path` and `should_break_inheritance` of
-- api/services/rbac/inheritance_service.py.
pub mod Parents
use pool_shrpnt.Prelude.{
  ℕ, Bool, true, false, ◌&&◌, ◌||◌, List, [], ◌∷◌, Option, none, some, ◌==◌, if◌then◌else◌,
}
use pool_shrpnt.Prelude.Text.{Text, codes, contains, starts_with}

-- `path.rsplit("/", 1)[0]`, if there is a slash.
unfoldable pub before_last_slash : Text → Option Text
before_last_slash [] = none
before_last_slash (c ∷ s) = elim (before_last_slash s) [
  | some p ↦ some (c ∷ p)
  | none ↦ if c == 47 then some [] else none
]

-- `parts[0] if parts[0] else None`
unfoldable pub get_parent_path : Text → Option Text
unfolding before_last_slash
get_parent_path folder_path = elim (before_last_slash folder_path) [
  | none ↦ none
  | some p ↦ elim p [ [] ↦ none | c ∷ s ↦ some (c ∷ s) ]
]

-- `path.split("/")`
abbrev pub put_first : ℕ → List Text → List Text
put_first c [] = (c ∷ []) ∷ []
put_first c (part ∷ parts) = (c ∷ part) ∷ parts

unfoldable pub split : Text → List Text
split [] = [] ∷ []
split (c ∷ s) = let parts = split s in if c == 47 then [] ∷ parts else put_first c parts

-- The loop over the parts: does the last one start with "CEG_"?
unfoldable pub last_is_partner : List Text → Bool
unfolding starts_with
last_is_partner [] = false
last_is_partner (part ∷ []) = starts_with part (codes "CEG_")
last_is_partner (part ∷ next ∷ parts) = last_is_partner (next ∷ parts)

abbrev pub sensitive_folder_patterns : List Text
sensitive_folder_patterns =
    codes "Pénzügyi"
    ∷ codes "PENZUGYI"
    ∷ codes "NEÜ-only"
    ∷ codes "VEGLEGES"
    ∷ codes "FINAL"
    ∷ codes "BIZALMAS"
    ∷ codes "CONFIDENTIAL"
    ∷ []

unfoldable pub contains_any : List Text → Text → Bool
unfolding contains
contains_any [] s = false
contains_any (pattern_text ∷ patterns) s = contains s pattern_text || contains_any patterns s

unfoldable pub should_break_inheritance : Text → Bool
unfolding contains_any last_is_partner split contains
should_break_inheritance folder_path =
    contains_any sensitive_folder_patterns folder_path
    || (contains folder_path (codes "/CEG_") && last_is_partner (split folder_path))
