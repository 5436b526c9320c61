-- ===== src/Rbac/FolderTypes.antt =====
-- `PermissionEngine.classify_folder_type` of api/services/rbac/permission_engine.py. A `.` in its
-- regular expressions matches all but a line feed, so they only see the first line of a path.
use pool_shrpnt.Prelude.{
  ℕ, ◌+◌, Bool, false, ◌&&◌, ◌||◌, List, [], ◌∷◌, ltb, leb, ◌==◌, if◌then◌else◌,
}
use pool_shrpnt.Prelude.Text.{Text, codes, contains, starts_with}
use pool_shrpnt.Rbac.Roles.{FolderType, standard, financial, neu_only, final, partner_specific}

-- The text before the first line feed.
unfoldable pub first_line : Text → Text
first_line [] = []
first_line (c ∷ s) = let rest = first_line s in if c == 10 then [] else c ∷ rest

-- The digits zero of Unicode; the other nine of a script follow its zero.
abbrev zeros : List ℕ
zeros =
    48 ∷ 1632 ∷ 1776 ∷ 1984 ∷ 2406 ∷ 2534 ∷ 2662 ∷ 2790 ∷ 2918 ∷ 3046 ∷ 3174 ∷ 3302 ∷ 3430 ∷ 3558
    ∷ 3664 ∷ 3792 ∷ 3872 ∷ 4160 ∷ 4240 ∷ 6112 ∷ 6160 ∷ 6470 ∷ 6608 ∷ 6784 ∷ 6800 ∷ 6992 ∷ 7088
    ∷ 7232 ∷ 7248 ∷ 42528 ∷ 43216 ∷ 43264 ∷ 43472 ∷ 43504 ∷ 43600 ∷ 44016 ∷ 65296 ∷ 66720 ∷ 68912
    ∷ 69734 ∷ 69872 ∷ 69942 ∷ 70096 ∷ 70384 ∷ 70736 ∷ 70864 ∷ 71248 ∷ 71360 ∷ 71472 ∷ 71904 ∷ 72016
    ∷ 72784 ∷ 73040 ∷ 73120 ∷ 92768 ∷ 92864 ∷ 93008 ∷ 120782 ∷ 120792 ∷ 120802 ∷ 120812 ∷ 120822
    ∷ 123200 ∷ 123632 ∷ 125264 ∷ 130032 ∷ []

abbrev in_decade : ℕ → List ℕ → Bool
in_decade c [] = false
in_decade c (z ∷ zs) = leb z c && ltb c (z + 10) || in_decade c zs

-- `\d`
unfoldable pub is_digit : ℕ → Bool
is_digit c = in_decade c zeros

-- `/CEG_\d{2}/` at the start of a text.
unfoldable pub starts_with_partner : Text → Bool
unfolding is_digit
starts_with_partner (a ∷ b ∷ c ∷ d ∷ e ∷ x ∷ y ∷ z ∷ _) =
    a == 47 && b == 67 && c == 69 && d == 71 && e == 95 && is_digit x && is_digit y && z == 47
starts_with_partner _ = false

-- `.*/CEG_\d{2}/.*`, on a text without a line feed.
unfoldable pub has_partner : Text → Bool
unfolding starts_with_partner
has_partner [] = false
has_partner (c ∷ s) = starts_with_partner (c ∷ s) || has_partner s

unfoldable pub is_partner_path : Text → Bool
unfolding has_partner first_line
is_partner_path folder_path = has_partner (first_line folder_path)

unfoldable pub classify_folder_type : Text → FolderType
unfolding is_partner_path first_line contains starts_with
classify_folder_type folder_path =
    let line = first_line folder_path in
    if contains line (codes "Pénzügyi")
      || contains line (codes "pénzügyi")
      || contains line (codes "PENZUGYI")
    then financial
    else if starts_with line (codes "NEÜ-") || contains line (codes "NEÜ-only")
    then neu_only
    else if contains line (codes "VEGLEGES") || contains line (codes "FINAL")
    then final
    else if is_partner_path folder_path
    then partner_specific
    else standard
