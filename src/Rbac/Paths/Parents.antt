-- ===== src/Rbac/Paths/Parents.antt =====
-- The parent of a path: it is shorter, and it is what a name was appended to.
use pool_shrpnt.Prelude.{
  ℕ, ◌<◌, ◌≡◌, refl, false, inl, inr, [], ◌∷◌, ◌++◌, none, some, arith, ◌==◌, Option-cases, All,
  length,
}
use pool_shrpnt.Prelude.Text.{Text}
use pool_shrpnt.Rbac.Paths.{before_last_slash, get_parent_path}

before_last_slash-shorter :
    (s : Text) {p : Text} → before_last_slash s ≡ some p → length p < length s
unfolding before_last_slash
before_last_slash-shorter [] h = cc
before_last_slash-shorter (c ∷ s) {p} h = elim (Option-cases (before_last_slash s)) [
  | inl missing ↦ ground (arith, missing)
  | inr (q, found) ↦ ground (arith, found, before_last_slash-shorter s found)
]

pub get_parent_path-shorter :
    (s : Text) {p : Text} → get_parent_path s ≡ some p → length p < length s
unfolding get_parent_path
get_parent_path-shorter s {p} h = elim (Option-cases (before_last_slash s)) [
  | inl missing ↦ ground (arith, missing)
  | inr (q, found) ↦ ground (arith, found, before_last_slash-shorter s found)
]

-- A name holds no slash.
abbrev pub IsName : Text → Type 0
IsName = All (λ (c : ℕ). (c == 47) ≡ false)

name-no_slash : (s : Text) → IsName s → before_last_slash s ≡ none
unfolding before_last_slash
name-no_slash [] h = refl
name-no_slash (c ∷ s) h = ground (arith, name-no_slash s h.1)

before_last_slash-append :
    (p name : Text) → IsName name → before_last_slash (p ++ 47 ∷ name) ≡ some p
unfolding before_last_slash
before_last_slash-append [] name h = rw (name-no_slash name h)
before_last_slash-append (c ∷ p) name h = rw (before_last_slash-append p name h)

-- The parent of a path to which a name was appended behind a slash is that path.
pub get_parent_path-append :
    (c : ℕ) (p name : Text) → IsName name → get_parent_path ((c ∷ p) ++ 47 ∷ name) ≡ some (c ∷ p)
unfolding get_parent_path
get_parent_path-append c p name h = rw (before_last_slash-append (c ∷ p) name h)
