-- ===== src/Rbac/PermissionEngine/Highest.antt =====
-- The loop that finds the highest of the levels of a role.
use pool_shrpnt.Prelude.{
  ℕ, ◌≤◌, ◌≡◌, refl, Bool, true, false, ◌||◌, inl, inr, List, [], ◌∷◌, arith, ltb, if◌then◌else◌,
  Bool-cases, All,
}
use mathlib.Core.Path.{subst}
use pool_shrpnt.Prelude.Table.{exists}
use pool_shrpnt.Rbac.Model.{PermissionLevel, read, write, delete, manage, level_eq, level_eq_refl}
use pool_shrpnt.Rbac.PermissionEngine.{EffectivePermission, rank, raise_level}

-- One round of the loop, from a level and its own number on.
module _ (level : PermissionLevel) (p : EffectivePermission) (ps : List EffectivePermission) where
  raise_level-more :
      ltb (rank level) (rank p.permission_level) ≡ true
      → raise_level p.permission_level (rank p.permission_level) ps
        ≡ raise_level level (rank level) (p ∷ ps)
  unfolding raise_level
  raise_level-more h = rw h refl

  raise_level-less :
      ltb (rank level) (rank p.permission_level) ≡ false
      → raise_level level (rank level) ps ≡ raise_level level (rank level) (p ∷ ps)
  unfolding raise_level
  raise_level-less h = rw h refl

-- A level above all others, and one that occurs among them.
abbrev pub IsUpper : PermissionLevel → List EffectivePermission → PermissionLevel → Type 0
IsUpper level ps top = (rank level ≤ rank top) × All (λ p. rank p.permission_level ≤ rank top) ps

abbrev pub is_attained : PermissionLevel → List EffectivePermission → PermissionLevel → Bool
is_attained level ps top = level_eq level top || exists (λ p. level_eq p.permission_level top) ps

module _ (level : PermissionLevel) (p : EffectivePermission) where
  less_rank :
      ltb (rank level) (rank p.permission_level) ≡ true → rank level ≤ rank p.permission_level
  less_rank h = ground arith

  more_rank :
      ltb (rank level) (rank p.permission_level) ≡ false → rank p.permission_level ≤ rank level
  more_rank h = ground arith

le_trans : (a b c : ℕ) → a ≤ b → b ≤ c → a ≤ c
le_trans a b c h k = omega (arith, h, k)

pub raise_level-IsUpper :
    (level : PermissionLevel) (ps : List EffectivePermission)
    → IsUpper level ps (raise_level level (rank level) ps)
unfolding raise_level
raise_level-IsUpper level [] = (omega arith, tt)
raise_level-IsUpper level (p ∷ ps) =
    elim (Bool-cases (ltb (rank level) (rank p.permission_level))) [
      | inl more ↦
          let (own, others) = raise_level-IsUpper p.permission_level ps in
          subst (IsUpper level (p ∷ ps)) (raise_level-more level p ps more)
            (le_trans _ _ _ (less_rank level p more) own, (own, others))
      | inr less ↦
          let (own, others) = raise_level-IsUpper level ps in
          subst (IsUpper level (p ∷ ps)) (raise_level-less level p ps less)
            (own, (le_trans _ _ _ (more_rank level p less) own, others))
    ]

or_later : (a b c : Bool) → (b || c) ≡ true → (a || (if b then true else c)) ≡ true
or_later a b c h = ground arith

or_skip : (a b c : Bool) → (a || c) ≡ true → (a || (if b then true else c)) ≡ true
or_skip a b c h = ground arith

pub raise_level-is_attained :
    (level : PermissionLevel) (ps : List EffectivePermission)
    → is_attained level ps (raise_level level (rank level) ps) ≡ true
unfolding raise_level
raise_level-is_attained level [] = rw (level_eq_refl level) refl
raise_level-is_attained level (p ∷ ps) =
    elim (Bool-cases (ltb (rank level) (rank p.permission_level))) [
      | inl more ↦
          subst (λ top. is_attained level (p ∷ ps) top ≡ true) (raise_level-more level p ps more)
            (or_later (level_eq level _) (level_eq p.permission_level _) _
              (raise_level-is_attained p.permission_level ps))
      | inr less ↦
          subst (λ top. is_attained level (p ∷ ps) top ≡ true) (raise_level-less level p ps less)
            (or_skip (level_eq level _) (level_eq p.permission_level _) _
              (raise_level-is_attained level ps))
    ]

rank_pos : (l : PermissionLevel) → ltb 0 (rank l) ≡ true
rank_pos read = refl
rank_pos write = refl
rank_pos delete = refl
rank_pos manage = refl

-- The first permission of a group sets the level.
pub raise_level-first :
    (p : EffectivePermission) (ps : List EffectivePermission)
    → raise_level p.permission_level (rank p.permission_level) ps ≡ raise_level read 0 (p ∷ ps)
unfolding raise_level
raise_level-first p ps = rw (rank_pos p.permission_level) refl
