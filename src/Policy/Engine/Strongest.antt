-- ===== src/Policy/Engine/Strongest.antt =====
-- The maximum by precedence, read as a question of which effects occur.
use networkops_ai_agent.Base.{
  Bool, if◌then◌else◌, List, max_by, ◌≡◌, contains, ◌∷◌, [], arith, ltb, map, any, ◌==◌, refl, ap,
  ◌||◌, nat_eq, string_eq,
}
use networkops_ai_agent.Policy.Engine.{precedence}
use networkops_ai_agent.Policy.Models.{
  PolicyEffect, deny, require_approval, allow, effect_eq, operation_eq, risk_eq,
}

-- Deny wins over approval, and approval over allow.
abbrev pub by_occurrence : Bool → Bool → PolicyEffect
by_occurrence has_deny has_approval =
    if has_deny then deny else if has_approval then require_approval else allow

pub max_by-precedence :
    (best : PolicyEffect) (effects : List PolicyEffect)
    → max_by precedence best effects
      ≡ by_occurrence (contains (best ∷ effects) deny) (contains (best ∷ effects) require_approval)
unfolding max_by precedence contains
max_by-precedence best [] = ground arith
max_by-precedence best (e ∷ effects) =
    ground
      (arith, max_by-precedence (if ltb (precedence best) (precedence e) then e else best) effects)

pub contains-map {ℓ} :
    {A : Type ℓ} (f : A → PolicyEffect) (xs : List A) (effect : PolicyEffect)
    → contains (map f xs) effect ≡ any (λ x. f x == effect) xs
unfolding contains any
contains-map f [] effect = refl
contains-map f (x ∷ xs) effect = ap (λ b. f x == effect || b) (contains-map f xs effect)
