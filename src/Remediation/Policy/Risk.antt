-- ===== src/Remediation/Policy/Risk.antt =====
-- The risk levels of policy.py: `_action_risk` and `_aggregate_risk`.
use probabilistic_ai_inciden.Base.{
  ℕ, ◌+◌, ◌≤◌, ◌≡◌, refl, sym, subst, ◌∙◌, List, [], ◌∷◌, ◌⊎◌, inl, inr, min, arith, All,
  All-weaken, ap, ok,
}
use probabilistic_ai_inciden.Base.Membership.{In}
use probabilistic_ai_inciden.Remediation.Models.{
  RiskLevel, RemediationAction, action_base, action_type, ActionType, feature_flag_set,
  configuration_restore, deployment_rollback, BlastRadius, single_instance, single_service,
  multi_service, region, global,
}
use probabilistic_ai_inciden.Remediation.Severity.{
  risk_order, action_risk, action_score, radius_escalation, risk_at, worse, max_risk,
  aggregate_risk,
}

risk_order-risk_at : (n : ℕ) → risk_order (risk_at (min 3 n)) ≡ min 3 n
unfolding risk_at
risk_order-risk_at n = ground arith

-- An action's risk is the base of its kind, escalated by its blast radius, and capped at critical.
pub risk_order-action_risk :
    (a : RemediationAction)
    → risk_order (action_risk a)
      ≡ min 3 (action_score (action_type a) + radius_escalation (action_base a).blast_radius)
unfolding action_risk
risk_order-action_risk a = risk_order-risk_at _

worse_bounds :
    (best risk : RiskLevel)
    → (risk_order best ≤ risk_order (worse best risk))
      × (risk_order risk ≤ risk_order (worse best risk))
unfolding worse
worse_bounds best risk = ground arith

worse-or : (best risk : RiskLevel) → (worse best risk ≡ best) ⊎ (worse best risk ≡ risk)
unfolding worse
worse-or best risk = ground arith

le-max_risk :
    (best : RiskLevel) (actions : List RemediationAction)
    → risk_order best ≤ risk_order (max_risk best actions)
unfolding max_risk
le-max_risk best [] = omega arith
le-max_risk best (a ∷ rest) =
    omega (arith, worse_bounds best (action_risk a), le-max_risk (worse best (action_risk a)) rest)

All-le-max_risk :
    (best : RiskLevel) (actions : List RemediationAction)
    → All (λ a. risk_order (action_risk a) ≤ risk_order (max_risk best actions)) actions
unfolding max_risk
All-le-max_risk best [] = tt
All-le-max_risk best (a ∷ rest) = (
  omega (arith, worse_bounds best (action_risk a), le-max_risk (worse best (action_risk a)) rest),
  All-le-max_risk (worse best (action_risk a)) rest,
)

max_risk_attained :
    (best : RiskLevel) (actions : List RemediationAction)
    → (max_risk best actions ≡ best)
      ⊎ ((a : RemediationAction) × In a actions × (action_risk a ≡ max_risk best actions))
unfolding max_risk
max_risk_attained best [] = inl refl
max_risk_attained best (a ∷ rest) = elim (max_risk_attained (worse best (action_risk a)) rest) [
  | inr (x, m, e) ↦ inr (x, inr m, e)
  | inl e ↦ elim (worse-or best (action_risk a)) [
    | inl old ↦ inl (e ∙ old)
    | inr new ↦ inr (a, inl refl, sym (e ∙ new))
  ]
]

abbrev pub kind_level : ActionType → ℕ
kind_level feature_flag_set = 0
kind_level configuration_restore = 1
kind_level deployment_rollback = 2

abbrev pub spread_level : BlastRadius → ℕ
spread_level single_instance = 0
spread_level single_service = 0
spread_level multi_service = 1
spread_level region = 2
spread_level global = 3

-- The level of the action's kind, escalated by its blast radius, and at most 3.
abbrev pub level_of : RemediationAction → ℕ
level_of a = min 3 (kind_level (action_type a) + spread_level (action_base a).blast_radius)

kind_level-is : (t : ActionType) → action_score t ≡ kind_level t
unfolding action_score
kind_level-is feature_flag_set = refl
kind_level-is configuration_restore = refl
kind_level-is deployment_rollback = refl

spread_level-is : (r : BlastRadius) → radius_escalation r ≡ spread_level r
unfolding radius_escalation
spread_level-is single_instance = refl
spread_level-is single_service = refl
spread_level-is multi_service = refl
spread_level-is region = refl
spread_level-is global = refl

action_risk_level : (a : RemediationAction) → risk_order (action_risk a) ≡ level_of a
action_risk_level a = risk_order-action_risk a ∙ (λ i.
    min 3 (kind_level-is (action_type a) i + spread_level-is (action_base a).blast_radius i))

pub aggregate_risk_bounds :
    (actions : List RemediationAction) (risk : RiskLevel)
    → aggregate_risk actions ≡ ok risk
    → All (λ a. risk_order (action_risk a) ≤ risk_order risk) actions
      × ((a : RemediationAction) × In a actions × (action_risk a ≡ risk))
unfolding aggregate_risk
aggregate_risk_bounds [] risk h = cc
aggregate_risk_bounds (a ∷ rest) risk h =
    let e : max_risk (action_risk a) rest ≡ risk = cc in
    subst
      (λ r.
        All (λ x. risk_order (action_risk x) ≤ risk_order r) (a ∷ rest)
        × ((x : RemediationAction) × In x (a ∷ rest) × (action_risk x ≡ r)))
      e ((le-max_risk (action_risk a) rest, All-le-max_risk (action_risk a) rest), attained)
  where
    attained :
        (x : RemediationAction) × In x (a ∷ rest) × (action_risk x ≡ max_risk (action_risk a) rest)
    attained = elim (max_risk_attained (action_risk a) rest) [
      | inl e ↦ (a, inl refl, sym e)
      | inr (x, m, e) ↦ (x, inr m, e)
    ]

-- The aggregate risk of a proposal is the greatest level of its actions: the level of each action
-- is at most it, and some action of the proposal has it. The level of an action is 0 for a feature
-- flag, 1 for a configuration and 2 for a rollback, and one more for each step of the blast radius
-- beyond a service, but at most 3.
pub aggregate_risk_greatest :
    (actions : List RemediationAction) (risk : RiskLevel)
    → aggregate_risk actions ≡ ok risk
    → All (λ a. level_of a ≤ risk_order risk) actions
      × ((a : RemediationAction) × In a actions × (level_of a ≡ risk_order risk))
aggregate_risk_greatest actions risk h =
    let (bounded, (a, m, same)) = aggregate_risk_bounds actions risk h in
    (
      All-weaken (λ x le. subst (λ n. n ≤ risk_order risk) (action_risk_level x) le) actions
          bounded,
      (a, m, sym (action_risk_level a) ∙ ap risk_order same),
    )
