-- ===== src/Tools/Policy.antt =====
-- src/paic/tools/policy.py and the tables of catalogue.py: which role may call which tool.
use probabilistic_ai_inciden.Base.{
  ◌≡◌, ◌∙◌, ap, sym, refl, String, Bool, true, false, not, List, [], ◌∷◌, inl, inr, Bool-cases,
  ◌==◌, ◌!=◌, string_eq, beq→eq, Result, ok, err, if◌then◌else◌,
}
use probabilistic_ai_inciden.Base.Membership.{In, has, has→In}
use probabilistic_ai_inciden.Tools.Json.{Json, no_fields, object}

pub record PolicyDecision : Type 0 where
  pub allowed : Bool
  pub code : String
  pub reason : String
  pub normalized_arguments : Json

-- The tools that a role may call and that only read artifacts.
abbrev observations : List String
observations =
    "evidence.search" ∷ "lineage.trace" ∷ "changes.list" ∷ "runbook.get"
    ∷ "historical_incidents.search" ∷ "anomalies.list" ∷ "impact.summary" ∷ "artifacts.summary" ∷ []

-- The names of `TOOLS`.
unfoldable pub tools : List String
tools = "sql.query" ∷ observations

-- `CAPABILITIES`
unfoldable pub roles : List String
roles = "observer" ∷ "investigator" ∷ "approver" ∷ []

unfoldable pub capabilities : String → List String
capabilities role = if role == "observer" then observations else tools

abbrev pub deny : String → String → PolicyDecision
deny code reason = record {
  allowed = false;
  code = code;
  reason = reason;
  normalized_arguments = object no_fields;
}

abbrev pub of_parsed : Result String Json → PolicyDecision
of_parsed (err message) = deny "invalid_arguments" message
of_parsed (ok parsed) = record {
  allowed = true;
  code = "allowed";
  reason = "policy permits read-only access";
  normalized_arguments = parsed;
}

-- `authorize`, where `parse` validates a tool's arguments by its model, with the message of a
-- `ValidationError`
unfoldable pub authorize :
    (String → Json → Result String Json) → String → String → String → Json → PolicyDecision
authorize parse role tool version arguments =
    if not (has roles role)
    then deny "unknown_role" "role is not registered"
    else (if not (has tools tool)
        then deny "unknown_tool" "tool is not registered"
        else (if not (has (capabilities role) tool)
            then deny "forbidden" "role is not authorized for this tool"
            else (if version != "1.0"
                then deny "unsupported_version" "tool version is not supported"
                else of_parsed (parse tool arguments))))

-- What the policy asks for.
pub record Allowed (parse : String → Json → Result String Json) (role tool version : String)
    (arguments normalized : Json) : Type 0 where
  pub role_known : In role roles
  pub tool_known : In tool tools
  pub capable : In tool (capabilities role)
  pub version_supported : version ≡ "1.0"
  pub parsed : parse tool arguments ≡ ok normalized

module _ (parse : String → Json → Result String Json) (role tool version : String)
    (arguments : Json) where
  abbrev D : PolicyDecision
  D = authorize parse role tool version arguments

  of_parsed-allowed :
      (r : Result String Json)
      → (of_parsed r).allowed ≡ true
      → r ≡ ok (of_parsed r).normalized_arguments
  of_parsed-allowed (ok v) h = refl
  of_parsed-allowed (err e) h = cc

  -- A decision allows exactly a registered role's call of a tool that is one of its own, in the
  -- one version, with arguments that the tool's model accepts.
  pub authorize-Allowed :
      (D.allowed ≡ true) → Allowed parse role tool version arguments D.normalized_arguments
  unfolding authorize
  authorize-Allowed h = elim (Bool-cases (has roles role)) [
    | inr f ↦ absurd (cc (rw (f, authorize) at h))
    | inl a ↦ elim (Bool-cases (has tools tool)) [
      | inr f ↦ absurd (cc (rw (a, f, authorize) at h))
      | inl b ↦ elim (Bool-cases (has (capabilities role) tool)) [
        | inr f ↦ absurd (cc (rw (a, b, f, authorize) at h))
        | inl c ↦ elim (Bool-cases (version == "1.0")) [
          | inr f ↦ absurd (cc (rw (a, b, c, f, authorize) at h))
          | inl d ↦
              let path : D ≡ of_parsed (parse tool arguments) = rw (a, b, c, d, authorize) refl in
              record {
                role_known = has→In _ _ a;
                tool_known = has→In _ _ b;
                capable = has→In _ _ c;
                version_supported = beq→eq _ _ d;
                parsed =
                    of_parsed-allowed (parse tool arguments)
                      (ap (λ (x : PolicyDecision). x.allowed) (sym path) ∙ h)
                    ∙ ap (λ (x : PolicyDecision). ok x.normalized_arguments) (sym path);
              }
        ]
      ]
    ]
  ]
