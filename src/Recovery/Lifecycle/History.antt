-- ===== src/Recovery/Lifecycle/History.antt =====
-- Sequences of reports applied to a lifecycle of src/paic/recovery/lifecycle.py.
use probabilistic_ai_inciden.Base.{
  ◌+◌, ◌≤◌, ◌<◌, ◌≡◌, refl, ap, sym, ◌∙◌, subst, String, true, false, ◌||◌, Option, none, some,
  List, [], ◌∷◌, map, ◌⊎◌, inl, inr, arith, length, All, leb_false→lt, string_eq, ok,
}
use probabilistic_ai_inciden.Base.Membership.{
  In, In-append_left, In-append_right, Distinct, has_false→not_In,
}
use probabilistic_ai_inciden.Remediation.Models.Plan.{Instant}
use probabilistic_ai_inciden.Recovery.Models.{
  reopened, RecoveryConfig, RecoveryReport, RecoveryLifecycleState, Digests,
}
use probabilistic_ai_inciden.Recovery.Lifecycle.{
  Trigger, new_failures, says_recovered, is_not_later, transition_state,
}
use probabilistic_ai_inciden.Recovery.Lifecycle.Transition.{is_degraded, transition_state-Transits}
use probabilistic_ai_inciden.Recovery.Lifecycle.Reopening.{
  judge_failures, failures_is, ever_is, transition_state-reopens_iff,
}

-- Reports applied one after the other, the newest first.
pub data Applied (digests : Digests) (config : RecoveryConfig) (start : RecoveryLifecycleState)
    : List RecoveryReport → RecoveryLifecycleState → Type 0 where
  none_yet : Applied digests config start [] start
  apply :
      {reports : List RecoveryReport} {state : RecoveryLifecycleState} (report : RecoveryReport)
      (out : RecoveryLifecycleState × Trigger)
      → Applied digests config start reports state
      → transition_state digests state report config ≡ ok out
      → Applied digests config start (report ∷ reports) out.0

-- Each report is later than all before it.
abbrev pub InOrder : List RecoveryReport → Type 0
InOrder [] = Unit
InOrder (r ∷ rs) = All (λ (old : RecoveryReport). old.evaluated_at < r.evaluated_at) rs × InOrder rs

abbrev pub hashes : List RecoveryReport → List String
hashes = map (λ (r : RecoveryReport). r.report_sha256)

abbrev pub IsDegradedReport : RecoveryReport → Type 0
IsDegradedReport r = is_degraded r.decision ≡ true

module _ (digests : Digests) (config : RecoveryConfig) (start : RecoveryLifecycleState) where
  Applied-recorded :
      {reports : List RecoveryReport} {state : RecoveryLifecycleState}
      → Applied digests config start reports state
      → (x : String) → In x (hashes reports)
      → In x state.applied_report_sha256s
  Applied-recorded none_yet x m = absurd m
  Applied-recorded (apply {reports} {state} report out past h) x m =
      let t = transition_state-Transits digests state report config out h in
      let e = ap (λ (s : RecoveryLifecycleState). s.applied_report_sha256s) t.is_next in
      subst (In x) (sym e) (elim m [
        | inl new ↦ In-append_right x state.applied_report_sha256s _ (inl new)
        | inr old ↦ In-append_left x state.applied_report_sha256s _ (Applied-recorded past x old)
      ])

  Applied-older :
      {reports : List RecoveryReport} {state : RecoveryLifecycleState}
      → Applied digests config start reports state
      → (at : Instant) → is_not_later at state.last_evaluated_at ≡ false
      → All (λ (old : RecoveryReport). old.evaluated_at < at) reports
  Applied-older none_yet at h = tt
  Applied-older (apply {reports} {state} report out past h) at later =
      let t = transition_state-Transits digests state report config out h in
      let e = ap (λ (s : RecoveryLifecycleState). s.last_evaluated_at) t.is_next in
      let newer : report.evaluated_at < at =
        leb_false→lt at report.evaluated_at (subst (λ o. is_not_later at o ≡ false) e later) in
      (newer, Applied-older past at (not_later_before state.last_evaluated_at t.fits.later newer))
    where
      not_later_before :
          (o : Option Instant)
          → is_not_later report.evaluated_at o ≡ false
          → report.evaluated_at < at
          → is_not_later at o ≡ false
      not_later_before none h newer = refl
      not_later_before (some last) h newer = ground arith

  -- In every sequence of reports that a lifecycle applied, no report stands twice, each is later
  -- than all before it, and the generation grew by the number of reports.
  pub Applied-once :
      {reports : List RecoveryReport} {state : RecoveryLifecycleState}
      → Applied digests config start reports state
      → Distinct (hashes reports)
        × InOrder reports
        × (state.generation ≡ start.generation + length reports)
  Applied-once none_yet = (tt, tt, omega arith)
  Applied-once (apply {reports} {state} report out past h) =
      let t = transition_state-Transits digests state report config out h in
      let g = ap (λ (s : RecoveryLifecycleState). s.generation) t.is_next in
      let (distinct, ordered, count) = Applied-once past in
      (
        (
          (λ m. has_false→not_In _ _ t.fits.fresh (Applied-recorded past report.report_sha256 m)),
          distinct,
        ),
        (Applied-older past report.evaluated_at t.fits.later, ordered),
        omega (arith, g, count),
      )

  -- A reopened incident stays reopened, whatever reports are applied.
  pub Applied-reopened :
      {reports : List RecoveryReport} {state : RecoveryLifecycleState}
      → Applied digests config start reports state
      → start.status ≡ reopened
      → state.status ≡ reopened
  Applied-reopened none_yet h = h
  Applied-reopened (apply {reports} {state} report out past h) was =
      (transition_state-reopens_iff digests state report config out h).1
        (inl (Applied-reopened past was))

  -- The failures are counted until the incident reopens.
  Applied-counts :
      {reports : List RecoveryReport} {state : RecoveryLifecycleState}
      → Applied digests config start reports state
      → start.ever_recovered ≡ true
      → All IsDegradedReport reports
      → (state.status ≡ reopened)
        ⊎ ((state.ever_recovered ≡ true)
            × (state.consecutive_failed_evaluations
                ≡ start.consecutive_failed_evaluations + length reports))
  Applied-counts none_yet ever bad = inr (ever, omega arith)
  Applied-counts (apply {reports} {state} report out past h) ever bad =
      elim (Applied-counts past ever bad.1) [
        | inl e ↦ inl ((transition_state-reopens_iff digests state report config out h).1 (inl e))
        | inr (had, count) ↦
            elim (judge_failures state report config state.status report.decision bad.0) [
              | inl e ↦
                  inl ((transition_state-reopens_iff digests state report config out h).1 (inl e))
              | inr counted ↦
                  let total : new_failures state ≡ state.consecutive_failed_evaluations + 1 =
                    rw had in
                  inr (
                    ever_is digests state report config out h
                        ∙ ap (λ b. b || says_recovered report.decision) had,
                    omega (
                      arith,
                      count,
                      total,
                      counted,
                      failures_is digests state report config out h,
                    ),
                  )
            ]
      ]

  -- An incident that has recovered before is reopened by reports in a row that say it is not over,
  -- as soon as the failures counted before them and their number reach the configured number.
  pub Applied-sustained :
      {reports : List RecoveryReport} {state : RecoveryLifecycleState}
      → Applied digests config start reports state
      → start.ever_recovered ≡ true
      → All IsDegradedReport reports
      → 1 ≤ length reports
      → config.reopen_after_consecutive_failures
        ≤ start.consecutive_failed_evaluations + length reports
      → state.status ≡ reopened
  Applied-sustained none_yet ever bad some_report enough = absurd (omega arith)
  Applied-sustained (apply {reports} {state} report out past h) ever bad some_report enough =
      (transition_state-reopens_iff digests state report config out h).1
        (elim (Applied-counts past ever bad.1) [
          | inl e ↦ inl e
          | inr (had, count) ↦ inr (bad.0, had, inr (omega (arith, count, enough)))
        ])
