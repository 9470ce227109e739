-- ===== src/Recovery/Store/Replay.antt =====
-- What the generations that pass `_validate_lineage_locked` of src/paic/recovery/lifecycle.py are:
-- a replay of their reports.
use probabilistic_ai_inciden.Base.{
  ℕ, suc, ◌+◌, ◌≡◌, refl, ap, ◌∙◌, subst, String, not, ◌||◌, List, [], ◌∷◌, ◌++◌, arith, length,
  ◌!=◌, string_eq, nat_eq, passes_ne, ||_false, ok, >>=-eq-ok, reject_if-eq-ok, ok-injective,
  map_err, Result, err,
}
use probabilistic_ai_inciden.Recovery.Models.{
  RecoveryConfig, RecoveryReport, RecoveryLifecycleState, lifecycle_is_valid, report_is_valid,
}
use probabilistic_ai_inciden.Recovery.Lifecycle.{TransitionError, transition_state}
use probabilistic_ai_inciden.Recovery.Lifecycle.Transition.{transition_state-Transits}
use probabilistic_ai_inciden.Recovery.Lifecycle.History
use probabilistic_ai_inciden.Recovery.Lifecycle.History.{Applied, none_yet}
use probabilistic_ai_inciden.Recovery.Store.{
  Generation, StoreDigests, inconsistent_generation, report_mismatch, event_mismatch, broken_chain,
  inconsistent_transition, inconsistent_bindings, replay_differs, invalid_state, invalid_report,
  transition_failed, lifecycle_status_eq, trigger_eq, lifecycle_state_eq, check_generation,
  check_generations, current_of,
}

-- The reports of the generations, the newest first, before those that are given.
abbrev pub newest_first : List RecoveryReport → List Generation → List RecoveryReport
newest_first older [] = older
newest_first older (g ∷ rest) = newest_first (g.report ∷ older) rest

pub newest_first-snoc :
    (older : List RecoveryReport) (gens : List Generation) (g : Generation)
    → newest_first older (gens ++ g ∷ []) ≡ g.report ∷ newest_first older gens
newest_first-snoc older [] g = refl
newest_first-snoc older (x ∷ rest) g = newest_first-snoc (x.report ∷ older) rest g

pub map_err-eq-ok :
    {A : Type 0} (m : Result TransitionError A) {a : A}
    → map_err transition_failed m ≡ ok a
    → m ≡ ok a
map_err-eq-ok (ok a) h = ap ok (ok-injective h)
map_err-eq-ok (err e) h = cc

module _ (crypto : StoreDigests) (config : RecoveryConfig) where
  -- What a generation that passes was made by.
  check_generation_sound :
      (n : ℕ) (previous : RecoveryLifecycleState) (previous_hash : String) (g : Generation)
      → check_generation crypto config n previous previous_hash g ≡ ok tt
      → (g.state.generation ≡ n)
        × (transition_state crypto.digests previous g.report config ≡ ok (g.state, g.event.trigger))
  unfolding check_generation
  check_generation_sound n previous previous_hash g h =
      let (_, h0) = reject_if-eq-ok (not (lifecycle_is_valid g.state)) invalid_state _ h in
      let (e, h1) = reject_if-eq-ok (g.state.generation != n) inconsistent_generation _ h0 in
      let (_, h2) = reject_if-eq-ok (not (report_is_valid g.report.body)) invalid_report _ h1 in
      let (_, h3) =
        reject_if-eq-ok (g.report.report_sha256 != crypto.digests.report_digest g.report.body)
          report_mismatch _ h2 in
      let (_, h4) =
        reject_if-eq-ok (g.event.event_sha256 != crypto.event_digest g.event.body) event_mismatch _
          h3 in
      let (_, h5) =
        reject_if-eq-ok (g.event.previous_event_sha256 != previous_hash) broken_chain _ h4 in
      let (_, h6) =
        reject_if-eq-ok
          (g.event.from_status != previous.status || g.event.to_status != g.state.status)
          inconsistent_transition _ h5 in
      let (_, h7) =
        reject_if-eq-ok
          (g.event.recovery_id != g.state.recovery_id
            || g.event.incident_id != g.state.incident_id
            || g.event.config_sha256 != g.state.config_sha256
            || g.event.report_sha256 != g.report.report_sha256
            || g.event.before_state_sha256 != crypto.state_digest previous
            || g.event.after_state_sha256 != crypto.state_digest g.state)
          inconsistent_bindings _ h6 in
      let (out, moved, h8) =
        >>=-eq-ok
          (map_err transition_failed (transition_state crypto.digests previous g.report config)) _
          h7 in
      let (same, _) =
        reject_if-eq-ok (out.0 != g.state || out.1 != g.event.trigger) replay_differs _ h8 in
      let (p, q) = ||_false (out.0 != g.state) _ same in
      (
        passes_ne _ _ e,
        map_err-eq-ok _ moved
            ∙ (λ i. ok (passes_ne out.0 g.state p i, passes_ne out.1 g.event.trigger q i)),
      )

  -- What holds at the end of generations that pass.
  pub record Ends (n : ℕ) (previous current : RecoveryLifecycleState) (gens : List Generation)
      : Type 0 where
    pub numbered : current.generation + 1 ≡ n + length gens
    pub same_policy : current.config_sha256 ≡ previous.config_sha256

  pub check_generations-Ends :
      (n : ℕ) (previous : RecoveryLifecycleState) (previous_hash : String) (gens : List Generation)
      → previous.generation + 1 ≡ n
      → check_generations crypto config n previous previous_hash gens ≡ ok tt
      → Ends n previous (current_of previous previous_hash gens).0 gens
  unfolding check_generations current_of
  check_generations-Ends n previous previous_hash [] at h = record {
    numbered = omega (arith, at);
    same_policy = refl;
  }
  check_generations-Ends n previous previous_hash (g ∷ rest) at h =
      let (_, passed, h1) =
        >>=-eq-ok (check_generation crypto config n previous previous_hash g) _ h in
      let (number, moved) = check_generation_sound n previous previous_hash g passed in
      let t =
        transition_state-Transits crypto.digests previous g.report config (g.state, g.event.trigger)
          moved in
      let ih =
        check_generations-Ends (suc n) g.state g.event.event_sha256 rest (omega (arith, number))
          h1 in
      record {
        numbered = omega (arith, ih.numbered);
        same_policy =
            ih.same_policy ∙ ap (λ (s : RecoveryLifecycleState). s.config_sha256) t.is_next;
      }

  pub check_generations-Applied :
      (start previous : RecoveryLifecycleState) (n : ℕ) (previous_hash : String)
      (older : List RecoveryReport) (gens : List Generation)
      → Applied crypto.digests config start older previous
      → check_generations crypto config n previous previous_hash gens ≡ ok tt
      → Applied crypto.digests config start
          (newest_first older gens)
          (current_of previous previous_hash gens).0
  unfolding check_generations current_of
  check_generations-Applied start previous n previous_hash older [] past h = past
  check_generations-Applied start previous n previous_hash older (g ∷ rest) past h =
      let (_, passed, h1) =
        >>=-eq-ok (check_generation crypto config n previous previous_hash g) _ h in
      let (_, moved) = check_generation_sound n previous previous_hash g passed in
      check_generations-Applied start g.state (suc n) g.event.event_sha256 (g.report ∷ older) rest
        (History.apply g.report (g.state, g.event.trigger) past moved) h1

  pub check_generations-snoc :
      (n : ℕ) (previous : RecoveryLifecycleState) (previous_hash : String) (gens : List Generation)
      (g : Generation)
      → check_generations crypto config n previous previous_hash gens ≡ ok tt
      → check_generation crypto config
          (n + length gens)
          (current_of previous previous_hash gens).0
          (current_of previous previous_hash gens).1
          g
        ≡ ok tt
      → check_generations crypto config n previous previous_hash (gens ++ g ∷ []) ≡ ok tt
  unfolding check_generations current_of
  check_generations-snoc n previous previous_hash [] g h k =
      let at : n + 0 ≡ n = omega arith in
      rw (subst (λ m. check_generation crypto config m previous previous_hash g ≡ ok tt) at k) refl
  check_generations-snoc n previous previous_hash (x ∷ rest) g h k =
      let (_, passed, h1) =
        >>=-eq-ok (check_generation crypto config n previous previous_hash x) _ h in
      let at : n + suc (length rest) ≡ suc n + length rest = omega arith in
      rw passed (
        check_generations-snoc (suc n) x.state x.event.event_sha256 rest g h1 (
          subst
            (λ m.
              check_generation crypto config m (current_of x.state x.event.event_sha256 rest).0
                (current_of x.state x.event.event_sha256 rest).1 g
              ≡ ok tt)
            at k))
