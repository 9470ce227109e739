-- ===== src/Recovery/Store/Lineage.antt =====
-- What the validation of a lineage in src/paic/recovery/lifecycle.py establishes, and that `apply`
-- keeps it.
use Prim.Native.String.{slice}
use probabilistic_ai_inciden.Base.Membership.{In}
use probabilistic_ai_inciden.Base.{
  suc, ◌↔◌, keep, length-append, ℕ, ◌+◌, ◌≡◌, refl, ap, sym, ◌∙◌, subst, String, true, false, not,
  ◌||◌, List, [], ◌∷◌, ◌++◌, arith, length, ◌!=◌, string_eq, nat_eq, passes_ne, same→passes,
  or_false, ||_false, not-false, ok, >>=-eq-ok, reject_if-eq-ok, reject_if-false, ok-injective,
  map_err,
}
use probabilistic_ai_inciden.Recovery.Models.{
  RecoveryConfig, RecoveryReport, RecoveryLifecycleState, lifecycle_is_valid, report_is_valid,
}
use probabilistic_ai_inciden.Recovery.Lifecycle.{Trigger, transition_state}
use probabilistic_ai_inciden.Recovery.Lifecycle.Transition.{transition_state-Transits}
use probabilistic_ai_inciden.Recovery.Lifecycle.History.{Applied, none_yet}
use probabilistic_ai_inciden.Recovery.Store.{
  Generation, RecoveryStateStore, StoreDigests, inconsistent_generation, unbound_policy,
  duplicate_generations, DirectoryName, directory_name_eq, has_duplicates, invalid_state,
  transition_failed, lifecycle_status_eq, trigger_eq, lifecycle_state_eq, zero_hash, new_event,
  check_generation, check_generations, validate_lineage, current_of, apply,
}
use probabilistic_ai_inciden.Recovery.Store.Replay.{
  newest_first, map_err-eq-ok, check_generations-Ends, check_generations-Applied,
  check_generations-snoc,
}
use probabilistic_ai_inciden.Recovery.Store.Names.{keep-alone}

same_text : (t : String) → (t != t) ≡ false
same_text t = same→passes t t refl

module _ (crypto : StoreDigests) (config : RecoveryConfig) where
  -- The generation that `apply` adds passes.
  new_generation-passes :
      (n : ℕ) (previous : RecoveryLifecycleState) (previous_hash : String) (report : RecoveryReport)
      (out : RecoveryLifecycleState × Trigger)
      → report_is_valid report.body ≡ true
      → previous.generation + 1 ≡ n
      → transition_state crypto.digests previous report config ≡ ok out
      → check_generation crypto config n previous previous_hash (record {
        state = out.0;
        event = new_event crypto previous out.0 report out.1 previous_hash;
        report = report;
      })
        ≡ ok tt
  unfolding check_generation new_event
  new_generation-passes n previous previous_hash report out good at moved =
      let t = transition_state-Transits crypto.digests previous report config out moved in
      let number = ap (λ (s : RecoveryLifecycleState). s.generation) t.is_next ∙ at in
      reject_if-false _ _ _ (ap not t.is_valid) (
        reject_if-false _ _ _ (same→passes _ _ number) (
          reject_if-false _ _ _ (ap not good) (
            reject_if-false _ _ _ (same→passes _ _ t.fits.own_hash) (
              reject_if-false _ _ _
                (same_text
                  (new_event crypto previous out.0 report out.1 previous_hash).event_sha256)
                (reject_if-false _ _ _ (same_text previous_hash) (
                  reject_if-false _ _ _
                    (or_false (same→passes previous.status previous.status refl)
                      (same→passes out.0.status out.0.status refl))
                    (reject_if-false _ _ _
                      (or_false
                        (or_false
                          (or_false
                            (or_false
                              (or_false (same_text out.0.recovery_id) (same_text out.0.incident_id))
                              (same_text out.0.config_sha256))
                            (same_text report.report_sha256))
                          (same_text (crypto.state_digest previous)))
                        (same_text (crypto.state_digest out.0)))
                      (rw moved (
                        reject_if-false _ _ _
                          (or_false (same→passes out.0 out.0 refl) (same→passes out.1 out.1 refl))
                          refl)))))))))

module _ (crypto : StoreDigests) (store : RecoveryStateStore) where
  -- The tests before the loop, and the loop.
  record Lineage : Type 0 where
    pub alone : has_duplicates (length store.later) store.left_over ≡ false
    pub valid : lifecycle_is_valid store.initial ≡ true
    pub first : store.initial.generation ≡ 0
    pub bound : crypto.digests.config_digest store.config ≡ store.initial.config_sha256
    pub generations :
        check_generations crypto store.config 1 store.initial zero_hash store.later ≡ ok tt

  validate_lineage-Lineage : validate_lineage crypto store ≡ ok tt → Lineage
  unfolding validate_lineage
  validate_lineage-Lineage h =
      let (d, h0) =
        reject_if-eq-ok (has_duplicates (length store.later) store.left_over) duplicate_generations
          _ h in
      let (v, h1) = reject_if-eq-ok (not (lifecycle_is_valid store.initial)) invalid_state _ h0 in
      let (z, h2) = reject_if-eq-ok (store.initial.generation != 0) inconsistent_generation _ h1 in
      let (p, h3) =
        reject_if-eq-ok
          (crypto.digests.config_digest store.config != store.initial.config_sha256
            || store.config.recovery_id != store.initial.recovery_id
            || store.config.incident_id != store.initial.incident_id)
          unbound_policy _ h2 in
      let (first_two, _) =
        ||_false
          (crypto.digests.config_digest store.config != store.initial.config_sha256
            || store.config.recovery_id != store.initial.recovery_id)
          _ p in
      record {
        alone = d;
        valid = not-false _ v;
        first = passes_ne _ _ z;
        bound =
            passes_ne _ _
              (||_false (crypto.digests.config_digest store.config != store.initial.config_sha256) _
                first_two).0;
        generations = h3;
      }

  -- A store whose lineage validates is a replay: its reports, applied by `transition_state` one
  -- after the other to its first state, give its current state.
  pub validate_lineage-replays :
      validate_lineage crypto store ≡ ok tt
      → Applied crypto.digests store.config store.initial
          (newest_first [] store.later)
          (current_of store.initial zero_hash store.later).0
  validate_lineage-replays h =
      check_generations-Applied crypto store.config store.initial store.initial 1 zero_hash []
        store.later none_yet (validate_lineage-Lineage h).generations

  same_tests :
      (later : List Generation) (left_over : List DirectoryName)
      → validate_lineage crypto store ≡ ok tt
      → check_generations crypto store.config 1 store.initial zero_hash later ≡ ok tt
      → (validate_lineage crypto (record store { later = later; left_over = left_over }) ≡ ok tt)
        ↔ (has_duplicates (length later) left_over ≡ false)
  unfolding validate_lineage
  same_tests later left_over h k =
      let (_, h0) =
        reject_if-eq-ok (has_duplicates (length store.later) store.left_over) duplicate_generations
          _ h in
      let (v, h1) = reject_if-eq-ok (not (lifecycle_is_valid store.initial)) invalid_state _ h0 in
      let (z, h2) = reject_if-eq-ok (store.initial.generation != 0) inconsistent_generation _ h1 in
      let (p, h3) =
        reject_if-eq-ok
          (crypto.digests.config_digest store.config != store.initial.config_sha256
            || store.config.recovery_id != store.initial.recovery_id
            || store.config.incident_id != store.initial.incident_id)
          unbound_policy _ h2 in
      (
        λ w.
            (reject_if-eq-ok (has_duplicates (length later) left_over) duplicate_generations _ w).0,
        λ d.
            reject_if-false _ _ _ d
              (reject_if-false _ _ _ v (reject_if-false _ _ _ z (reject_if-false _ _ _ p k))),
      )

  -- What an `apply` that returned did.
  record HasApplied (report : RecoveryReport) (after : RecoveryStateStore) : Type 0 where
    pub generation : Generation
    pub leaves : after ≡ record store {
      later = store.later ++ generation ∷ [];
      left_over =
          keep
            (λ d. d != record {
              number = suc (length store.later);
              suffix = slice generation.event.event_sha256 0 16;
            })
            store.left_over;
    }
    pub reported : generation.report ≡ report
    pub before : validate_lineage crypto store ≡ ok tt
    pub checked :
        check_generations crypto store.config 1 store.initial zero_hash
          (store.later ++ generation ∷ [])
        ≡ ok tt

  apply-HasApplied :
      (report : RecoveryReport) (config : RecoveryConfig) (after : RecoveryStateStore)
      → (crypto.digests.config_digest config ≡ crypto.digests.config_digest store.config
          → config ≡ store.config)
      → report_is_valid report.body ≡ true
      → apply crypto store report config ≡ ok after
      → HasApplied report after
  unfolding apply
  apply-HasApplied report config after free good h =
      let current = current_of store.initial zero_hash store.later in
      let (_, before, h1) = >>=-eq-ok (validate_lineage crypto store) _ h in
      let (moved, made, h2) =
        >>=-eq-ok
          (map_err transition_failed (transition_state crypto.digests current.0 report config)) _
          h1 in
      let out = map_err-eq-ok _ made in
      let t = transition_state-Transits crypto.digests current.0 report config moved out in
      let lineage = validate_lineage-Lineage before in
      let ends =
        check_generations-Ends crypto store.config 1 store.initial zero_hash store.later
          (omega (arith, lineage.first)) lineage.generations in
      let same = free (t.fits.policy ∙ ends.same_policy ∙ sym lineage.bound) in
      let g : Generation = record {
        state = moved.0;
        event = new_event crypto current.0 moved.0 report moved.1 current.1;
        report = report;
      } in
      let passes =
        new_generation-passes crypto store.config (1 + length store.later) current.0 current.1
          report moved good ends.numbered
          (subst (λ c. transition_state crypto.digests current.0 report c ≡ ok moved) same out) in
      let number = ap (λ (s : RecoveryLifecycleState). s.generation) t.is_next in
      let numbered : moved.0.generation ≡ suc (length store.later) =
        omega (arith, number, ends.numbered) in
      record {
        generation = g;
        leaves =
            sym (ok-injective h2)
            ∙ ap
                (λ (n : ℕ). record store {
                  later = store.later ++ g ∷ [];
                  left_over =
                      keep
                        (λ (d : DirectoryName).
                          d != record { number = n; suffix = slice g.event.event_sha256 0 16 })
                        store.left_over;
                })
                numbered;
        reported = refl;
        before = before;
        checked =
            check_generations-snoc crypto store.config 1 store.initial zero_hash store.later g
              lineage.generations passes;
      }

  -- Where the digest of the given configuration collides with that of the stored one only if they
  -- are equal: `apply` of a valid report, when it returns, leaves a store whose generations are
  -- those before and one with the report; and its lineage validates exactly when no directory that
  -- an earlier call left has the number of the new generation and another name, which ends in the
  -- hash of the event.
  pub apply-validates_iff :
      (report : RecoveryReport) (config : RecoveryConfig) (after : RecoveryStateStore)
      → (crypto.digests.config_digest config ≡ crypto.digests.config_digest store.config
          → config ≡ store.config)
      → report_is_valid report.body ≡ true
      → apply crypto store report config ≡ ok after
      → (new : Generation) × (after.later ≡ store.later ++ new ∷ [])
        × (new.report ≡ report)
        × ((validate_lineage crypto after ≡ ok tt) ↔ (
            (d : DirectoryName)
            → In d store.left_over
            → d.number ≡ suc (length store.later)
            → d.suffix ≡ slice new.event.event_sha256 0 16))
  apply-validates_iff report config after free good h =
      let a = apply-HasApplied report config after free good h in
      let suffix = slice a.generation.event.event_sha256 0 16 in
      let n = length store.later in
      let kept =
        keep (λ (d : DirectoryName). d != record { number = suc n; suffix = suffix })
          store.left_over in
      let tests = same_tests (store.later ++ a.generation ∷ []) kept a.before a.checked in
      let room = keep-alone n store.left_over suffix (validate_lineage-Lineage a.before).alone in
      let longer = length-append store.later (a.generation ∷ []) in
      let at : length (store.later ++ a.generation ∷ []) ≡ suc n = omega (arith, longer) in
      (
        a.generation,
        ap (λ (s : RecoveryStateStore). s.later) a.leaves,
        a.reported,
        (
          λ v. room.0 (
              subst (λ k. has_duplicates k kept ≡ false) at
                (tests.0 (subst (λ s. validate_lineage crypto s ≡ ok tt) a.leaves v))),
          λ f.
              subst (λ s. validate_lineage crypto s ≡ ok tt) (sym a.leaves)
                (tests.1 (subst (λ k. has_duplicates k kept ≡ false) (sym at) (room.1 f))),
        ),
      )
