-- ===== src/Remediation/StateStore/Begin.antt =====
-- What the checks before a transaction of state_store.py establish.
use probabilistic_ai_inciden.Base.{
  Option, ◌≡◌, ◌≢◌, refl, ap, sym, subst, ℕ, ◌+◌, String, true, false, not, ◌&&◌, some, arith,
  beq→eq, &&_true, not-false, nat_eq, ok, >>=-eq-ok, or_raise-eq-ok, reject_if-eq-ok, ok-injective,
  ◌==◌, ◌!=◌, string_eq, map_err, map_err-eq-ok, passes_ne,
}
use probabilistic_ai_inciden.Base.Membership.{has}
use probabilistic_ai_inciden.Remediation.Config.{Crypto}
use probabilistic_ai_inciden.Remediation.Approval.{aware, evaluate_approval}
use probabilistic_ai_inciden.Remediation.Effects.{ExecutionError}
use probabilistic_ai_inciden.Remediation.Executor.{execute_plan}
use probabilistic_ai_inciden.Remediation.Executor.Replay.{
  Executed, execute_plan-Executed, next_state-fields,
}
use probabilistic_ai_inciden.Remediation.Generation.{
  Meta, Name, later, number, name_eq, Entry, Pointer, is_none, ControlStateStore, not_initialized,
  unsafe_pointer, missing_generation, unloadable, identity_differs, execution_failed,
  different_initial_state, generation_differs, approval_failed, pointer_is_safe, directory_is_safe,
  at_name,
}
use probabilistic_ai_inciden.Remediation.StateStore.{
  current_of, Call, Transaction, begin, destination,
}

-- What `current_of` found.
pub record IsCurrent (store : ControlStateStore) (pointer : Pointer) (entry : Entry) : Type 0 where
  pub meta : Meta
  pub bound : store.meta ≡ some meta
  pub points : store.current ≡ some pointer
  pub safe : pointer_is_safe pointer ≡ true
  pub there : at_name pointer.directory store.generations ≡ some entry

pub current_of-IsCurrent :
    (store : ControlStateStore) (pointer : Pointer) (entry : Entry)
    → current_of store ≡ ok (pointer, entry)
    → IsCurrent store pointer entry
unfolding current_of
current_of-IsCurrent store pointer entry h =
    let (meta, bound, h1) = or_raise-eq-ok store.meta not_initialized _ h in
    let (p, points, h2) = or_raise-eq-ok store.current not_initialized _ h1 in
    let (unsafe, h3) = reject_if-eq-ok (not (pointer_is_safe p)) unsafe_pointer _ h2 in
    let (e, there, h4) =
      or_raise-eq-ok (at_name p.directory store.generations) missing_generation _ h3 in
    subst (λ (out : Pointer × Entry). IsCurrent store out.0 out.1) (ok-injective h4)
      (record {
        meta = meta;
        bound = bound;
        points = points;
        safe = not-false _ unsafe;
        there = there;
      })

pub IsCurrent-current_of :
    (store : ControlStateStore) (pointer : Pointer) (entry : Entry)
    → IsCurrent store pointer entry
    → current_of store ≡ ok (pointer, entry)
unfolding current_of
IsCurrent-current_of store pointer entry c = rw (c.bound, c.points, c.safe, c.there) refl

number-directory_at :
    (generation : ℕ) (receipt_sha256 : Option String) (n : Name)
    → directory_is_safe generation receipt_sha256 n ≡ true
    → number n ≡ generation
unfolding directory_is_safe
number-directory_at generation receipt_sha256 Name.initial h =
    sym (beq→eq _ _ (&&_true (generation == 0) _ h).0)
number-directory_at generation receipt_sha256 (later n suffix) h =
    let parts = (&&_true _ (not (is_none receipt_sha256)) h).0 in
    beq→eq _ _ (&&_true (not (generation == 0)) _ parts).1

pub number-directory : (p : Pointer) → pointer_is_safe p ≡ true → number p.directory ≡ p.generation
number-directory p h = number-directory_at p.generation p.receipt_sha256 p.directory h

-- What `begin` found.
pub record IsBegun (crypto : Crypto) (store : ControlStateStore) (call : Call) (t : Transaction)
    : Type 0 where
  pub current : current_of store ≡ ok (t.pointer, t.before)
  pub state : t.before.state ≡ some t.state
  pub new_plan : has t.state.executed_plan_hashes call.plan.plan_sha256 ≡ false
  pub generation : t.state.generation ≡ t.pointer.generation
  pub known : (meta : Meta) × (store.meta ≡ some meta) × (t.state.incident_id ≡ meta.incident_id)
  pub done : Executed crypto call.plan t.state t.after t.receipt

module _ (crypto : Crypto) where
  pub begin-IsBegun :
      (store : ControlStateStore) (call : Call) (t : Transaction)
      → begin crypto store call ≡ ok t
      → IsBegun crypto store call t
  unfolding begin
  begin-IsBegun store call t h =
      let (now, current, h1) = >>=-eq-ok (current_of store) _ h in
      let (state, loads, h2) = or_raise-eq-ok now.1.state unloadable _ h1 in
      let (meta, found, h3) = or_raise-eq-ok store.meta not_initialized _ h2 in
      let (identity, h4) =
        reject_if-eq-ok (state.incident_id != meta.incident_id) identity_differs _ h3 in
      let (new, h5) =
        reject_if-eq-ok (has state.executed_plan_hashes call.plan.plan_sha256)
          (execution_failed ExecutionError.already_executed) _ h4 in
      let (_, h6) =
        reject_if-eq-ok
          (now.1.manifest_sha256 != call.plan.control_state_manifest_sha256
            && now.0.generation == 0)
          different_initial_state _ h5 in
      let (same, h7) =
        reject_if-eq-ok (state.generation != now.0.generation) generation_differs _ h6 in
      let (status, _, h8) =
        >>=-eq-ok
          (map_err approval_failed (
            evaluate_approval crypto call.plan call.ledger call.config
              (aware call.request.executed_at)))
          _ h7 in
      let run =
        execute_plan crypto call.plan state status call.config call.request call.token call.secret
          now.1.manifest_sha256 in
      let (out, ran, h9) = >>=-eq-ok (map_err execution_failed run) _ h8 in
      subst (IsBegun crypto store call) (ok-injective h9) (record {
        known = (meta, found, passes_ne _ _ identity);
        current = current;
        state = loads;
        new_plan = new;
        generation = passes_ne _ _ same;
        done =
            execute_plan-Executed crypto call.plan state status call.config call.request call.token
              call.secret now.1.manifest_sha256 out (map_err-eq-ok execution_failed run ran);
      })

  -- The destination is not the current generation.
  pub destination-fresh :
      (store : ControlStateStore) (call : Call) (t : Transaction)
      → IsBegun crypto store call t
      → t.pointer.directory ≢ destination t
  destination-fresh store call t b e =
      let now = current_of-IsCurrent store t.pointer t.before b.current in
      let n : number t.pointer.directory ≡ t.pointer.generation =
        number-directory t.pointer now.safe in
      let m : number t.pointer.directory ≡ t.state.generation + 1 = ap number e in
      absurd (omega (arith, b.generation))

  pub after-generation :
      (store : ControlStateStore) (call : Call) (t : Transaction)
      → IsBegun crypto store call t
      → t.after.generation ≡ t.state.generation + 1
  after-generation store call t b =
      (next_state-fields crypto t.state t.after call.plan _ _ b.done.next).2
