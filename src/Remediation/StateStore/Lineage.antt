-- ===== src/Remediation/StateStore/Lineage.antt =====
-- A plan is executed at most once on a store of state_store.py.
use probabilistic_ai_inciden.Base.{
  ◌≡◌, ap, sym, ◌∙◌, subst, String, inl, inr, some, List, [], ◌∷◌, string_eq, ok, err, ok-injective,
}
use probabilistic_ai_inciden.Base.Membership.{
  In, In-append_left, In-append_right, has_false→not_In, Distinct,
}
use probabilistic_ai_inciden.Remediation.Models.{ControlState}
use probabilistic_ai_inciden.Remediation.Models.Plan.{ExecutionReceipt}
use probabilistic_ai_inciden.Remediation.Config.{Crypto}
use probabilistic_ai_inciden.Remediation.Executor.Replay.{next_state-fields, sorted-In}
use probabilistic_ai_inciden.Remediation.Generation.{
  Name, Entry, Pointer, ControlStateStore, StoreError,
}
use probabilistic_ai_inciden.Remediation.StateStore.{
  current_of, Call, Transaction, begin, execute, Progress, cleared, published, replaced, stopped,
}
use probabilistic_ai_inciden.Remediation.StateStore.Begin.{
  IsCurrent-current_of, IsBegun, begin-IsBegun,
}
use probabilistic_ai_inciden.Remediation.StateStore.Crash.{IsBefore, stopped-IsCurrent}
use probabilistic_ai_inciden.Remediation.StateStore.Commit.{
  committed-IsCurrent, HasFailed, unchanged, room_made, generation_left, execute-HasCommitted,
  execute-HasFailed, new_entry, committed,
}

-- What happens to a store: calls that return, calls that raise, and calls that are stopped, or that
-- an operation of the file system ends, at any point, with the hashes of the plans whose pointer
-- was written, newest first.
pub data Life (crypto : Crypto) (manifest : ControlState → String) (start : ControlStateStore)
    : List String → ControlStateStore → Type 0 where
  fresh : Life crypto manifest start [] start
  returned :
      {plans : List String} {store : ControlStateStore} (call : Call)
      (out : Name × ExecutionReceipt)
      → Life crypto manifest start plans store
      → (execute crypto manifest store call).1 ≡ ok out
      → Life crypto manifest start
          (call.plan.plan_sha256 ∷ plans)
          (execute crypto manifest store call).0
  raised :
      {plans : List String} {store : ControlStateStore} (call : Call) (e : StoreError)
      → Life crypto manifest start plans store
      → (execute crypto manifest store call).1 ≡ err e
      → Life crypto manifest start plans (execute crypto manifest store call).0
  crashed :
      {plans : List String} {store : ControlStateStore} (call : Call) (t : Transaction)
      (k : Progress)
      → Life crypto manifest start plans store
      → IsBefore k
      → begin crypto store call ≡ ok t
      → Life crypto manifest start plans (stopped manifest k t store)
  unreported :
      {plans : List String} {store : ControlStateStore} (call : Call) (t : Transaction)
      → Life crypto manifest start plans store
      → begin crypto store call ≡ ok t
      → Life crypto manifest start
          (call.plan.plan_sha256 ∷ plans)
          (stopped manifest replaced t store)

-- The current state of the store has recorded the plans.
abbrev Recorded : List String → ControlStateStore → Type 0
Recorded plans store =
    (p : Pointer) (e : Entry) (s : ControlState)
    → current_of store ≡ ok (p, e)
    → e.state ≡ some s
    → (h : String) → In h plans
    → In h s.executed_plan_hashes

module _ (crypto : Crypto) (manifest : ControlState → String) where
  Recorded-same :
      (plans : List String) (a b : ControlStateStore)
      → current_of a ≡ current_of b
      → Recorded plans a
      → Recorded plans b
  Recorded-same plans a b same r p e s now = r p e s (same ∙ now)

  Recorded-stopped :
      (plans : List String) (store : ControlStateStore) (call : Call) (t : Transaction)
      (k : Progress)
      → IsBefore k
      → begin crypto store call ≡ ok t
      → Recorded plans store
      → Recorded plans (stopped manifest k t store)
  Recorded-stopped plans store call t k before h r =
      let b = begin-IsBegun crypto store call t h in
      Recorded-same plans store (stopped manifest k t store)
        (b.current
          ∙ sym (
              IsCurrent-current_of _ _ _
                (stopped-IsCurrent crypto manifest k t store call b before)))
        r

  Recorded-committed :
      (plans : List String) (store : ControlStateStore) (call : Call) (t : Transaction)
      → IsBegun crypto store call t
      → Recorded plans store
      → Recorded (call.plan.plan_sha256 ∷ plans) (committed crypto manifest t store)
  Recorded-committed plans store call t b r p e s now at h m =
      let new = IsCurrent-current_of _ _ _ (committed-IsCurrent crypto manifest store call t b) in
      let same : e ≡ new_entry crypto manifest t = ap (λ x. x.1) (ok-injective (sym now ∙ new)) in
      let there : some s ≡ some t.after = sym at ∙ ap (λ (x : Entry). x.state) same in
      let state : s ≡ t.after = cc there in
      let hashes = (next_state-fields crypto t.state t.after call.plan _ _ b.done.next).4 in
      subst (λ (x : ControlState). In h x.executed_plan_hashes) (sym state)
        (subst (In h) (sym hashes) (
          sorted-In h _ (elim m [
            | inl e ↦ In-append_right h t.state.executed_plan_hashes _ (inl e)
            | inr old ↦
                In-append_left h t.state.executed_plan_hashes _
                  (r t.pointer t.before t.state b.current b.state h old)
          ])))

  Recorded-replaced :
      (plans : List String) (store : ControlStateStore) (call : Call) (t : Transaction)
      → IsBegun crypto store call t
      → Recorded plans store
      → Recorded (call.plan.plan_sha256 ∷ plans) (stopped manifest replaced t store)
  unfolding stopped
  Recorded-replaced = Recorded-committed

  Recorded-failed :
      (plans : List String) (store left : ControlStateStore) (call : Call)
      → HasFailed crypto manifest store call left
      → Recorded plans store
      → Recorded plans left
  Recorded-failed plans store left call unchanged r = r
  Recorded-failed plans store left call (room_made t h) r =
      Recorded-stopped plans store call t cleared tt h r
  Recorded-failed plans store left call (generation_left t h) r =
      Recorded-stopped plans store call t published tt h r

  Life-Recorded :
      {start store : ControlStateStore} {plans : List String}
      → Life crypto manifest start plans store
      → Recorded plans store
  Life-Recorded fresh = λ p e s now at h m. absurd m
  Life-Recorded (returned {plans} {store} call out past h) =
      let (t, c) = execute-HasCommitted crypto manifest store call out h in
      subst (Recorded (call.plan.plan_sha256 ∷ plans)) (sym c.leaves)
        (Recorded-committed plans store call t c.begun (Life-Recorded past))
  Life-Recorded (raised {plans} {store} call e past h) =
      Recorded-failed plans store _ call (execute-HasFailed crypto manifest store call e h)
        (Life-Recorded past)
  Life-Recorded (crashed {plans} {store} call t k past before h) =
      Recorded-stopped plans store call t k before h (Life-Recorded past)
  Life-Recorded (unreported {plans} {store} call t past h) =
      let b = begin-IsBegun crypto store call t h in
      Recorded-replaced plans store call t b (Life-Recorded past)

  not_recorded :
      {start store : ControlStateStore} {plans : List String} (call : Call) (t : Transaction)
      → Life crypto manifest start plans store
      → IsBegun crypto store call t
      → ¬ In call.plan.plan_sha256 plans
  not_recorded call t past b m =
      has_false→not_In _ _ b.new_plan
        (Life-Recorded past t.pointer t.before t.state b.current b.state _ m)

  -- Whatever calls return, raise, are stopped or are ended by the file system, before or after the
  -- pointer is replaced, no two calls that replaced it executed one plan; a call that returned did.
  pub Life-once :
      {start store : ControlStateStore} {plans : List String}
      → Life crypto manifest start plans store
      → Distinct plans
  Life-once fresh = tt
  Life-once (returned {plans} {store} call out past h) =
      let (t, c) = execute-HasCommitted crypto manifest store call out h in
      (not_recorded call t past c.begun, Life-once past)
  Life-once (unreported {store = store} call t past h) =
      (not_recorded call t past (begin-IsBegun crypto store call t h), Life-once past)
  Life-once (raised call e past h) = Life-once past
  Life-once (crashed call t k past before h) = Life-once past
