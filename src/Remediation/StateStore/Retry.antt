-- ===== src/Remediation/StateStore/Retry.antt =====
-- What follows a call of `execute` of state_store.py that a process stops inside, or that an
-- operation of the file system ends.
use probabilistic_ai_inciden.Base.{
  ◌≡◌, ◌≢◌, refl, sym, ◌∙◌, subst, inl, string_eq, String, true, ok, err, same→passes,
  reject_if-false,
}
use probabilistic_ai_inciden.Base.Membership.{In, has, In-append_right, In→has}
use probabilistic_ai_inciden.Remediation.Models.{ControlState}
use probabilistic_ai_inciden.Remediation.Models.Plan.{ExecutionReceipt}
use probabilistic_ai_inciden.Remediation.Config.{Crypto}
use probabilistic_ai_inciden.Remediation.Effects.{ExecutionError}
use probabilistic_ai_inciden.Remediation.Executor.Replay.{next_state-fields, sorted-In}
use probabilistic_ai_inciden.Remediation.Generation.{
  Name, ControlStateStore, StoreError, execution_failed,
}
use probabilistic_ai_inciden.Remediation.StateStore.{
  current_of, Call, Transaction, begin, execute, Progress, untouched, cleared, published, staged,
  replaced, stopped, commit, publish, discard,
}
use probabilistic_ai_inciden.Remediation.StateStore.Begin.{IsCurrent-current_of, begin-IsBegun}
use probabilistic_ai_inciden.Remediation.StateStore.Crash.{early_retry, current_of-stopped}
use probabilistic_ai_inciden.Remediation.StateStore.Commit.{
  committed, committed-IsCurrent, new_entry, new_pointer, execute-HasCommitted,
}

module _ (crypto : Crypto) (manifest : ControlState → String) (store : ControlStateStore)
    (call : Call) (t : Transaction) where
  -- Nothing has happened: the current generation is the old one, and the same call has the outcome
  -- that it would have had.
  abbrev pub Undisturbed : Progress → Type 0
  Undisturbed k =
      (current_of (stopped manifest k t store) ≡ current_of store)
      × (execute crypto manifest (stopped manifest k t store) call
          ≡ execute crypto manifest store call)

  -- The current generation is the old one, and no call returns any more.
  abbrev pub Blocked : Type 0
  Blocked =
      (current_of (stopped manifest staged t store) ≡ current_of store)
      × ((other : Call) (out : Name × ExecutionReceipt)
          → (execute crypto manifest (stopped manifest staged t store) other).1 ≢ ok out)

  -- The current generation is the new one, and the same call raises that the plan was executed.
  abbrev pub Done : Type 0
  Done =
      (current_of (stopped manifest replaced t store)
        ≡ ok (new_pointer crypto manifest t, new_entry crypto manifest t))
      × (execute crypto manifest (stopped manifest replaced t store) call ≡ (
        stopped manifest replaced t store,
        err (execution_failed ExecutionError.already_executed),
      ))

  abbrev pub Follows : Progress → Type 0
  Follows untouched = Undisturbed untouched
  Follows cleared = Undisturbed cleared
  Follows published = Undisturbed published
  Follows staged = Blocked
  Follows replaced = Done

  blocked : begin crypto store call ≡ ok t → Blocked
  unfolding stopped
  blocked h = (
    current_of-stopped crypto manifest store call t staged tt h,
    λ other out ran.
        let (u, c) =
          execute-HasCommitted crypto manifest (stopped manifest staged t store) other out ran in
        cc c.unstaged,
  )

  execute-raised :
      (s : ControlStateStore) (c : Call) (e : StoreError)
      → begin crypto s c ≡ err e
      → execute crypto manifest s c ≡ (s, err e)
  unfolding execute
  execute-raised s c e h = rw (h, execute) refl

  begin-committed :
      begin crypto store call ≡ ok t
      → begin crypto (committed crypto manifest t store) call
        ≡ err (execution_failed ExecutionError.already_executed)
  unfolding begin commit publish discard
  begin-committed h =
      let b = begin-IsBegun crypto store call t h in
      let now = IsCurrent-current_of _ _ _ (committed-IsCurrent crypto manifest store call t b) in
      let (meta, found, same) = b.known in
      let fields = next_state-fields crypto t.state t.after call.plan _ _ b.done.next in
      let executed : has t.after.executed_plan_hashes call.plan.plan_sha256 ≡ true = In→has _ _ (
        subst (In call.plan.plan_sha256) (sym fields.4)
          (sorted-In _ _ (In-append_right _ t.state.executed_plan_hashes _ (inl refl)))) in
      rw (now, found) (reject_if-false _ _ _ (same→passes _ _ (fields.1 ∙ same)) (rw executed refl))

  done : begin crypto store call ≡ ok t → Done
  unfolding stopped
  done h =
      let b = begin-IsBegun crypto store call t h in
      (
        IsCurrent-current_of _ _ _ (committed-IsCurrent crypto manifest store call t b),
        execute-raised (committed crypto manifest t store) call _ (begin-committed h),
      )

  -- Where `execute` has begun a transaction and the process stops, or the file system ends the
  -- call: before the pointer is staged, nothing has happened, and the same call on what is on disk
  -- has the same outcome and leaves the same store as an undisturbed one. While the pointer is
  -- staged and not replaced, the current generation is the old one, but no call of `execute`
  -- returns any more. When it is replaced, the new generation is current and the same call raises
  -- that the plan was executed.
  pub crash_retry : (k : Progress) → begin crypto store call ≡ ok t → Follows k
  crash_retry untouched h = (
    current_of-stopped crypto manifest store call t untouched tt h,
    early_retry crypto manifest store call t untouched tt tt h,
  )
  crash_retry cleared h = (
    current_of-stopped crypto manifest store call t cleared tt h,
    early_retry crypto manifest store call t cleared tt tt h,
  )
  crash_retry published h = (
    current_of-stopped crypto manifest store call t published tt h,
    early_retry crypto manifest store call t published tt tt h,
  )
  crash_retry staged h = blocked h
  crash_retry replaced h = done h
