-- ===== src/Remediation/StateStore/Commit.antt =====
-- What `execute` of state_store.py leaves when it returns, and when it raises.
use probabilistic_ai_inciden.Base.{
  Result-cases, ◌≡◌, refl, ap, sym, ◌∙◌, subst, ◌+◌, String, inl, inr, false, some, List, [], ◌∷◌,
  ◌++◌, arith, Bool-cases, beq_refl, nat_eq, ok, err, ◌==◌, ok-injective,
}
use probabilistic_ai_inciden.Remediation.Models.{ControlState}
use probabilistic_ai_inciden.Remediation.Models.Plan.{ExecutionReceipt}
use probabilistic_ai_inciden.Remediation.Config.{Crypto}
use probabilistic_ai_inciden.Remediation.Generation.{
  Name, name_eq, Entry, Pointer, ControlStateStore, StoreError, pointer_is_staged, at_name,
  directory_is_safe,
}
use probabilistic_ai_inciden.Remediation.StateStore.{
  Call, Transaction, begin, destination, discard, publish, commit, check_prepared, execute, settle,
  cleared, published, stopped,
}
use probabilistic_ai_inciden.Remediation.StateStore.Begin.{
  IsCurrent, current_of-IsCurrent, IsBegun, begin-IsBegun,
}
use probabilistic_ai_inciden.Remediation.StateStore.Crash.{others, execute-settle}

pub at_name-new :
    (es : List Entry) (e : Entry) → at_name e.name (others e.name es ++ e ∷ []) ≡ some e
at_name-new [] e = rw (beq_refl e.name)
at_name-new (x ∷ es) e = elim (Bool-cases (x.name == e.name)) [
  | inl t ↦ rw t (at_name-new es e)
  | inr f ↦ rw f (rw f (at_name-new es e))
]

module _ (crypto : Crypto) (manifest : ControlState → String) where
  -- The store after the pointer is replaced.
  abbrev pub committed : Transaction → ControlStateStore → ControlStateStore
  committed t store = commit t (publish manifest t (discard (destination t) store))

  abbrev pub new_entry : Transaction → Entry
  new_entry t = record {
    name = destination t;
    state = some t.after;
    manifest_sha256 = manifest t.after;
    receipt = some t.receipt;
  }

  abbrev pub new_pointer : Transaction → Pointer
  new_pointer t = record {
    generation = t.state.generation + 1;
    directory = destination t;
    receipt_sha256 = some t.receipt.receipt_sha256;
  }

  pub committed-IsCurrent :
      (store : ControlStateStore) (call : Call) (t : Transaction)
      → IsBegun crypto store call t
      → IsCurrent (committed t store) (new_pointer t) (new_entry t)
  unfolding commit publish discard directory_is_safe
  committed-IsCurrent store call t b =
      let now = current_of-IsCurrent store t.pointer t.before b.current in
      record {
        meta = now.meta;
        bound = now.bound;
        points = refl;
        safe = ground arith;
        there = at_name-new store.generations (new_entry t);
      }

  -- What a call that returned did.
  pub record HasCommitted (store : ControlStateStore) (call : Call) (out : Name × ExecutionReceipt)
      (t : Transaction) : Type 0 where
    pub begun : IsBegun crypto store call t
    pub checked :
        check_prepared crypto call.plan t.state t.before.manifest_sha256 t.after t.receipt ≡ ok tt
    pub unstaged : store.staged_pointer ≡ false
    pub leaves : (execute crypto manifest store call).0 ≡ committed t store
    pub returns : out ≡ (destination t, t.receipt)

  -- A call that did not return left the store, perhaps without an entry that was not current, or
  -- with a new entry that is not.
  pub data HasFailed (store : ControlStateStore) (call : Call) : ControlStateStore → Type 0 where
    unchanged : HasFailed store call store
    room_made :
        (t : Transaction)
        → begin crypto store call ≡ ok t
        → HasFailed store call (stopped manifest cleared t store)
    generation_left :
        (t : Transaction)
        → begin crypto store call ≡ ok t
        → HasFailed store call (stopped manifest published t store)

  -- How a call that has begun ends.
  data Settled (store : ControlStateStore) (call : Call) (t : Transaction) : Type 0 where
    commits :
        check_prepared crypto call.plan t.state t.before.manifest_sha256 t.after t.receipt ≡ ok tt
        → store.staged_pointer ≡ false
        → execute crypto manifest store call ≡ (committed t store, ok (destination t, t.receipt))
        → Settled store call t
    fails :
        (e : StoreError)
        → execute crypto manifest store call ≡ (discard (destination t) store, err e)
        → Settled store call t
    blocked :
        (e : StoreError)
        → execute crypto manifest store call
          ≡ (publish manifest t (discard (destination t) store), err e)
        → Settled store call t

  settle-cases :
      (store : ControlStateStore) (call : Call) (t : Transaction)
      → begin crypto store call ≡ ok t
      → Settled store call t
  unfolding settle discard
  settle-cases store call t h =
      let ran = execute-settle crypto manifest store call t h in
      elim (Result-cases
        (check_prepared crypto call.plan t.state t.before.manifest_sha256 t.after t.receipt)) [
          | inr (x, e) ↦ fails x (ran ∙ rw (e, settle) refl)
          | inl (tt, e) ↦ elim (Bool-cases store.staged_pointer) [
            | inl there ↦ blocked pointer_is_staged (ran ∙ rw (e, settle) (rw there refl))
            | inr free ↦ commits e free (ran ∙ rw (e, settle) (rw free refl))
          ]
        ]

  pub execute-HasCommitted :
      (store : ControlStateStore) (call : Call) (out : Name × ExecutionReceipt)
      → (execute crypto manifest store call).1 ≡ ok out
      → (t : Transaction) × HasCommitted store call out t
  unfolding execute
  execute-HasCommitted store call out h = elim (Result-cases (begin crypto store call)) [
    | inr (x, e) ↦ absurd (cc (rw (e, execute) at h))
    | inl (t, e) ↦ elim (settle-cases store call t e) [
      | commits checked free ran ↦ (
        t,
        record {
          begun = begin-IsBegun crypto store call t e;
          checked = checked;
          unstaged = free;
          leaves = ap (λ r. r.0) ran;
          returns = ok-injective (sym h ∙ ap (λ r. r.1) ran);
        },
      )
      | fails x ran ↦ absurd (cc (h, ap (λ r. r.1) ran))
      | blocked x ran ↦ absurd (cc (h, ap (λ r. r.1) ran))
    ]
  ]

  pub execute-HasFailed :
      (store : ControlStateStore) (call : Call) (e : StoreError)
      → (execute crypto manifest store call).1 ≡ err e
      → HasFailed store call (execute crypto manifest store call).0
  unfolding execute stopped
  execute-HasFailed store call x h = elim (Result-cases (begin crypto store call)) [
    | inr (x, e) ↦ rw (e, execute) unchanged
    | inl (t, e) ↦ elim (settle-cases store call t e) [
      | commits checked free ran ↦ absurd (cc (h, ap (λ r. r.1) ran))
      | fails x ran ↦ subst (HasFailed store call) (sym (ap (λ r. r.0) ran)) (room_made t e)
      | blocked x ran ↦ subst (HasFailed store call) (sym (ap (λ r. r.0) ran)) (generation_left t e)
    ]
  ]
