-- ===== src/Remediation/StateStore.antt =====
-- src/paic/remediation/state_store.py: the store of a simulated control state, as what is on disk.
-- An artifact is what its loader returns, with the hash of its manifest; a name in the directory of
-- generations is read by its pattern. What `execute` changes on disk is a sequence of effects, and
-- a process may stop between two of them. Private prepared directories have no effect and are left
-- out. The lock makes the calls follow one another.
pub mod Begin
pub mod Crash
pub mod Commit
pub mod Retry
pub mod Lineage
pub mod Roots
pub mod Validity
pub mod Initial
use Prim.Native.String.{slice}
use native.Mathlib.Decide.{ℕ_discrete}
use probabilistic_ai_inciden.Base.{
  ℕ, zero, suc, ◌+◌, String, Bool, true, false, not, ◌&&◌, ◌||◌, ltb, leb, Option, none, some, List,
  [], ◌∷◌, ◌++◌, map, find, keep, ◌==◌, ◌!=◌, Eq, string_eq, nat_eq, Result, ok, err, ◌>>=◌, ◌>>◌,
  reject_if, or_raise, map_err, any, if◌then◌else◌,
}
use probabilistic_ai_inciden.Base.Membership.{has, is_subset}
use probabilistic_ai_inciden.Base.Discrete.{String-discrete, discrete_eq}
use probabilistic_ai_inciden.Remediation.Models.{ControlState, control_state_eq, state_is_valid}
use probabilistic_ai_inciden.Remediation.Models.Plan.{
  RemediationPlan, ExecutionRequest, ExecutionReceipt,
}
use probabilistic_ai_inciden.Remediation.Config.{RemediationConfig, Crypto}
use probabilistic_ai_inciden.Remediation.Decisions.{ApprovalError, ApprovalLedger}
use probabilistic_ai_inciden.Remediation.Approval.{aware, evaluate_approval}
use probabilistic_ai_inciden.Remediation.Effects.{ExecutionError}
use probabilistic_ai_inciden.Remediation.Executor.{execute_plan, verify_execution_transition}
use probabilistic_ai_inciden.Remediation.Generation.{
  Name, initial, later, Name-discrete, name_eq, number, Entry, Meta, Pointer, ControlStateStore,
  empty, StoreError, other_initial_state, pointer_is_staged, orphan_initial, not_initialized,
  unsafe_pointer, missing_generation, invalid_entry, duplicate_generations, identity_differs,
  different_initial_state, generation_differs, target_exists, not_prepared, not_contiguous,
  receipt_differs, receipt_unbound, unloadable, approval_failed, execution_failed, is_none,
  directory_is_safe, pointer_is_safe, at_name,
}

-- `_current`
unfoldable pub current_of : ControlStateStore → Result StoreError (Pointer × Entry)
current_of store = do
  _ ← or_raise store.meta not_initialized
  pointer ← or_raise store.current not_initialized
  reject_if (not (pointer_is_safe pointer)) unsafe_pointer
  entry ← or_raise (at_name pointer.directory store.generations) missing_generation
  ok (pointer, entry)

-- `validate_execution` on the prepared directories, and the plan's transition
unfoldable pub check_prepared :
    Crypto
    → RemediationPlan
    → ControlState
    → String
    → ControlState
    → ExecutionReceipt
    → Result StoreError (Unit {0})
check_prepared crypto plan before before_manifest after receipt = do
  reject_if (crypto.receipt_digest receipt.body != receipt.receipt_sha256) not_prepared
  reject_if (before_manifest != receipt.before_state_manifest_sha256) not_prepared
  reject_if (not (state_is_valid after)) not_prepared
  reject_if (crypto.state_digest after != receipt.after_state_payload_sha256) not_prepared
  map_err execution_failed (verify_execution_transition crypto plan before after receipt)

-- `f"{next_generation:020d}-{receipt.receipt_sha256[:16]}"`
abbrev pub name_of : ℕ → ExecutionReceipt → Name
name_of generation receipt = later generation (slice receipt.receipt_sha256 0 16)

-- `destination.exists()`
abbrev pub exists : Name → ControlStateStore → Bool
exists n store = any (λ (e : Entry). e.name == n) store.generations

-- The arguments of `execute`.
pub record Call : Type 0 where
  pub plan : RemediationPlan
  pub ledger : ApprovalLedger
  pub config : RemediationConfig
  pub request : ExecutionRequest
  pub token : List ℕ
  pub secret : List ℕ

-- What `execute` has read and computed before it touches the disk.
pub record Transaction : Type 0 where
  pub pointer : Pointer
  pub before : Entry
  pub state : ControlState
  pub after : ControlState
  pub receipt : ExecutionReceipt

-- The replay checks of `execute`, the approval and the execution.
unfoldable pub begin : Crypto → ControlStateStore → Call → Result StoreError Transaction
begin crypto store call = do
  current ← current_of store
  state ← or_raise current.1.state unloadable
  meta ← or_raise store.meta not_initialized
  reject_if (state.incident_id != meta.incident_id) identity_differs
  reject_if (has state.executed_plan_hashes call.plan.plan_sha256)
      (execution_failed ExecutionError.already_executed)
  reject_if
      (current.1.manifest_sha256 != call.plan.control_state_manifest_sha256
        && current.0.generation == 0)
      different_initial_state
  reject_if (state.generation != current.0.generation) generation_differs
  status ←
      map_err approval_failed (
        evaluate_approval crypto call.plan call.ledger call.config (aware call.request.executed_at))
  out ← map_err execution_failed (
      execute_plan crypto call.plan state status call.config call.request call.token call.secret
        current.1.manifest_sha256)
  ok (record {
    pointer = current.0;
    before = current.1;
    state = state;
    after = out.0;
    receipt = out.1;
  })

-- `generation_name`
abbrev pub destination : Transaction → Name
destination t = name_of (t.state.generation + 1) t.receipt

-- `shutil.rmtree(destination)`
unfoldable pub discard : Name → ControlStateStore → ControlStateStore
discard n store = record store {
  generations = keep (λ (e : Entry). not (e.name == n)) store.generations;
}

-- A destination that is there already was renamed by an attempt that did not commit.
unfoldable pub make_room : Transaction → ControlStateStore → Result StoreError ControlStateStore
make_room t store =
    if exists (destination t) store
    then (if ltb t.pointer.generation (t.state.generation + 1)
        then ok (discard (destination t) store)
        else err target_exists)
    else ok store

-- `os.replace(staged, destination)`, where `manifest` is the hash of a state's exported manifest
unfoldable pub publish :
    (ControlState → String) → Transaction → ControlStateStore → ControlStateStore
publish manifest t store = record store {
  generations =
      store.generations
      ++ record {
        name = destination t;
        state = some t.after;
        manifest_sha256 = manifest t.after;
        receipt = some t.receipt;
      }
        ∷ [];
}

-- The replacement of current.json
unfoldable pub commit : Transaction → ControlStateStore → ControlStateStore
commit t store = record store {
  current = some (record {
    generation = t.state.generation + 1;
    directory = destination t;
    receipt_sha256 = some t.receipt.receipt_sha256;
  });
}

-- What `execute` does with a store that has room for the destination: it publishes the generation,
-- and raises where the new pointer cannot be staged.
unfoldable pub settle :
    Crypto
    → (ControlState → String)
    → RemediationPlan
    → Transaction
    → ControlStateStore
    → ControlStateStore × Result StoreError (Name × ExecutionReceipt)
settle crypto manifest plan t room =
    elim (check_prepared crypto plan t.state t.before.manifest_sha256 t.after t.receipt) [
      | err e ↦ (room, err e)
      | ok _ ↦
          if room.staged_pointer
          then (publish manifest t room, err pointer_is_staged)
          else (commit t (publish manifest t room), ok (destination t, t.receipt))
    ]

-- What `execute` does after `begin`: the store it leaves, and what it returns or raises.
unfoldable pub finish :
    Crypto
    → (ControlState → String)
    → RemediationPlan
    → Transaction
    → ControlStateStore
    → ControlStateStore × Result StoreError (Name × ExecutionReceipt)
finish crypto manifest plan t store = elim (make_room t store) [
  | err e ↦ (store, err e)
  | ok room ↦ settle crypto manifest plan t room
]

-- Where a process stops, or an operation of the file system raises: before the destination is
-- removed, when it is removed, when the generation is published, when `.current.json.tmp` is open,
-- and when it has replaced current.json.
pub data Progress : Type 0 where
  untouched cleared published staged replaced : Progress

-- What is then on disk.
unfoldable pub stopped :
    (ControlState → String) → Progress → Transaction → ControlStateStore → ControlStateStore
stopped manifest untouched t store = store
stopped manifest cleared t store = discard (destination t) store
stopped manifest published t store = publish manifest t (discard (destination t) store)
stopped manifest staged t store = record (publish manifest t (discard (destination t) store)) {
  staged_pointer = true;
}
stopped manifest replaced t store = commit t (publish manifest t (discard (destination t) store))

-- `execute`
unfoldable pub execute :
    Crypto
    → (ControlState → String)
    → ControlStateStore
    → Call
    → ControlStateStore × Result StoreError (Name × ExecutionReceipt)
execute crypto manifest store call = elim (begin crypto store call) [
  | err e ↦ (store, err e)
  | ok t ↦ finish crypto manifest call.plan t store
]

-- `initialize`, from an artifact that loads as a state, with the hash of its manifest
unfoldable pub initialize :
    ControlState → String → ControlStateStore → Result StoreError ControlStateStore
initialize state source_manifest store = elim store.meta [
  | some meta ↦ do
    reject_if (meta.origin_manifest_sha256 != source_manifest) other_initial_state
    ok store
  | none ↦ do
    reject_if (exists Name.initial store) orphan_initial
    reject_if store.staged_pointer pointer_is_staged
    ok (record {
      staged_pointer = false;
      meta = some (record {
        origin_manifest_sha256 = source_manifest;
        state_id = state.state_id;
        incident_id = state.incident_id;
      });
      current = some (record { generation = 0; directory = Name.initial; receipt_sha256 = none });
      generations =
          store.generations
          ++ record {
            name = Name.initial;
            state = some state;
            manifest_sha256 = source_manifest;
            receipt = none;
          }
            ∷ [];
    })
]

-- The name of a later generation with the number 0.
abbrev pub is_invalid : Name → Bool
is_invalid initial = false
is_invalid (later n suffix) = n == 0

abbrev pub number_of : Entry → ℕ
number_of e = number e.name

-- `_generation_roots`, from the entries that the loop has passed
unfoldable pub generation_roots : List Entry → List Entry → Result StoreError (List Entry)
generation_roots roots [] = ok roots
generation_roots roots (e ∷ rest) = do
  reject_if (is_invalid e.name) invalid_entry
  reject_if (has (map number_of roots) (number_of e)) duplicate_generations
  generation_roots (roots ++ e ∷ []) rest

-- `range(n)`
unfoldable pub range : ℕ → List ℕ
range zero = []
range (suc n) = let rest = range n in rest ++ n ∷ []

-- The committed generations are those from 0 to the current one, which is the pointer's.
unfoldable pub is_contiguous : Pointer → List Entry → Bool
is_contiguous pointer roots =
    let committed = keep (λ e. leb (number_of e) pointer.generation) roots in
    elim (find (λ e. number_of e == pointer.generation) committed) [
      | none ↦ false
      | some e ↦
          e.name == pointer.directory
          && is_subset (map number_of committed) (range (pointer.generation + 1))
          && is_subset (range (pointer.generation + 1)) (map number_of committed)
    ]

-- The receipt of the current generation, where the pointer names one.
unfoldable pub check_receipt :
    Crypto → Entry → ControlState → Option String → Result StoreError (Unit {0})
check_receipt crypto entry state none = ok tt
check_receipt crypto entry state (some receipt_sha256) = do
  receipt ← or_raise entry.receipt unloadable
  reject_if (receipt.receipt_sha256 != receipt_sha256) receipt_differs
  reject_if (receipt.after_state_payload_sha256 != crypto.state_digest state) receipt_unbound
  ok tt

-- `validate`, with its list of at most one issue as an error
unfoldable pub validate : Crypto → ControlStateStore → Result StoreError (Unit {0})
validate crypto store = do
  current ← current_of store
  roots ← generation_roots [] store.generations
  reject_if (not (is_contiguous current.0 roots)) not_contiguous
  state ← or_raise current.1.state unloadable
  reject_if (state.generation != current.0.generation) generation_differs
  check_receipt crypto current.1 state current.0.receipt_sha256
