-- ===== src/Remediation/Generation.antt =====
-- What is on disk of the store of src/paic/remediation/state_store.py: an artifact is what its
-- loader returns, with the hash of its manifest, and a name in the directory of generations is read
-- by its pattern.
use native.Mathlib.Decide.{ℕ_discrete}
use probabilistic_ai_inciden.Base.{
  ℕ, String, Bool, true, false, not, ◌&&◌, Option, none, some, List, [], find, ◌==◌, Eq, string_eq,
  nat_eq,
}
use probabilistic_ai_inciden.Base.Discrete.{String-discrete, discrete_eq}
use probabilistic_ai_inciden.Remediation.Models.{ControlState, control_state_eq}
use probabilistic_ai_inciden.Remediation.Models.Plan.{ExecutionReceipt}
use probabilistic_ai_inciden.Remediation.Decisions.{ApprovalError}
use probabilistic_ai_inciden.Remediation.Effects.{ExecutionError}

-- `00000000000000000000`, and a number of twenty digits with sixteen digits of a receipt's hash.
pub data Name : Type 0 where
  initial : Name
  later : ℕ → String → Name

unfoldable pub Name-discrete : Discrete Name
Name-discrete = hlevel (String-discrete, ℕ_discrete)

instance abbrev pub name_eq : Eq Name
name_eq = discrete_eq Name-discrete

-- The number that `_generation_roots` reads off a name.
abbrev pub number : Name → ℕ
number initial = 0
number (later n suffix) = n

-- A directory of a generation: its state and its receipt where they load, and the hash of the
-- state's manifest.
pub record Entry : Type 0 where
  pub name : Name
  pub state : Option ControlState
  pub manifest_sha256 : String
  pub receipt : Option ExecutionReceipt

-- store.json
pub record Meta : Type 0 where
  pub origin_manifest_sha256 : String
  pub state_id : String
  pub incident_id : String

-- current.json
pub record Pointer : Type 0 where
  pub generation : ℕ
  pub directory : Name
  pub receipt_sha256 : Option String

pub record ControlStateStore : Type 0 where
  pub meta : Option Meta
  pub current : Option Pointer
  pub generations : List Entry
  -- `.current.json.tmp` is there, which `_write_json_atomic` opens only where it is not
  pub staged_pointer : Bool

abbrev pub empty : ControlStateStore
empty = record { meta = none; current = none; generations = []; staged_pointer = false }

-- One constructor for each message of a `StateStoreError`, for the artifacts that do not load, and
-- for the exceptions of the approval and the execution.
pub data StoreError : Type 0 where
  other_initial_state orphan_initial not_initialized unsafe_pointer : StoreError
  missing_generation invalid_entry duplicate_generations identity_differs : StoreError
  different_initial_state generation_differs target_exists not_prepared : StoreError
  not_contiguous receipt_differs receipt_unbound unloadable : StoreError
  approval_failed : ApprovalError → StoreError
  execution_failed : ExecutionError → StoreError
  -- the `FileExistsError` of `_write_json_atomic`
  pointer_is_staged : StoreError

-- `receipt_sha256 is None`
abbrev pub is_none : Option String → Bool
is_none none = true
is_none (some h) = false

-- A pointer's directory has the form that its generation asks for, and a receipt's hash stands at
-- every generation but the first.
unfoldable pub directory_is_safe : ℕ → Option String → Name → Bool
directory_is_safe generation receipt_sha256 initial = generation == 0 && is_none receipt_sha256
directory_is_safe generation receipt_sha256 (later n suffix) =
    not (generation == 0) && n == generation && not (is_none receipt_sha256)

abbrev pub pointer_is_safe : Pointer → Bool
pointer_is_safe p = directory_is_safe p.generation p.receipt_sha256 p.directory

abbrev pub at_name : Name → List Entry → Option Entry
at_name n = find (λ (e : Entry). e.name == n)
