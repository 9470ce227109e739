-- ===== src/Remediation/StateStore/Crash.antt =====
-- A process that stops inside `execute` of state_store.py, and the attempt after it.
use probabilistic_ai_inciden.Base.{
  ◌≡◌, ◌≢◌, refl, ap, sym, ◌∙◌, ◌+◌, String, inl, inr, false, not, List, [], ◌∷◌, ◌++◌, arith,
  Bool-cases, beq→eq, eq→beq, ne→beq_false, ||_false, nat_eq, ok, ◌==◌, any, keep, lt→ltb,
}
use probabilistic_ai_inciden.Remediation.Models.{ControlState}
use probabilistic_ai_inciden.Remediation.Models.Plan.{RemediationPlan}
use probabilistic_ai_inciden.Remediation.Config.{Crypto}
use probabilistic_ai_inciden.Remediation.Generation.{
  Name, name_eq, Entry, Pointer, ControlStateStore, at_name,
}
use probabilistic_ai_inciden.Remediation.StateStore.{
  exists, current_of, Call, Transaction, begin, destination, discard, make_room, publish, finish,
  settle, execute, Progress, untouched, cleared, published, staged, replaced, commit, stopped,
}
use probabilistic_ai_inciden.Remediation.StateStore.Begin.{
  IsCurrent, current_of-IsCurrent, IsCurrent-current_of, IsBegun, begin-IsBegun, destination-fresh,
}

-- The entries under other names.
abbrev pub others : Name → List Entry → List Entry
others n = keep (λ (e : Entry). not (e.name == n))

others-absent :
    (n : Name) (es : List Entry) → any (λ (e : Entry). e.name == n) es ≡ false → others n es ≡ es
others-absent n [] h = refl
others-absent n (e ∷ es) h =
    let (here, rest) = ||_false (e.name == n) _ h in
    rw here (ap (λ xs. e ∷ xs) (others-absent n es rest))

others-others : (n : Name) (es : List Entry) → others n (others n es) ≡ others n es
others-others n [] = refl
others-others n (e ∷ es) = elim (Bool-cases (e.name == n)) [
  | inl t ↦ rw t (others-others n es)
  | inr f ↦ rw f (rw f (ap (λ xs. e ∷ xs) (others-others n es)))
]

others-snoc :
    (n : Name) (es : List Entry) (e : Entry) → e.name ≡ n → others n (es ++ e ∷ []) ≡ others n es
others-snoc n [] e h = rw (eq→beq e.name n h)
others-snoc n (x ∷ es) e h = elim (Bool-cases (x.name == n)) [
  | inl t ↦ rw t (others-snoc n es e h)
  | inr f ↦ rw f (ap (λ xs. x ∷ xs) (others-snoc n es e h))
]

pub at_name-others : (m n : Name) (es : List Entry) → m ≢ n → at_name m (others n es) ≡ at_name m es
at_name-others m n [] ne = refl
at_name-others m n (e ∷ es) ne = elim (Bool-cases (e.name == n)) [
  | inl t ↦
      let other = ne→beq_false e.name m (λ p. ne (sym p ∙ beq→eq _ _ t)) in
      rw t (rw other (at_name-others m n es ne))
  | inr f ↦
      rw f
        (elim (Bool-cases (e.name == m)) [ inl t ↦ rw t | inr g ↦ rw g (at_name-others m n es ne) ])
]

pub at_name-snoc :
    (m : Name) (es : List Entry) (e : Entry) → e.name ≢ m → at_name m (es ++ e ∷ []) ≡ at_name m es
at_name-snoc m [] e ne = rw (ne→beq_false e.name m ne)
at_name-snoc m (x ∷ es) e ne = elim (Bool-cases (x.name == m)) [
  | inl t ↦ rw t
  | inr f ↦ rw f (at_name-snoc m es e ne)
]

-- A transaction that has room.
pub make_room-discards :
    (t : Transaction) (store : ControlStateStore)
    → t.state.generation ≡ t.pointer.generation
    → make_room t store ≡ ok (discard (destination t) store)
unfolding make_room discard
make_room-discards t store h = elim (Bool-cases (exists (destination t) store)) [
  | inl there ↦
      let room = lt→ltb t.pointer.generation (t.state.generation + 1) (omega (arith, h)) in
      rw (there, room, make_room)
  | inr absent ↦
      rw (absent, make_room)
        (ap (λ es. ok (record store { generations = es }))
          (sym (others-absent (destination t) store.generations absent)))
]

-- The stops after which `execute` can be called again: before the pointer is staged.
abbrev pub IsEarly : Progress → Type 0
IsEarly untouched = Unit
IsEarly cleared = Unit
IsEarly published = Unit
IsEarly staged = ⊥
IsEarly replaced = ⊥

-- The stops before the pointer is replaced.
abbrev pub IsBefore : Progress → Type 0
IsBefore replaced = ⊥
IsBefore _ = Unit

module _ (crypto : Crypto) (manifest : ControlState → String) where
  discard-stopped :
      (k : Progress) (t : Transaction) (store : ControlStateStore)
      → IsEarly k
      → discard (destination t) (stopped manifest k t store) ≡ discard (destination t) store
  unfolding discard stopped publish
  discard-stopped staged t store early = absurd early
  discard-stopped replaced t store early = absurd early
  discard-stopped untouched t store early = refl
  discard-stopped cleared t store early =
      ap (λ es. record store { generations = es }) (others-others (destination t) store.generations)
  discard-stopped published t store early =
      ap (λ es. record store { generations = es })
        (others-snoc (destination t) (others (destination t) store.generations) _ refl
          ∙ others-others (destination t) store.generations)

  -- Entries under the destination's name do not change what is current.
  IsCurrent-others :
      (store : ControlStateStore) (p : Pointer) (now : Entry) (n : Name)
      → p.directory ≢ n
      → IsCurrent store p now
      → IsCurrent (discard n store) p now
  unfolding discard
  IsCurrent-others store p now n ne c = record {
    meta = c.meta;
    bound = c.bound;
    points = c.points;
    safe = c.safe;
    there = at_name-others p.directory n store.generations ne ∙ c.there;
  }

  IsCurrent-publish :
      (store : ControlStateStore) (p : Pointer) (now : Entry) (t : Transaction)
      → p.directory ≢ destination t
      → IsCurrent store p now
      → IsCurrent (publish manifest t store) p now
  unfolding publish
  IsCurrent-publish store p now t ne c = record {
    meta = c.meta;
    bound = c.bound;
    points = c.points;
    safe = c.safe;
    there = at_name-snoc p.directory store.generations _ (λ e. ne (sym e)) ∙ c.there;
  }

  pub stopped-IsCurrent :
      (k : Progress) (t : Transaction) (store : ControlStateStore) (call : Call)
      → IsBegun crypto store call t
      → IsBefore k
      → IsCurrent (stopped manifest k t store) t.pointer t.before
  unfolding stopped
  stopped-IsCurrent k t store call b before =
      let now = current_of-IsCurrent store t.pointer t.before b.current in
      let ne = destination-fresh crypto store call t b in
      let room = IsCurrent-others store t.pointer t.before (destination t) ne now in
      stages k before now room (IsCurrent-publish _ t.pointer t.before t ne room)
    where
      stages :
          (k : Progress)
          → IsBefore k
          → IsCurrent store t.pointer t.before
          → IsCurrent (discard (destination t) store) t.pointer t.before
          → IsCurrent (publish manifest t (discard (destination t) store)) t.pointer t.before
          → IsCurrent (stopped manifest k t store) t.pointer t.before
      stages untouched before a b c = a
      stages cleared before a b c = b
      stages published before a b c = c
      stages staged before a b c = record {
        meta = c.meta;
        bound = c.bound;
        points = c.points;
        safe = c.safe;
        there = c.there;
      }
      stages replaced before a b c = absurd before

  stopped-meta :
      (k : Progress) (t : Transaction) (store : ControlStateStore)
      → (stopped manifest k t store).meta ≡ store.meta
  unfolding stopped discard publish commit
  stopped-meta staged t store = refl
  stopped-meta replaced t store = refl
  stopped-meta untouched t store = refl
  stopped-meta cleared t store = refl
  stopped-meta published t store = refl

  begin-stopped :
      (k : Progress) (t : Transaction) (store : ControlStateStore) (call : Call)
      → begin crypto store call ≡ ok t
      → IsBefore k
      → begin crypto (stopped manifest k t store) call ≡ ok t
  unfolding begin
  begin-stopped k t store call h before =
      let b = begin-IsBegun crypto store call t h in
      let same : current_of (stopped manifest k t store) ≡ current_of store =
        IsCurrent-current_of _ _ _ (stopped-IsCurrent k t store call b before) ∙ sym b.current in
      rw (same, stopped-meta k t store) h

  pub finish-settle :
      (plan : RemediationPlan) (t : Transaction) (store : ControlStateStore)
      → t.state.generation ≡ t.pointer.generation
      → finish crypto manifest plan t store
        ≡ settle crypto manifest plan t (discard (destination t) store)
  unfolding finish
  finish-settle plan t store h = rw (make_room-discards t store h, finish) refl

  pub execute-settle :
      (store : ControlStateStore) (call : Call) (t : Transaction)
      → begin crypto store call ≡ ok t
      → execute crypto manifest store call
        ≡ settle crypto manifest call.plan t (discard (destination t) store)
  unfolding execute
  execute-settle store call t h =
      let b = begin-IsBegun crypto store call t h in
      rw (h, execute) (finish-settle call.plan t store b.generation)

  -- After a stop before the pointer is staged, the same call has the outcome of an undisturbed one.
  pub early_retry :
      (store : ControlStateStore) (call : Call) (t : Transaction) (k : Progress)
      → IsEarly k
      → IsBefore k
      → begin crypto store call ≡ ok t
      → execute crypto manifest (stopped manifest k t store) call
        ≡ execute crypto manifest store call
  early_retry store call t k early before h =
      execute-settle (stopped manifest k t store) call t (begin-stopped k t store call h before)
      ∙ ap (settle crypto manifest call.plan t) (discard-stopped k t store early)
      ∙ sym (execute-settle store call t h)

  pub current_of-stopped :
      (store : ControlStateStore) (call : Call) (t : Transaction) (k : Progress)
      → IsBefore k
      → begin crypto store call ≡ ok t
      → current_of (stopped manifest k t store) ≡ current_of store
  current_of-stopped store call t k before h =
      let b = begin-IsBegun crypto store call t h in
      IsCurrent-current_of _ _ _ (stopped-IsCurrent k t store call b before) ∙ sym b.current
