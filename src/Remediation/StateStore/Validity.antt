-- ===== src/Remediation/StateStore/Validity.antt =====
-- `validate` of state_store.py, before and after a call of `execute` that returns.
use probabilistic_ai_inciden.Base.{
  ◌≡◌, ◌≢◌, ◌↔◌, refl, ap, sym, ◌∙◌, subst, ℕ, ◌+◌, String, inl, inr, true, false, not, ltb, ltb→lt,
  ltb_false→le, some, List, [], ◌∷◌, ◌++◌, arith, Bool-cases, ne→beq_false, ok-injective,
  All-append, beq→eq, eq→beq, passes_ne, same→passes, not-false, nat_eq, string_eq, ok, ◌==◌, ◌!=◌,
  >>=-eq-ok, or_raise-eq-ok, reject_if-eq-ok, reject_if-false,
}
use probabilistic_ai_inciden.Base.Membership.{
  In, In-append_left, In-append_right, In-map, In-map_inv, Distinct, Distinct-snoc,
}
use probabilistic_ai_inciden.Base.Lookup.{
  In-keep, keep-In, All-keep, Distinct-keep, Distinct-middle, map-append,
}
use probabilistic_ai_inciden.Remediation.Models.{ControlState}
use probabilistic_ai_inciden.Remediation.Models.Plan.{ExecutionReceipt}
use probabilistic_ai_inciden.Remediation.Config.{Crypto}
use probabilistic_ai_inciden.Remediation.Generation.{
  Name, number, name_eq, Entry, Pointer, ControlStateStore, not_contiguous, unloadable,
  generation_differs,
}
use probabilistic_ai_inciden.Remediation.StateStore.{
  current_of, Call, Transaction, destination, discard, publish, commit, execute, number_of,
  is_invalid, generation_roots, is_contiguous, check_receipt, validate,
}
use probabilistic_ai_inciden.Remediation.StateStore.Begin.{
  IsCurrent-current_of, IsBegun, after-generation,
}
use probabilistic_ai_inciden.Remediation.StateStore.Crash.{others}
use probabilistic_ai_inciden.Remediation.StateStore.Commit.{
  committed, committed-IsCurrent, new_entry, new_pointer, execute-HasCommitted,
}
use probabilistic_ai_inciden.Remediation.StateStore.Roots.{
  numbers, AllNamed, generation_roots_iff, generation_roots-same, Contiguous,
  is_contiguous-Contiguous, Contiguous-is_contiguous,
}

-- What `validate` accepts.
pub record IsValid (crypto : Crypto) (store : ControlStateStore) : Type 0 where
  pub pointer : Pointer
  pub entry : Entry
  pub state : ControlState
  pub current : current_of store ≡ ok (pointer, entry)
  pub distinct : Distinct (numbers store.generations)
  pub named : AllNamed store.generations
  pub contiguous : Contiguous pointer store.generations
  pub loads : entry.state ≡ some state
  pub generation : state.generation ≡ pointer.generation
  pub receipt : check_receipt crypto entry state pointer.receipt_sha256 ≡ ok tt

module _ (crypto : Crypto) where
  pub validate-IsValid :
      (store : ControlStateStore) → validate crypto store ≡ ok tt → IsValid crypto store
  unfolding validate
  validate-IsValid store h =
      let (now, current, h1) = >>=-eq-ok (current_of store) _ h in
      let (roots, scanned, h2) = >>=-eq-ok (generation_roots [] store.generations) _ h1 in
      let (contiguous, h3) =
        reject_if-eq-ok (not (is_contiguous now.0 roots)) not_contiguous _ h2 in
      let (state, loads, h4) = or_raise-eq-ok now.1.state unloadable _ h3 in
      let (same, h5) =
        reject_if-eq-ok (state.generation != now.0.generation) generation_differs _ h4 in
      let all = generation_roots-same store.generations roots scanned in
      let (distinct, named) = (generation_roots_iff store.generations).0 (scanned ∙ ap ok all) in
      record {
        pointer = now.0;
        entry = now.1;
        state = state;
        current = current;
        distinct = distinct;
        named = named;
        contiguous =
            is_contiguous-Contiguous now.0 store.generations
              (subst (λ es. is_contiguous now.0 es ≡ true) all (not-false _ contiguous));
        loads = loads;
        generation = passes_ne _ _ same;
        receipt = h5;
      }

  pub IsValid-validate :
      (store : ControlStateStore) → IsValid crypto store → validate crypto store ≡ ok tt
  unfolding validate check_receipt
  IsValid-validate store v =
      rw (v.current, validate)
        (rw ((generation_roots_iff store.generations).1 (v.distinct, v.named), validate)
          (reject_if-false _ _ _
            (ap not (Contiguous-is_contiguous v.pointer store.generations v.distinct v.contiguous))
            (rw v.loads (reject_if-false _ _ _ (same→passes _ _ v.generation) v.receipt))))

-- No entry has the number of the destination, except one that has its name.
abbrev HasRoom : Name → List Entry → Type 0
HasRoom n es = (e : Entry) → In e es → number_of e ≡ number n → e.name ≡ n

module _ (es : List Entry) (new : Entry) where
  abbrev renewed : List Entry
  renewed = others new.name es ++ new ∷ []

  room_free : HasRoom new.name es → ¬ In (number_of new) (numbers (others new.name es))
  room_free room m =
      let (e, kept, same) = In-map_inv number_of (number_of new) (others new.name es) m in
      let (there, other) = In-keep _ es e kept in
      cc (other, eq→beq e.name new.name (room e there same))

  renewed-Distinct : Distinct (numbers es) → HasRoom new.name es → Distinct (numbers renewed)
  renewed-Distinct d room =
      subst Distinct (sym (map-append number_of (others new.name es) (new ∷ []))) (
        Distinct-snoc (numbers (others new.name es)) (number_of new)
          (Distinct-keep number_of _ es d) (room_free room))

  Distinct-HasRoom : Distinct (numbers renewed) → HasRoom new.name es
  Distinct-HasRoom d e m same = elim (Bool-cases (e.name == new.name)) [
    | inl t ↦ beq→eq _ _ t
    | inr f ↦
        let kept = keep-In (λ (x : Entry). not (x.name == new.name)) es e m (ap not f) in
        let split = subst Distinct (map-append number_of (others new.name es) (new ∷ [])) d in
        absurd (
          Distinct-middle (numbers (others new.name es)) (number_of new) [] split (
            subst (λ n. In n (numbers (others new.name es))) same
              (In-map number_of e (others new.name es) kept)))
  ]

  renewed-full : (n : ℕ) → In n (numbers es) → n ≢ number_of new → In n (numbers renewed)
  renewed-full n m ne =
      let (e, there, same) = In-map_inv number_of n es m in
      let other : (e.name == new.name) ≡ false =
        ne→beq_false _ _ (λ t. ne (sym same ∙ ap number t)) in
      let kept = keep-In (λ (x : Entry). not (x.name == new.name)) es e there (ap not other) in
      subst (λ k. In k (numbers renewed)) same
        (In-map number_of e renewed (In-append_left e (others new.name es) (new ∷ []) kept))

  -- A new entry that follows the pointer's prolongs the generations.
  renewed-Contiguous :
      (p q : Pointer)
      → Contiguous p es
      → q.generation ≡ p.generation + 1
      → q.generation ≡ number_of new
      → q.directory ≡ new.name
      → Contiguous q renewed
  renewed-Contiguous p q c next number_new named = record {
    entry = new;
    there = In-append_right new (others new.name es) (new ∷ []) (inl refl);
    current = sym number_new;
    named = sym named;
    full = λ n le. elim (Bool-cases (ltb n q.generation)) [
      | inl t ↦
          let lt = ltb→lt n q.generation t in
          renewed-full n (c.full n (omega (arith, lt, next)))
            (λ e. absurd (omega (arith, lt, e, number_new)))
      | inr f ↦
          let last : number_of new ≡ n =
            omega (arith, ltb_false→le n q.generation f, le, number_new) in
          subst (λ k. In k (numbers renewed)) last
            (In-map number_of new renewed
              (In-append_right new (others new.name es) (new ∷ []) (inl refl)))
    ];
  }

module _ (crypto : Crypto) (manifest : ControlState → String) where
  committed-IsValid :
      (store : ControlStateStore) (call : Call) (t : Transaction)
      → IsBegun crypto store call t
      → IsValid crypto store
      → HasRoom (destination t) store.generations
      → IsValid crypto (committed crypto manifest t store)
  unfolding commit publish discard check_receipt
  committed-IsValid store call t b v room =
      let same : v.pointer ≡ t.pointer = ap (λ x. x.0) (ok-injective (sym v.current ∙ b.current)) in
      let new = new_entry crypto manifest t in
      let now = committed-IsCurrent crypto manifest store call t b in
      record {
        pointer = new_pointer crypto manifest t;
        entry = new;
        state = t.after;
        current = IsCurrent-current_of _ _ _ now;
        distinct = renewed-Distinct store.generations new v.distinct room;
        named =
            All-append (λ (e : Entry). is_invalid e.name ≡ false)
              (others (destination t) store.generations) (new ∷ [])
              (All-keep _ _ store.generations v.named) (ground arith, tt);
        contiguous =
            renewed-Contiguous store.generations new v.pointer (new_pointer crypto manifest t)
              v.contiguous
              (ap (λ n. n + 1) b.generation ∙ ap (λ (p : Pointer). p.generation + 1) (sym same))
              refl refl;
        loads = refl;
        generation = after-generation crypto store call t b;
        receipt =
            reject_if-false _ _ _ (same→passes t.receipt.receipt_sha256 _ refl)
              (reject_if-false _ _ _ (same→passes _ _ b.done.payload) refl);
      }

  -- After a call that returned on a store that validates, the store validates exactly when no
  -- other directory with the number of the new generation was there before the call.
  pub execute-validates_iff :
      (store : ControlStateStore) (call : Call) (out : Name × ExecutionReceipt)
      → validate crypto store ≡ ok tt
      → (execute crypto manifest store call).1 ≡ ok out
      → (validate crypto (execute crypto manifest store call).0 ≡ ok tt)
        ↔ ((e : Entry) → In e store.generations → number_of e ≡ number out.0 → e.name ≡ out.0)
  unfolding commit publish discard
  execute-validates_iff store call out valid h =
      let v = validate-IsValid crypto store valid in
      let (t, c) = execute-HasCommitted crypto manifest store call out h in
      let at : out.0 ≡ destination t = ap (λ x. x.0) c.returns in
      let new = new_entry crypto manifest t in
      (
        λ accepted.
            let w =
              validate-IsValid crypto (committed crypto manifest t store)
                (subst (λ s. validate crypto s ≡ ok tt) c.leaves accepted) in
            subst (λ n. HasRoom n store.generations) (sym at)
              (Distinct-HasRoom store.generations new w.distinct),
        λ room.
            subst (λ s. validate crypto s ≡ ok tt) (sym c.leaves)
              (IsValid-validate crypto (committed crypto manifest t store) (
                committed-IsValid store call t c.begun v
                  (subst (λ n. HasRoom n store.generations) at room))),
      )
