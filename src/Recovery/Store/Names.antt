-- ===== src/Recovery/Store/Names.antt =====
-- Numbers and names of the directories of the store of src/paic/recovery/lifecycle.py.
use probabilistic_ai_inciden.Base.Membership.{
  In, In-map, In-map_inv, Distinct, is_unique→Distinct, Distinct→is_unique,
}
use probabilistic_ai_inciden.Base.Lookup.{In-keep, keep-In}
use probabilistic_ai_inciden.Base.{
  suc, ◌↔◌, keep, any, map, leb, Bool, Bool-cases, inl, inr, ◌==◌, beq→eq, eq→beq, not-true, ℕ, ◌≡◌,
  refl, ap, subst, String, false, not, List, [], ◌∷◌, arith, ◌!=◌, string_eq, nat_eq, or_false,
  ||_false, not-false,
}
use probabilistic_ai_inciden.Recovery.Store.{
  DirectoryName, directory_name_eq, number_of, has_duplicates, lifecycle_status_eq, trigger_eq,
  lifecycle_state_eq,
}

pub any_false→not_In :
    {A : Type 0} (p : A → Bool) (xs : List A) (x : A) → any p xs ≡ false → In x xs → p x ≡ false
any_false→not_In p [] x h m = absurd m
any_false→not_In p (y ∷ ys) x h (inl e) = subst (λ z. p z ≡ false) e (||_false (p y) _ h).0
any_false→not_In p (y ∷ ys) x h (inr m) = any_false→not_In p ys x (||_false (p y) _ h).1 m

pub not_In→any_false :
    {A : Type 0} (p : A → Bool) (xs : List A) → ((x : A) → In x xs → p x ≡ false) → any p xs ≡ false
not_In→any_false p [] f = refl
not_In→any_false p (y ∷ ys) f =
    or_false (f y (inl refl)) (not_In→any_false p ys (λ x m. f x (inr m)))

pub Distinct-map_keep :
    (p : DirectoryName → Bool) (ds : List DirectoryName)
    → Distinct (map number_of ds)
    → Distinct (map number_of (keep p ds))
Distinct-map_keep p [] d = tt
Distinct-map_keep p (x ∷ ds) d = elim (Bool-cases (p x)) [
  | inl t ↦ rw t (fresh, Distinct-map_keep p ds d.1)
  | inr f ↦ rw f (Distinct-map_keep p ds d.1)
]
  where
    fresh : ¬ In (number_of x) (map number_of (keep p ds))
    fresh m =
        let (y, at, e) = In-map_inv number_of (number_of x) (keep p ds) m in
        d.0 (subst (λ n. In n (map number_of ds)) e (In-map number_of y ds (In-keep p ds y at).0))

-- Of directories whose numbers are greater than a number and distinct, those without one name.
pub keep-alone :
    (n : ℕ) (ds : List DirectoryName) (suffix : String)
    → has_duplicates n ds ≡ false
    → (has_duplicates
          (suc n)
          (keep (λ (d : DirectoryName). d != record { number = suc n; suffix = suffix }) ds)
        ≡ false)
      ↔ ((d : DirectoryName) → In d ds → d.number ≡ suc n → d.suffix ≡ suffix)
unfolding has_duplicates
keep-alone n ds suffix h =
    let (above, unique) = ||_false (any (λ d. leb (number_of d) n) ds) _ h in
    let distinct = is_unique→Distinct (map number_of ds) (not-false _ unique) in
    (
      λ k d m at. elim (Bool-cases (d == name)) [
        | inl t ↦ ap (λ (x : DirectoryName). x.suffix) (beq→eq d name t)
        | inr f ↦
            let kept = keep-In other ds d m (ap not f) in
            let high =
              any_false→not_In (λ d. leb (number_of d) (suc n)) (keep other ds) d (||_false _ _ k).0
                kept in
            absurd (ground (arith, high, at))
      ],
      λ f.
          or_false
            (not_In→any_false (λ d. leb (number_of d) (suc n)) (keep other ds)
              (λ d m.
                let (here, differs) = In-keep other ds d m in
                let low = any_false→not_In (λ d. leb (number_of d) n) ds d above here in
                elim (Bool-cases (leb (number_of d) (suc n))) [
                  | inr high ↦ high
                  | inl bad ↦
                      let at : d.number ≡ suc n = ground (arith, low, bad) in
                      let same : d ≡ name = λ i. record { number = at i; suffix = f d here at i } in
                      absurd (cc (not-true _ differs, eq→beq d name same))
                ]))
            (ap not (Distinct→is_unique _ (Distinct-map_keep other ds distinct))),
    )
  where
    name : DirectoryName
    name = record { number = suc n; suffix = suffix }

    other : DirectoryName → Bool
    other d = d != record { number = suc n; suffix = suffix }
