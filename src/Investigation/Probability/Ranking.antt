-- ===== src/Investigation/Probability/Ranking.antt =====
-- The ranked hypotheses of `score_proposal` of probability.py: their scores, their shares, the
-- evidence that they have, and their order.
use mathlib.Core.Logic.{◌↔◌}
use probabilistic_ai_inciden.Base.{
  map, ◌⊎◌, false, not-true, Bool-cases, ◌≡◌, refl, ap, sym, subst, String, true, List, [], ◌∷◌,
  ◌++◌, keep, inl, inr, All, not-false, string_eq,
}
use probabilistic_ai_inciden.Base.Membership.{
  In, In-append, In-append_left, In-append_right, In-map, In-map_inv,
}
use probabilistic_ai_inciden.Base.Lookup.{In-keep, keep-In}
use probabilistic_ai_inciden.Base.Sort.{sorted, sort_by, text_le, IsSorted, sort_by-In, In-sort_by}
use probabilistic_ai_inciden.Investigation.Proposal.{
  Floats, EvidenceDirection, support, contradict, same_direction, EvidenceAssessment,
  HypothesisProposal, DecisionPolicy, ComputedHypothesis,
}
use probabilistic_ai_inciden.Investigation.Probability.{
  maximum, evidence_ids, referenced, in_bounds, posteriors, ids_in, compute, ranks_before,
}

module _ (F : Floats) where
  -- The log score of a hypothesis: of its prior, and of the ratio of each piece of evidence.
  abbrev pub plain_score : F.Float → List (EvidenceAssessment F) → F.Float
  plain_score score [] = score
  plain_score score (a ∷ rest) = plain_score (F.add score (F.log a.likelihood_ratio)) rest

  abbrev pub plain_scores : List (HypothesisProposal F) → List F.Float
  plain_scores [] = []
  plain_scores (h ∷ rest) = plain_score (F.log h.prior_probability) h.evidence ∷ plain_scores rest

  -- The posterior of each score: its share of the weights, against the greatest score.
  abbrev pub shares : List F.Float → List F.Float
  shares scores =
      map
        (λ v.
          F.div (F.exp (F.sub v (maximum F scores)))
            (F.sum (map (λ w. F.exp (F.sub w (maximum F scores))) scores)))
        scores

  pub map-map :
      (f g : F.Float → F.Float) (xs : List F.Float) → map f (map g xs) ≡ map (λ x. f (g x)) xs
  map-map f g [] = refl
  map-map f g (x ∷ xs) = ap (λ ys. f (g x) ∷ ys) (map-map f g xs)

  pub posteriors-shares : (scores : List F.Float) → posteriors F scores ≡ shares scores
  unfolding posteriors
  posteriors-shares scores =
      map-map (λ v. F.div v (F.sum (map (λ w. F.exp (F.sub w (maximum F scores))) scores)))
        (λ v. F.exp (F.sub v (maximum F scores))) scores

  -- The evidence that is given in a direction.
  abbrev pub Given : List (EvidenceAssessment F) → EvidenceDirection → String → Type 0
  Given es direction x =
      (a : EvidenceAssessment F) × In a es × (a.direction ≡ direction) × (a.evidence_record_id ≡ x)

  -- The computed hypothesis is of the proposed one.
  pub record Explains (h : HypothesisProposal F) (c : ComputedHypothesis F) : Type 0 where
    pub id : c.hypothesis_id ≡ h.hypothesis_id
    pub titled : c.title ≡ h.title
    pub prior : c.prior_probability ≡ h.prior_probability
    pub score : c.log_evidence_score ≡ plain_score (F.log h.prior_probability) h.evidence
    pub reasons : (c.rationale ≡ h.rationale) × (c.falsifiers ≡ h.falsifiers)
    pub supports : (x : String) → In x c.supporting_evidence_ids ↔ Given h.evidence support x
    pub contradicts :
        (x : String) → In x c.contradicting_evidence_ids ↔ Given h.evidence contradict x

  -- The first has the greater posterior, or an equal one and no later id.
  abbrev pub Precedes : ComputedHypothesis F → ComputedHypothesis F → Type 0
  Precedes a b =
      (F.eq (F.neg b.posterior_probability) (F.neg a.posterior_probability) ≡ true)
        × (text_le a.hypothesis_id b.hypothesis_id ≡ true)
      ⊎ (F.eq (F.neg b.posterior_probability) (F.neg a.posterior_probability) ≡ false)
        × (F.lt (F.neg b.posterior_probability) (F.neg a.posterior_probability) ≡ false)

  abbrev pub InRankOrder : List (ComputedHypothesis F) → Type 0
  InRankOrder [] = Unit
  InRankOrder (a ∷ []) = Unit
  InRankOrder (a ∷ b ∷ rest) = Precedes a b × InRankOrder (b ∷ rest)

  -- The hypotheses with their posteriors, by rank.
  abbrev pub ranking : List (HypothesisProposal F) → List (ComputedHypothesis F)
  ranking hs = sort_by (ranks_before F) (compute F hs (plain_scores hs) (shares (plain_scores hs)))

  abbrev pub AllBounded : DecisionPolicy F → List (HypothesisProposal F) → Type 0
  AllBounded policy =
      All (λ (h : HypothesisProposal F). All (λ a. in_bounds F policy a ≡ true) h.evidence)

  pub ids_in-cited :
      (direction : EvidenceDirection) (es : List (EvidenceAssessment F)) (x : String)
      → In x (ids_in F direction es)
      → In x (evidence_ids F es)
  unfolding sorted
  ids_in-cited direction es x m =
      let p = λ (a : EvidenceAssessment F). same_direction a.direction direction in
      let kept = In-sort_by text_le x (evidence_ids F (keep p es)) m in
      let (a, there, e) =
        In-map_inv (λ (a : EvidenceAssessment F). a.evidence_record_id) x (keep p es) kept in
      subst (λ y. In y (evidence_ids F es)) e
        (In-map (λ (a : EvidenceAssessment F). a.evidence_record_id) a es (In-keep p es a there).0)

  -- The evidence of a computed hypothesis was cited for it.
  pub compute-cited :
      (hs : List (HypothesisProposal F)) (ss ps : List F.Float) (c : ComputedHypothesis F)
      (x : String)
      → In c (compute F hs ss ps)
      → In x (c.supporting_evidence_ids ++ c.contradicting_evidence_ids)
      → In x (referenced F hs)
  unfolding compute
  compute-cited [] ss ps c x m at = absurd m
  compute-cited (h ∷ hs) [] ps c x m at = absurd m
  compute-cited (h ∷ hs) (s ∷ ss) [] c x m at = absurd m
  compute-cited (h ∷ hs) (s ∷ ss) (p ∷ ps) c x (inr m) at =
      In-append_right x (evidence_ids F h.evidence) _ (compute-cited hs ss ps c x m at)
  compute-cited (h ∷ hs) (s ∷ ss) (p ∷ ps) c x (inl e) at =
      let own =
        subst
          (λ (y : ComputedHypothesis F).
            In x (y.supporting_evidence_ids ++ y.contradicting_evidence_ids))
          (sym e) at in
      In-append_left x (evidence_ids F h.evidence) _
        (elim (In-append x (ids_in F support h.evidence) _ own) [
          | inl l ↦ ids_in-cited support h.evidence x l
          | inr r ↦ ids_in-cited contradict h.evidence x r
        ])

  pub direction-is : (a b : EvidenceDirection) → (same_direction a b ≡ true) ↔ (a ≡ b)
  direction-is support support = (λ h. refl, λ h. refl)
  direction-is contradict contradict = (λ h. refl, λ h. refl)
  direction-is support contradict = (λ h. cc, λ h. cc)
  direction-is contradict support = (λ h. cc, λ h. cc)

  pub ids_in-Given :
      (direction : EvidenceDirection) (es : List (EvidenceAssessment F)) (x : String)
      → In x (ids_in F direction es) ↔ Given es direction x
  unfolding sorted
  ids_in-Given direction es x =
      let p = λ (a : EvidenceAssessment F). same_direction a.direction direction in
      let id = λ (a : EvidenceAssessment F). a.evidence_record_id in
      (
        λ m.
            let (a, there, e) =
              In-map_inv id x (keep p es) (In-sort_by text_le x (evidence_ids F (keep p es)) m) in
            let (at, q) = In-keep p es a there in
            (a, at, (direction-is a.direction direction).0 q, e),
        λ (a, at, d, e). sort_by-In text_le x (evidence_ids F (keep p es)) (
            subst (λ y. In y (evidence_ids F (keep p es))) e
              (In-map id a (keep p es)
                (keep-In p es a at ((direction-is a.direction direction).1 d)))),
      )

  pub compute-Explains :
      (hs : List (HypothesisProposal F)) (ps : List F.Float) (c : ComputedHypothesis F)
      → In c (compute F hs (plain_scores hs) ps)
      → (h : HypothesisProposal F) × In h hs × Explains h c
  unfolding compute
  compute-Explains [] ps c m = absurd m
  compute-Explains (h ∷ hs) [] c m = absurd m
  compute-Explains (h ∷ hs) (p ∷ ps) c (inr m) =
      let (k, at, e) = compute-Explains hs ps c m in (k, inr at, e)
  compute-Explains (h ∷ hs) (p ∷ ps) c (inl same) = (
    h,
    inl refl,
    subst (Explains h) same (record {
      id = refl;
      titled = refl;
      prior = refl;
      score = refl;
      reasons = (refl, refl);
      supports = ids_in-Given support h.evidence;
      contradicts = ids_in-Given contradict h.evidence;
    }),
  )

  pub ranks_before-Precedes :
      (a b : ComputedHypothesis F) → ranks_before F a b ≡ true → Precedes a b
  ranks_before-Precedes a b h =
      elim (Bool-cases (F.eq (F.neg b.posterior_probability) (F.neg a.posterior_probability))) [
        | inl t ↦ inl (t, not-false _ (not-true _ (rw t at h)))
        | inr f ↦ inr (f, not-true _ (rw f at h))
      ]

  pub sorted-InRankOrder :
      (cs : List (ComputedHypothesis F)) → IsSorted (ranks_before F) cs → InRankOrder cs
  sorted-InRankOrder [] s = tt
  sorted-InRankOrder (a ∷ []) s = tt
  sorted-InRankOrder (a ∷ b ∷ cs) s =
      (ranks_before-Precedes a b s.0, sorted-InRankOrder (b ∷ cs) s.1)
