-- ===== src/Investigation/Probability/Conclude.antt =====
-- The end of `score_proposal` of probability.py: when it concludes, and when it abstains.
use probabilistic_ai_inciden.Base.{
  arith, ◌++◌, ◌≤◌, ◌↔◌, length, leb, leb→le, le→leb, &&_true, Bool-cases, ◌≡◌, ◌⊎◌, refl, ap, sym,
  ◌∙◌, subst, String, Bool, true, false, not, ◌&&◌, none, some, List, [], ◌∷◌, inl, inr, &&_intro,
  ok, ok-injective, reject_if-eq-ok, reject_if-false, if◌then◌else◌, string_eq,
}
use probabilistic_ai_inciden.Base.Membership.{to_set}
use probabilistic_ai_inciden.Base.Sort.{sorted}
use probabilistic_ai_inciden.Investigation.Report.{concluded, abstained}
use probabilistic_ai_inciden.Investigation.Proposal.{
  Floats, InvestigationProposal, DecisionPolicy, ComputedHypothesis, ScoredReport,
}
use probabilistic_ai_inciden.Investigation.Probability.{
  max_of, min_of, entropy_terms, needs_unknown, needs_next_check, invalid_report, entropy_of,
  margin_of, is_concluded, is_missing, in_unit, confidence_of, conclude,
}

module _ (F : Floats) where
  -- The four conditions on the first two hypotheses and the entropy.
  pub record MayConclude (policy : DecisionPolicy F) (top second : ComputedHypothesis F)
      (entropy : F.Float) : Type 0 where
    pub posterior : F.le policy.minimum_top_posterior top.posterior_probability ≡ true
    pub margin :
        F.le policy.minimum_margin (F.sub top.posterior_probability second.posterior_probability)
        ≡ true
    pub evidence :
        policy.minimum_distinct_evidence
        ≤ length (to_set (top.supporting_evidence_ids ++ top.contradicting_evidence_ids))
    pub certain : F.le entropy policy.maximum_normalized_entropy ≡ true

  is_concluded-MayConclude :
      (policy : DecisionPolicy F) (top second : ComputedHypothesis F) (entropy : F.Float)
      → (is_concluded F policy top second entropy ≡ true) ↔ MayConclude policy top second entropy
  unfolding is_concluded
  is_concluded-MayConclude policy top second entropy = (
    λ h.
        let (abc, d) = &&_true _ (F.le entropy policy.maximum_normalized_entropy) h in
        let (ab, c) = &&_true _ (leb policy.minimum_distinct_evidence _) abc in
        let (a, b) = &&_true (F.le policy.minimum_top_posterior top.posterior_probability) _ ab in
        record { posterior = a; margin = b; evidence = leb→le _ _ c; certain = d },
    λ m. &&_intro (&&_intro (&&_intro m.posterior m.margin) (le→leb _ _ m.evidence)) m.certain,
  )

  -- The terms of the entropy, of the posteriors above zero.
  abbrev pub plain_terms : List (ComputedHypothesis F) → List F.Float
  plain_terms [] = []
  plain_terms (c ∷ rest) =
      if F.lt F.zero c.posterior_probability
      then F.mul c.posterior_probability (F.log c.posterior_probability) ∷ plain_terms rest
      else plain_terms rest

  plain_terms-are : (cs : List (ComputedHypothesis F)) → entropy_terms F cs ≡ plain_terms cs
  plain_terms-are [] = refl
  plain_terms-are (c ∷ rest) = elim (Bool-cases (F.lt F.zero c.posterior_probability)) [
    | inl t ↦ rw t (
        ap (λ xs. F.mul c.posterior_probability (F.log c.posterior_probability) ∷ xs)
          (plain_terms-are rest))
    | inr f ↦ rw f (plain_terms-are rest)
  ]

  -- The entropy of two hypotheses or more, normalized by that of equal ones.
  abbrev pub normalized : List (ComputedHypothesis F) → F.Float
  normalized cs = F.div (F.neg (F.sum (plain_terms cs))) (F.log (F.of_int (length cs)))

  entropy_of-normalized :
      (top second : ComputedHypothesis F) (others : List (ComputedHypothesis F))
      → entropy_of F (top ∷ second ∷ others) ≡ normalized (top ∷ second ∷ others)
  unfolding entropy_of
  entropy_of-normalized top second others =
      let many : leb (length (top ∷ second ∷ others)) 1 ≡ false = ground arith in
      rw many (
        ap (λ ts. F.div (F.neg (F.sum ts)) (F.log (F.of_int (length (top ∷ second ∷ others)))))
          (plain_terms-are (top ∷ second ∷ others)))

  -- A report of ranked hypotheses.
  pub record Concludes (proposal : InvestigationProposal F) (policy : DecisionPolicy F)
      (observed : List String) (ranked : List (ComputedHypothesis F)) (report : ScoredReport F)
      : Type 0 where
    pub top : ComputedHypothesis F
    pub second : ComputedHypothesis F
    pub others : List (ComputedHypothesis F)
    pub places : ranked ≡ top ∷ second ∷ others
    pub decided :
        MayConclude policy top second report.normalized_entropy
          × (report.status ≡ concluded)
          × (report.selected_hypothesis_id ≡ some top.hypothesis_id)
        ⊎ (¬ MayConclude policy top second report.normalized_entropy)
          × (report.status ≡ abstained)
          × (report.selected_hypothesis_id ≡ none)
          × (is_missing F proposal.explicit_unknowns ≡ false)
          × (is_missing F proposal.recommended_next_steps ≡ false)
    pub confidence :
        report.confidence
        ≡ max_of F F.zero (
            min_of F F.one
              (F.mul top.posterior_probability (F.sub F.one report.normalized_entropy)))
    pub entropy : report.normalized_entropy ≡ normalized ranked
    pub margin :
        report.posterior_margin ≡ F.sub top.posterior_probability second.posterior_probability
    pub units :
        (in_unit F report.confidence ≡ true)
        × (in_unit F report.normalized_entropy ≡ true)
        × (in_unit F report.posterior_margin ≡ true)
    pub hypotheses : report.hypotheses ≡ ranked
    pub unknowns : report.explicit_unknowns ≡ proposal.explicit_unknowns
    pub next_steps : report.recommended_next_steps ≡ proposal.recommended_next_steps
    pub evidence : report.observed_evidence_record_ids ≡ sorted observed
    pub scored : report.proposal ≡ proposal

  module _ (proposal : InvestigationProposal F) (policy : DecisionPolicy F)
      (observed : List String) where
    -- The report of hypotheses that are ranked.
    abbrev report_of :
        Bool
        → ComputedHypothesis F
        → ComputedHypothesis F
        → List (ComputedHypothesis F)
        → ScoredReport F
    report_of done top second others =
        let entropy = entropy_of F (top ∷ second ∷ others) in
        record {
          status = if done then concluded else abstained;
          selected_hypothesis_id = if done then some top.hypothesis_id else none;
          confidence = confidence_of F top entropy;
          normalized_entropy = entropy;
          posterior_margin = margin_of F top second;
          hypotheses = top ∷ second ∷ others;
          explicit_unknowns = proposal.explicit_unknowns;
          recommended_next_steps = proposal.recommended_next_steps;
          observed_evidence_record_ids = sorted observed;
          proposal = proposal;
        }

    missing-false : (a b : Bool) → (not a && b) ≡ false → a ≡ false → b ≡ false
    missing-false true b h e = cc
    missing-false false b h e = h

    and_parts : (a b c : Bool) → not (a && b && c) ≡ false → (a ≡ true) × (b ≡ true) × (c ≡ true)
    and_parts a b c h = ground arith

    report_of-Concludes :
        (top second : ComputedHypothesis F) (others : List (ComputedHypothesis F)) (done : Bool)
        → is_concluded F policy top second (entropy_of F (top ∷ second ∷ others)) ≡ done
        → (not done && is_missing F proposal.explicit_unknowns) ≡ false
        → (not done && is_missing F proposal.recommended_next_steps) ≡ false
        → not (
            in_unit F (confidence_of F top (entropy_of F (top ∷ second ∷ others)))
            && in_unit F (entropy_of F (top ∷ second ∷ others))
            && in_unit F (margin_of F top second))
          ≡ false
        → Concludes proposal policy observed
            (top ∷ second ∷ others)
            (report_of done top second others)
    report_of-Concludes top second others done e u n v = record {
      top = top;
      second = second;
      others = others;
      places = refl;
      decided = decide done e u n;
      confidence = refl;
      entropy = entropy_of-normalized top second others;
      margin = refl;
      units = and_parts (in_unit F _) (in_unit F _) (in_unit F _) v;
      hypotheses = refl;
      unknowns = refl;
      next_steps = refl;
      evidence = refl;
      scored = refl;
    }
      where
        decide :
            (done : Bool)
            → is_concluded F policy top second (entropy_of F (top ∷ second ∷ others)) ≡ done
            → (not done && is_missing F proposal.explicit_unknowns) ≡ false
            → (not done && is_missing F proposal.recommended_next_steps) ≡ false
            → MayConclude policy top second (entropy_of F (top ∷ second ∷ others))
                × ((report_of done top second others).status ≡ concluded)
                × ((report_of done top second others).selected_hypothesis_id
                    ≡ some top.hypothesis_id)
              ⊎ (¬ MayConclude policy top second (entropy_of F (top ∷ second ∷ others)))
                × ((report_of done top second others).status ≡ abstained)
                × ((report_of done top second others).selected_hypothesis_id ≡ none)
                × (is_missing F proposal.explicit_unknowns ≡ false)
                × (is_missing F proposal.recommended_next_steps ≡ false)
        decide true e u n = inl ((is_concluded-MayConclude policy top second _).0 e, refl, refl)
        decide false e u n = inr (
          λ m. absurd (cc (e, (is_concluded-MayConclude policy top second _).1 m)),
          refl,
          refl,
          u,
          n,
        )

    pub conclude-Concludes :
        (ranked : List (ComputedHypothesis F)) (report : ScoredReport F)
        → conclude F proposal policy observed ranked ≡ ok report
        → Concludes proposal policy observed ranked report
    unfolding conclude
    conclude-Concludes [] report h = cc
    conclude-Concludes (only ∷ []) report h = cc
    conclude-Concludes (top ∷ second ∷ others) report h =
        let done = is_concluded F policy top second (entropy_of F (top ∷ second ∷ others)) in
        let (u, h1) =
          reject_if-eq-ok (not done && is_missing F proposal.explicit_unknowns) needs_unknown _ h in
        let (n, h2) =
          reject_if-eq-ok (not done && is_missing F proposal.recommended_next_steps)
            needs_next_check _ h1 in
        let entropy = entropy_of F (top ∷ second ∷ others) in
        let (v, h3) =
          reject_if-eq-ok
            (not (
              in_unit F (confidence_of F top entropy)
              && in_unit F entropy
              && in_unit F (margin_of F top second)))
            invalid_report _ h2 in
        subst (Concludes proposal policy observed (top ∷ second ∷ others)) (ok-injective h3)
          (report_of-Concludes top second others done refl u n v)

    conclude-report_of :
        (top second : ComputedHypothesis F) (others : List (ComputedHypothesis F)) (done : Bool)
        → is_concluded F policy top second (entropy_of F (top ∷ second ∷ others)) ≡ done
        → (not done && is_missing F proposal.explicit_unknowns) ≡ false
        → (not done && is_missing F proposal.recommended_next_steps) ≡ false
        → (in_unit F (confidence_of F top (entropy_of F (top ∷ second ∷ others)))
            && in_unit F (entropy_of F (top ∷ second ∷ others))
            && in_unit F (margin_of F top second))
          ≡ true
        → conclude F proposal policy observed (top ∷ second ∷ others)
          ≡ ok (report_of done top second others)
    unfolding conclude
    conclude-report_of top second others done e u n v =
        let back =
          λ (b : Bool) (p : (not done && b) ≡ false). subst (λ d. (not d && b) ≡ false) (sym e) p in
        reject_if-false _ _ _ (back (is_missing F proposal.explicit_unknowns) u) (
          reject_if-false _ _ _ (back (is_missing F proposal.recommended_next_steps) n)
            (reject_if-false _ _ _ (ap not v) refl))
        ∙ ap (λ d. ok (report_of d top second others)) e

    pub Concludes-conclude :
        (ranked : List (ComputedHypothesis F)) (report : ScoredReport F)
        → Concludes proposal policy observed ranked report
        → conclude F proposal policy observed ranked ≡ ok report
    Concludes-conclude ranked report c =
        let (u1, u2, u3) = c.units in
        let entropy =
          c.entropy
          ∙ ap normalized c.places
          ∙ sym (entropy_of-normalized c.top c.second c.others) in
        let inside =
          &&_intro
            (&&_intro
              (subst (λ x. in_unit F x ≡ true) (c.confidence ∙ ap (confidence_of F c.top) entropy)
                u1)
              (subst (λ x. in_unit F x ≡ true) entropy u2))
            (subst (λ x. in_unit F x ≡ true) c.margin u3) in
        let may = is_concluded-MayConclude policy c.top c.second in
        let at =
          λ (done : Bool)
              (e : is_concluded F policy c.top c.second report.normalized_entropy ≡ done).
            subst (λ x. is_concluded F policy c.top c.second x ≡ done) entropy e in
        subst (λ r. conclude F proposal policy observed r ≡ ok report) (sym c.places)
          (elim c.decided [
            | inl (e, status, selected) ↦
                conclude-report_of c.top c.second c.others true
                  (at true ((may report.normalized_entropy).1 e)) refl refl inside
                ∙ ap ok (same_report true c (sym status) (sym selected) entropy)
            | inr (e, status, selected, u, n) ↦
                conclude-report_of c.top c.second c.others false (at false (refused e)) u n inside
                ∙ ap ok (same_report false c (sym status) (sym selected) entropy)
          ])
      where
        refused :
            ¬ MayConclude policy c.top c.second report.normalized_entropy
            → is_concluded F policy c.top c.second report.normalized_entropy ≡ false
        refused n =
            elim (Bool-cases (is_concluded F policy c.top c.second report.normalized_entropy)) [
              | inl t ↦ absurd (n ((is_concluded-MayConclude policy c.top c.second _).0 t))
              | inr f ↦ f
            ]

        same_report :
            (done : Bool) (c : Concludes proposal policy observed ranked report)
            → (if done then concluded else abstained) ≡ report.status
            → (if done then some c.top.hypothesis_id else none) ≡ report.selected_hypothesis_id
            → report.normalized_entropy ≡ entropy_of F (c.top ∷ c.second ∷ c.others)
            → report_of done c.top c.second c.others ≡ report
        same_report done c status selected entropy =
            let confidence = sym (c.confidence ∙ ap (confidence_of F c.top) entropy) in
            let hypotheses = sym (c.hypotheses ∙ c.places) in
            λ i. record {
              status = status i;
              selected_hypothesis_id = selected i;
              confidence = confidence i;
              normalized_entropy = sym entropy i;
              posterior_margin = sym c.margin i;
              hypotheses = hypotheses i;
              explicit_unknowns = sym c.unknowns i;
              recommended_next_steps = sym c.next_steps i;
              observed_evidence_record_ids = sym c.evidence i;
              proposal = sym c.scored i;
            }
