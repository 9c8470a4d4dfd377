-- ===== src/Evidence/Coverage.antt =====
-- What full coverage means.
use text.Mathlib.Text.{◌==◌ as str_eq}
use proof_ops.Common.{
  ◌≤◌, String, ◌≡◌, ◌≢◌, ap, ◌↔◌, refl, true, false, Option, none, some, List, [], ◌∷◌, arith,
  length, contains, is_empty, eq_iff, inl, inr, Bool-cases,
}
use proof_ops.Evidence.Record.{
  TrustLevel, high, med, low, ClaimClass, must_cite, should_cite, optional, Evidence, Claim, is_low,
  is_must_cite,
}
use proof_ops.Evidence.Gate.{
  stale_after, is_stale, Table, find, is_solid, is_link, claim_grounded, is_full, select_must,
  covered_in, must_cite_coverage,
}

-- A citation that stands: a valid id of evidence that is at most 15 minutes old, trusted and sealed.
pub record IsSolidLink (valid : List String) (table : Table) (cited : List String) : Type 0 where
  pub id : String
  pub evidence : Evidence
  pub is_cited : contains cited id ≡ true
  pub is_valid : contains valid id ≡ true
  pub found : find id table ≡ some evidence
  pub fresh : evidence.freshness ≤ 900000000
  pub trusted : evidence.trust ≢ low
  pub sealed : evidence.hash ≢ ""

-- A citation that stands where no table of evidence is passed: any valid id.
pub record IsListed (valid cited : List String) : Type 0 where
  pub id : String
  pub is_cited : contains cited id ≡ true
  pub is_valid : contains valid id ≡ true

-- What a MUST-CITE claim has to cite, without a table of evidence and with one.
abbrev pub Stands : List String → Option Table → List String → Type 0
Stands valid none cited = IsListed valid cited
Stands valid (some table) cited = IsSolidLink valid table cited

-- Every MUST-CITE claim has such a citation.
abbrev pub AreCited : List String → Option Table → List Claim → Type 0
AreCited valid evidence [] = Unit
AreCited valid evidence (c ∷ cs) =
    (c.claim_class ≡ must_cite → Stands valid evidence c.evidence_ids) × AreCited valid evidence cs

fresh_enough : (e : Evidence) → is_stale stale_after e ≡ false → e.freshness ≤ 900000000
unfolding is_stale
fresh_enough e h = ground (arith, h)

still_fresh : (e : Evidence) → e.freshness ≤ 900000000 → is_stale stale_after e ≡ false
unfolding is_stale
still_fresh e h = ground (arith, h)

above_low : (t : TrustLevel) → is_low t ≡ false → t ≢ low
above_low low h = cc
above_low high h = λ q. cc
above_low med h = λ q. cc

no_low : (t : TrustLevel) → t ≢ low → is_low t ≡ false
no_low low d = absurd (d refl)
no_low high d = refl
no_low med d = refl

has_hash : (s : String) → s ≢ "" → str_eq s "" ≡ false
has_hash s d = ground (arith, eq_iff s "", d)

is_must : (k : ClaimClass) → is_must_cite k ≡ true → k ≡ must_cite
is_must must_cite h = refl
is_must should_cite h = cc
is_must optional h = cc

must : (k : ClaimClass) → k ≡ must_cite → is_must_cite k ≡ true
must k h = ap is_must_cite h

module _ (valid : List String) (table : Table) where
  link_sound :
      (i : String)
      → is_link valid (some table) i ≡ true
      → (e : Evidence) × (contains valid i ≡ true)
        × (find i table ≡ some e)
        × (is_stale stale_after e ≡ false)
        × (is_low e.trust ≡ false)
        × (str_eq e.hash "" ≡ false)
  unfolding is_link is_solid
  link_sound i h = ground arith

  link_complete :
      (i : String) (e : Evidence)
      → contains valid i ≡ true
      → find i table ≡ some e
      → is_stale stale_after e ≡ false
      → is_low e.trust ≡ false
      → str_eq e.hash "" ≡ false
      → is_link valid (some table) i ≡ true
  unfolding is_link is_solid
  link_complete i e v f s t h = ground arith

  grounded_sound :
      (cited : List String)
      → claim_grounded valid (some table) cited ≡ true
      → IsSolidLink valid table cited
  unfolding claim_grounded
  grounded_sound [] h = ground arith
  grounded_sound (i ∷ rest) h = elim (Bool-cases (is_link valid (some table) i)) [
    | inl here ↦
        let (e, v, f, s, t, k) = link_sound i here in
        record {
          id = i;
          evidence = e;
          is_cited = ground (arith, eq_iff i i);
          is_valid = v;
          found = f;
          fresh = fresh_enough e s;
          trusted = above_low e.trust t;
          sealed = λ q. ground (arith, eq_iff e.hash "", k);
        }
    | inr not_here ↦
        let l = grounded_sound rest (ground (arith, h, not_here)) in
        record {
          id = l.id;
          evidence = l.evidence;
          is_cited = ground (arith, l.is_cited);
          is_valid = l.is_valid;
          found = l.found;
          fresh = l.fresh;
          trusted = l.trusted;
          sealed = l.sealed;
        }
  ]

  grounded_by :
      (cited : List String) (i : String)
      → contains cited i ≡ true
      → is_link valid (some table) i ≡ true
      → claim_grounded valid (some table) cited ≡ true
  unfolding claim_grounded
  grounded_by [] i c k = ground arith
  grounded_by (j ∷ rest) i c k = ground (arith, eq_iff j i, grounded_by rest i)

  grounded_complete :
      (cited : List String)
      → IsSolidLink valid table cited
      → claim_grounded valid (some table) cited ≡ true
  grounded_complete cited l = grounded_by cited l.id l.is_cited (
      link_complete l.id l.evidence l.is_valid l.found (still_fresh l.evidence l.fresh)
        (no_low l.evidence.trust l.trusted) (has_hash l.evidence.hash l.sealed))

module _ (valid : List String) where
  claim_grounded-IsListed :
      (cited : List String) → claim_grounded valid none cited ≡ true → IsListed valid cited
  unfolding claim_grounded is_link
  claim_grounded-IsListed [] h = ground arith
  claim_grounded-IsListed (i ∷ rest) h = elim (Bool-cases (contains valid i)) [
    | inl v ↦ record { id = i; is_cited = ground (arith, eq_iff i i); is_valid = v }
    | inr not_here ↦
        let l = claim_grounded-IsListed rest (ground (arith, h, not_here)) in
        record { id = l.id; is_cited = ground (arith, l.is_cited); is_valid = l.is_valid }
  ]

  listed_by :
      (cited : List String) (i : String)
      → contains cited i ≡ true
      → contains valid i ≡ true
      → claim_grounded valid none cited ≡ true
  unfolding claim_grounded is_link
  listed_by [] i c k = ground arith
  listed_by (j ∷ rest) i c k = ground (arith, eq_iff j i, listed_by rest i)

  claim_grounded-Stands :
      (evidence : Option Table) (cited : List String)
      → claim_grounded valid evidence cited ≡ true
      → Stands valid evidence cited
  claim_grounded-Stands none cited h = claim_grounded-IsListed cited h
  claim_grounded-Stands (some table) cited h = grounded_sound valid table cited h

  Stands-claim_grounded :
      (evidence : Option Table) (cited : List String)
      → Stands valid evidence cited
      → claim_grounded valid evidence cited ≡ true
  Stands-claim_grounded none cited l = listed_by cited l.id l.is_cited l.is_valid
  Stands-claim_grounded (some table) cited l = grounded_complete valid table cited l

module _ (valid : List String) (evidence : Option Table) where
  covered_bound : (cs : List Claim) → covered_in valid evidence cs ≤ length cs
  unfolding covered_in
  covered_bound [] = omega arith
  covered_bound (c ∷ cs) = ground (arith, covered_bound cs)

  all_covered :
      (cs : List Claim)
      → covered_in valid evidence (select_must cs) ≡ length (select_must cs)
      → AreCited valid evidence cs
  unfolding covered_in
  all_covered [] h = tt
  all_covered (c ∷ cs) h = (
    λ m.
        claim_grounded-Stands valid evidence c.evidence_ids
          (ground (arith, must c.claim_class m, covered_bound (select_must cs))),
    all_covered cs (ground (arith, covered_bound (select_must cs))),
  )

  cited_counts :
      (cs : List Claim)
      → AreCited valid evidence cs
      → covered_in valid evidence (select_must cs) ≡ length (select_must cs)
  unfolding covered_in
  cited_counts [] h = refl
  cited_counts (c ∷ cs) (here, later) = elim (Bool-cases (is_must_cite c.claim_class)) [
    | inl m ↦ ground (
      arith,
      m,
      Stands-claim_grounded valid evidence c.evidence_ids (here (is_must c.claim_class m)),
      cited_counts cs later,
    )
    | inr n ↦ ground (arith, n, cited_counts cs later)
  ]

  none_left : (cs : List Claim) → is_empty cs ≡ true → covered_in valid evidence cs ≡ length cs
  unfolding covered_in
  none_left [] h = refl
  none_left (c ∷ cs) h = ground (arith, h)

  -- Coverage is 1.0 exactly when there is a claim and every MUST-CITE claim has a citation that
  -- stands: where a table of evidence is passed, a valid id of evidence in it that is at most 15
  -- minutes old, not of LOW trust and sealed; where none is passed, any valid id.
  pub coverage_full :
      (claims : List Claim)
      → (is_full (must_cite_coverage claims valid evidence) ≡ true)
        ↔ ((is_empty claims ≡ false) × AreCited valid evidence claims)
  unfolding must_cite_coverage
  coverage_full claims =
      let must = select_must claims in
      (
        λ h. (ground (arith, h), all_covered claims (ground (arith, h, none_left must))),
        λ (n, a). ground (arith, n, cited_counts claims a),
      )
