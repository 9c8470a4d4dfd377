-- ===== src/Evidence/Gate.antt =====
-- backend/app/services/evidence.py: `is_stale`, `trust_for` and `must_cite_coverage`.
use text.Mathlib.Text.{◌==◌ as str_eq}
use proof_ops.Common.{
  ℕ, String, Bool, true, false, not, ◌&&◌, Option, none, some, List, [], ◌∷◌, ◌==◌, ltb, length,
  contains, is_empty, count_by, if◌then◌else◌,
}
use proof_ops.Evidence.Record.{TrustLevel, high, med, low, Evidence, Claim, is_low, is_must_cite}

-- `STALE_AFTER_S`, 900 seconds.
abbrev pub stale_after : ℕ
stale_after = 900000000

unfoldable pub is_stale : ℕ → Evidence → Bool
is_stale max_age e = ltb max_age e.freshness

unfoldable pub trust_for : Bool → Bool → TrustLevel
trust_for fresh corroborated = if fresh && corroborated then high else if fresh then med else low

-- A mapping of evidence by its id.
abbrev pub Table : Type 0
Table = List (String × Evidence)

unfoldable pub find : String → Table → Option Evidence
find i [] = none
find i ((key, e) ∷ table) = if str_eq key i then some e else find i table

-- The checks on one record of evidence: there, fresh, trusted and sealed.
unfoldable pub is_solid : Option Evidence → Bool
unfolding is_stale
is_solid none = false
is_solid (some e) = not (is_stale stale_after e) && not (is_low e.trust) && not (str_eq e.hash "")

-- One cited id; without a mapping, membership is enough.
unfoldable pub is_link : List String → Option Table → String → Bool
unfolding find is_solid
is_link valid table cited =
    contains valid cited && elim table [ none ↦ true | some t ↦ is_solid (find cited t) ]

-- `_claim_grounded`
unfoldable pub claim_grounded : List String → Option Table → List String → Bool
unfolding is_link
claim_grounded valid table [] = false
claim_grounded valid table (cited ∷ rest) =
    if is_link valid table cited then true else claim_grounded valid table rest

-- The fraction that `must_cite_coverage` returns.
pub record Ratio : Type 0 where
  pub covered : ℕ
  pub total : ℕ

-- `coverage == 1.0`
abbrev pub is_full : Ratio → Bool
is_full r = r.covered == r.total

abbrev pub select_must : List Claim → List Claim
select_must [] = []
select_must (c ∷ cs) =
    let rest = select_must cs in if is_must_cite c.claim_class then c ∷ rest else rest

-- `sum(1 for c in must if ...)`
unfoldable pub covered_in : List String → Option Table → List Claim → ℕ
unfolding claim_grounded
covered_in valid table must =
    count_by (λ (c : Claim). claim_grounded valid table c.evidence_ids) must

unfoldable pub must_cite_coverage : List Claim → List String → Option Table → Ratio
unfolding covered_in
must_cite_coverage claims valid table =
    let must = select_must claims in
    if is_empty claims
    then record { covered = 0; total = 1 }
    else if is_empty must
    then record { covered = 1; total = 1 }
    else record { covered = covered_in valid table must; total = length must }
