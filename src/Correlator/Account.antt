-- ===== src/Correlator/Account.antt =====
-- backend/app/services/correlator.py: no alert is lost between the input and the incidents.
use text.Mathlib.Text.{◌==◌ as str_eq}
use proof_ops.Common.{
  ℕ, ◌+◌, String, ◌≡◌, refl, ap, ◌∙◌, List, [], ◌∷◌, ◌++◌, length, length-append, Bool-cases, inl,
  inr, arith, Result, ok, err,
}
use proof_ops.Contracts.Value.{Value}
use proof_ops.Correlator.Alert.{Alert, Fault, Key, Tally, deduplicate}
use proof_ops.Correlator.Signals.{Measures, topology_edges, service_max_err}
use proof_ops.Correlator.Group.{
  Group, Incident, or_empty, insert_by_ts, sort_by_ts, merged, merged_or, place, group_from,
  incidents_of, reported, incident_of, grouped, correlate,
}
use proof_ops.Correlator.Duplicates.{deduplicate_counts}
use proof_ops.Correlator.Partition.{shared_out, group_from-all}

insert_by_ts-length : (a : Alert) (l : List Alert) → length (insert_by_ts a l) ≡ length l + 1
insert_by_ts-length a [] = refl
insert_by_ts-length a (b ∷ bs) = ground (arith, insert_by_ts-length a bs)

sort_by_ts-length : (l : List Alert) → length (sort_by_ts l) ≡ length l
unfolding sort_by_ts
sort_by_ts-length [] = refl
sort_by_ts-length (a ∷ more) =
    omega (arith, insert_by_ts-length a (sort_by_ts more), sort_by_ts-length more)

place-length :
    (fp : String) (a : Alert) (sig : String) (gs : List Group)
    → length (shared_out (place fp a sig gs)) ≡ length (shared_out gs) + 1
unfolding place
place-length fp a sig [] = refl
place-length fp a sig (g ∷ gs) = elim (Bool-cases (str_eq g.fp fp)) [
  | inl e ↦ rw e (
      omega (
        arith,
        length-append (g.alerts ++ a ∷ []) (shared_out gs),
        length-append g.alerts (shared_out gs),
        length-append g.alerts (a ∷ []),
      ))
  | inr e ↦ rw e (
      omega (
        arith,
        length-append g.alerts (shared_out (place fp a sig gs)),
        length-append g.alerts (shared_out gs),
        place-length fp a sig gs,
      ))
]

-- The alerts that incidents count.
abbrev pub counted : List Incident → ℕ
counted [] = 0
counted (i ∷ more) = i.alert_count + counted more

same_incidents :
    (r : Result Fault (List Incident)) {x y : List Incident} → r ≡ ok x → r ≡ ok y → x ≡ y
same_incidents r i j = cc

module _ {F : Type 0} (measures : Measures F) where
  groups-length :
      (deploys : List Value) (edges : List (String × String)) (alerts : List Alert)
      {gs : List Group}
      → group_from measures deploys edges [] alerts ≡ ok gs
      → length (shared_out gs) ≡ length alerts
  groups-length deploys edges alerts {gs} h =
      group_from-all measures deploys edges (λ done gs. length (shared_out gs) ≡ length done)
        (λ done a sig key gs e i p. omega (
          arith,
          place-length (merged_or (merged edges a sig gs) key) a sig gs,
          p,
          length-append done (a ∷ []),
        ))
        [] [] alerts gs refl h

  incidents-counted :
      (metrics : List Value) (by_key : List (Key × ℕ)) (gs : List Group) {is : List Incident}
      → incidents_of measures metrics by_key gs ≡ ok is
      → counted is ≡ length (shared_out gs)
  unfolding incidents_of incident_of
  incidents-counted metrics by_key [] h = ap counted (same_incidents _ h refl)
  incidents-counted metrics by_key (g ∷ gs) {is} h =
      go (service_max_err measures metrics g.service) (incidents_of measures metrics by_key gs) refl
        h (λ js k. incidents-counted metrics by_key gs {is = js} k)
    where
      go :
          (m : Result Fault F) (r : Result Fault (List Incident))
          → incidents_of measures metrics by_key gs ≡ r
          → (elim (elim m as (λ x. Result Fault Incident) [
            | err x ↦ err x
            | ok e ↦ ok (reported measures e by_key g)
          ]) [ err x ↦ err x | ok i ↦ elim r [ err x ↦ err x | ok js ↦ ok (i ∷ js) ] ])
            ≡ ok is
          → ((js : List Incident)
              → incidents_of measures metrics by_key gs ≡ ok js
              → counted js ≡ length (shared_out gs))
          → counted is ≡ length (shared_out (g ∷ gs))
      go (err x) r e q k = cc
      go (ok m) (err x) e q k = cc
      go (ok m) (ok js) e q k =
          ap counted (same_incidents _ q refl)
          ∙ omega (arith, length-append g.alerts (shared_out gs), k js e)

  -- What an outcome of `correlate` accounts for.
  pub record Accounts (alerts : List Alert) (incidents : List Incident) : Type 0 where
    pub tally : Tally
    pub deduplicated : deduplicate (sort_by_ts alerts) ≡ ok tally
    pub all_counted : counted incidents + tally.suppressed ≡ length alerts

  grouped-Accounts :
      (alerts : List Alert) (deploys metrics : List Value) (edges : List (String × String))
      (r : Result Fault Tally) {incidents : List Incident}
      → deduplicate (sort_by_ts alerts) ≡ r
      → grouped measures deploys metrics edges r ≡ ok incidents
      → Accounts alerts incidents
  grouped-Accounts alerts deploys metrics edges (err x) e h = cc
  grouped-Accounts alerts deploys metrics edges (ok t) {incidents} e h =
      go (group_from measures deploys edges [] t.unique) refl h
    where
      made :
          (gs : List Group)
          → group_from measures deploys edges [] t.unique ≡ ok gs
          → incidents_of measures metrics t.by_key gs ≡ ok incidents
          → Accounts alerts incidents
      made gs g q = record {
        tally = t;
        deduplicated = e;
        all_counted = omega (
          arith,
          incidents-counted metrics t.by_key gs q,
          groups-length deploys edges t.unique g,
          deduplicate_counts (sort_by_ts alerts) e,
          sort_by_ts-length alerts,
        );
      }

      go :
          (x : Result Fault (List Group))
          → group_from measures deploys edges [] t.unique ≡ x
          → (elim x [ err y ↦ err y | ok gs ↦ incidents_of measures metrics t.by_key gs ])
            ≡ ok incidents
          → Accounts alerts incidents
      go (err y) g q = cc
      go (ok gs) g q = made gs g q

  -- Where `correlate` returns incidents, the alerts they count and the alerts that the deduplication
  -- of the sorted input suppressed are together as many as the alerts of the input.
  pub correlate-Accounts :
      (alerts : List Alert) (deploys metrics : List Value) (topology : Value)
      {incidents : List Incident}
      → correlate measures alerts deploys metrics topology ≡ ok incidents
      → Accounts alerts incidents
  unfolding correlate
  correlate-Accounts alerts deploys metrics topology {incidents} h =
      go (topology_edges (or_empty topology)) h
    where
      go :
          (x : Result Fault (List (String × String)))
          → (elim x [
            | err y ↦ err y
            | ok edges ↦ grouped measures deploys metrics edges (deduplicate (sort_by_ts alerts))
          ])
            ≡ ok incidents
          → Accounts alerts incidents
      go (err y) q = cc
      go (ok edges) q =
          grouped-Accounts alerts deploys metrics edges (deduplicate (sort_by_ts alerts)) refl q
