-- ===== src/Correlator/Partition.antt =====
-- backend/app/services/correlator.py: the incidents share out the kept alerts.
use text.Mathlib.Text.{◌==◌ as str_eq}
use mathlib.Core.Path.{subst}
use mathlib.Core.List.{Perm, perm_middle, perm_append_singleton}
use mathlib.Core.List.Perm
use proof_ops.Common.{
  String, true, false, ◌≡◌, refl, sym, List, [], ◌∷◌, ◌++◌, append-nil, append_assoc, Bool-cases,
  inl, inr, arith, eq_iff, Result, ok, err,
}
use proof_ops.Contracts.Value.{Value}
use proof_ops.Correlator.Alert.{Alert, Fault, alert_signature}
use proof_ops.Correlator.Signals.{Measures, is_edge, is_similar}
use proof_ops.Correlator.Coverage.{All, All-last}
use proof_ops.Correlator.Group.{Group, merged, merged_or, place, key_for, group_from}

-- The alerts of the groups, in the order of the groups.
abbrev pub shared_out : List Group → List Alert
shared_out [] = []
shared_out (g ∷ gs) = g.alerts ++ shared_out gs

place-Perm :
    (fp : String) (a : Alert) (sig : String) (gs : List Group)
    → Perm (shared_out (place fp a sig gs)) (a ∷ shared_out gs)
unfolding place
place-Perm fp a sig [] = Perm.refl (a ∷ [])
place-Perm fp a sig (g ∷ gs) = elim (Bool-cases (str_eq g.fp fp)) [
  | inl e ↦ rw e (
      subst (λ l. Perm l (a ∷ g.alerts ++ shared_out gs))
        (sym (append_assoc g.alerts (a ∷ []) (shared_out gs)))
        (perm_middle g.alerts (shared_out gs)))
  | inr e ↦ rw e (
      Perm.trans (Perm.append_left g.alerts (place-Perm fp a sig gs))
        (perm_middle g.alerts (shared_out gs)))
]

-- No two groups have one fingerprint.
abbrev pub Lacks : String → List Group → Type 0
Lacks fp [] = Unit
Lacks fp (g ∷ gs) = (str_eq g.fp fp ≡ false) × Lacks fp gs

abbrev pub Distinct : List Group → Type 0
Distinct [] = Unit
Distinct (g ∷ gs) = Lacks g.fp gs × Distinct gs

place-Lacks :
    (fp x : String) (a : Alert) (sig : String) (gs : List Group)
    → str_eq fp x ≡ false
    → Lacks x gs
    → Lacks x (place fp a sig gs)
unfolding place
place-Lacks fp x a sig [] n l = (n, tt)
place-Lacks fp x a sig (g ∷ gs) n l = elim (Bool-cases (str_eq g.fp fp)) [
  | inl e ↦ rw e l
  | inr e ↦ rw e (l.0, place-Lacks fp x a sig gs n l.1)
]

pub place-Distinct :
    (fp : String) (a : Alert) (sig : String) (gs : List Group)
    → Distinct gs
    → Distinct (place fp a sig gs)
unfolding place
place-Distinct fp a sig [] d = (tt, tt)
place-Distinct fp a sig (g ∷ gs) d = elim (Bool-cases (str_eq g.fp fp)) [
  | inl e ↦ rw e d
  | inr e ↦ rw e (
    place-Lacks fp g.fp a sig gs (ground (arith, eq_iff g.fp fp, eq_iff fp g.fp, e)) d.0,
    place-Distinct fp a sig gs d.1,
  )
]

module _ {F : Type 0} (measures : Measures F) (deploys : List Value)
    (edges : List (String × String)) where
  -- What placing an alert preserves, with the alerts so far, holds of the groups.
  pub group_from-all :
      (P : List Alert → List Group → Type 0)
      → ((done : List Alert) (a : Alert) (sig key : String) (gs : List Group)
          → alert_signature a ≡ ok sig
          → key_for measures deploys a sig ≡ ok key
          → P done gs
          → P (done ++ a ∷ []) (place (merged_or (merged edges a sig gs) key) a sig gs))
      → (done : List Alert) (gs : List Group) (alerts : List Alert) (out : List Group) → P done gs
      → group_from measures deploys edges gs alerts ≡ ok out
      → P (done ++ alerts) out
  unfolding group_from
  group_from-all P step done gs [] out p h =
      subst (λ l. P l out) (sym (append-nil done)) (subst (P done) (same refl h) p)
    where
      same : {r : Result Fault (List Group)} {x y : List Group} → r ≡ ok x → r ≡ ok y → x ≡ y
      same e f = cc
  group_from-all P step done gs (a ∷ more) out p h =
      go (alert_signature a) refl h
        (λ sig key x e. group_from-all P step (done ++ a ∷ []) (next sig key) more out x e)
    where
      next : String → String → List Group
      next sig key = place (merged_or (merged edges a sig gs) key) a sig gs

      keyed :
          (sig : String)
          → alert_signature a ≡ ok sig
          → (r : Result Fault String) → key_for measures deploys a sig ≡ r
          → (elim r [
            | err x ↦ err x
            | ok key ↦ group_from measures deploys edges (next sig key) more
          ])
            ≡ ok out
          → ((key : String)
              → P (done ++ a ∷ []) (next sig key)
              → group_from measures deploys edges (next sig key) more ≡ ok out
              → P ((done ++ a ∷ []) ++ more) out)
          → P (done ++ a ∷ more) out
      keyed sig e (err x) i g k = cc
      keyed sig e (ok key) i g k =
          subst (λ l. P l out) (append_assoc done (a ∷ []) more)
            (k key (step done a sig key gs e i p) g)

      go :
          (r : Result Fault String)
          → alert_signature a ≡ r
          → (elim r [
            | err x ↦ err x
            | ok sig ↦ elim (key_for measures deploys a sig) [
              | err x ↦ err x
              | ok key ↦ group_from measures deploys edges (next sig key) more
            ]
          ])
            ≡ ok out
          → ((sig key : String)
              → P (done ++ a ∷ []) (next sig key)
              → group_from measures deploys edges (next sig key) more ≡ ok out
              → P ((done ++ a ∷ []) ++ more) out)
          → P (done ++ a ∷ more) out
      go (err x) e g k = cc
      go (ok sig) e g k = keyed sig e (key_for measures deploys a sig) refl g (k sig)

  -- The groups share out the alerts: the alerts of all groups put together are a permutation of the
  -- input, so that none is lost, added or doubled.
  pub groups-Perm :
      (alerts : List Alert) {gs : List Group}
      → group_from measures deploys edges [] alerts ≡ ok gs
      → Perm (shared_out gs) alerts
  groups-Perm alerts {gs} h =
      group_from-all (λ done gs. Perm (shared_out gs) done)
        (λ done a sig key gs e i p.
          Perm.trans (place-Perm _ a sig gs)
            (Perm.trans (Perm.cons a p) (Perm.symm (perm_append_singleton a done))))
        [] [] alerts gs (Perm.refl []) h

  -- Why an alert is in a group with a service, a signature and a fingerprint: it has the
  -- fingerprint, or comes from a service that the topology joins with the group's, with a similar
  -- signature.
  pub data Belongs (service signature fp : String) (a : Alert) : Type 0 where
    by_fingerprint :
        (sig : String)
        → alert_signature a ≡ ok sig
        → key_for measures deploys a sig ≡ ok fp
        → Belongs service signature fp a
    by_edge :
        (sig : String)
        → alert_signature a ≡ ok sig
        → is_edge edges a.service service ≡ true
        → is_similar sig signature ≡ true
        → Belongs service signature fp a

  abbrev pub Members : List Group → Type 0
  Members [] = Unit
  Members (g ∷ gs) = All (Belongs g.service g.signature g.fp) g.alerts × Members gs

  abbrev pub Hits : String → Alert → List Group → Type 0
  Hits fp a [] = Unit
  Hits fp a (g ∷ gs) = (str_eq g.fp fp ≡ true → Belongs g.service g.signature g.fp a) × Hits fp a gs

  pub place-Members :
      (fp : String) (a : Alert) (sig : String) (gs : List Group)
      → Hits fp a gs
      → (Lacks fp gs → Belongs a.service sig fp a)
      → Members gs
      → Members (place fp a sig gs)
  unfolding place
  place-Members fp a sig [] hits new m = ((new tt, tt), tt)
  place-Members fp a sig (g ∷ gs) hits new m = elim (Bool-cases (str_eq g.fp fp)) [
    | inl e ↦ rw e (All-last (Belongs g.service g.signature g.fp) g.alerts a m.0 (hits.0 e), m.1)
    | inr e ↦ rw e (m.0, place-Members fp a sig gs hits.1 (λ l. new (e, l)) m.1)
  ]
