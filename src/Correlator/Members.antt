-- ===== src/Correlator/Members.antt =====
-- backend/app/services/correlator.py: why an alert is in the group that it is in.
use text.Mathlib.Text.{◌==◌ as str_eq}
use mathlib.Core.Path.{subst}
use proof_ops.Common.{
  ap, String, Bool, true, false, ◌≡◌, refl, ◌∙◌, Option, none, some, List, [], ◌∷◌, Bool-cases, inl,
  inr, if◌then◌else◌, arith, eq_iff, ok,
}
use proof_ops.Contracts.Value.{Value}
use proof_ops.Correlator.Alert.{Alert, alert_signature}
use proof_ops.Correlator.Signals.{Measures}
use proof_ops.Correlator.Group.{Group, is_mergeable, merged, merged_or, place, key_for, group_from}
use proof_ops.Correlator.Partition.{
  group_from-all, Belongs, by_fingerprint, by_edge, Members, Lacks, Distinct, Hits, place-Members,
  place-Distinct,
}

some_inj : {x y : String} → some x ≡ some y → x ≡ y
some_inj q = cc

clash : {b : Bool} → b ≡ true → b ≡ false → ⊥
clash q r = cc

itself : (k : String) → str_eq k k ≡ false → ⊥
itself k q = ground (arith, eq_iff k k)

module _ (edges : List (String × String)) (a : Alert) (sig : String) where
  -- The groups with a fingerprint are those that the alert may merge into.
  abbrev Mergeable : String → List Group → Type 0
  Mergeable k [] = Unit
  Mergeable k (g ∷ gs) = (str_eq g.fp k ≡ true → is_mergeable edges a sig g ≡ true) × Mergeable k gs

  absent : (k : String) (gs : List Group) → Lacks k gs → Mergeable k gs
  absent k [] l = tt
  absent k (g ∷ gs) l = ((λ h. cc), absent k gs l.1)

  merged-present :
      (k x : String) (gs : List Group)
      → merged edges a sig gs ≡ some k
      → Lacks x gs
      → str_eq x k ≡ false
  merged-present k x [] h l = cc
  merged-present k x (g ∷ gs) h l =
      go (is_mergeable edges a sig g) h (λ e. merged-present k x gs e l.1)
    where
      go :
          (b : Bool)
          → (if b then some g.fp else merged edges a sig gs) ≡ some k
          → (merged edges a sig gs ≡ some k → str_eq x k ≡ false)
          → str_eq x k ≡ false
      go true e r = ground (arith, eq_iff g.fp x, eq_iff x k, e, l.0)
      go false e r = r e

  merged-Mergeable :
      (k : String) (gs : List Group) → Distinct gs → merged edges a sig gs ≡ some k → Mergeable k gs
  merged-Mergeable k [] d h = tt
  merged-Mergeable k (g ∷ gs) d h =
      go (is_mergeable edges a sig g) refl h (λ e. merged-Mergeable k gs d.1 e)
    where
      first : g.fp ≡ k → Lacks g.fp gs → Mergeable k gs
      first e l = absent k gs (subst (λ x. Lacks x gs) e l)

      go :
          (b : Bool)
          → is_mergeable edges a sig g ≡ b
          → (if b then some g.fp else merged edges a sig gs) ≡ some k
          → (merged edges a sig gs ≡ some k → Mergeable k gs)
          → (str_eq g.fp k ≡ true → is_mergeable edges a sig g ≡ true) × Mergeable k gs
      go true m e r = ((λ q. m), first (some_inj e) d.0)
      go false m e r = ((λ q. absurd (clash q (merged-present k g.fp gs e d.0))), r e)

module _ {F : Type 0} (measures : Measures F) (deploys : List Value)
    (edges : List (String × String)) where
  mergeable-Belongs :
      (a : Alert) (sig : String) (g : Group)
      → alert_signature a ≡ ok sig
      → is_mergeable edges a sig g ≡ true
      → Belongs measures deploys edges g.service g.signature g.fp a
  unfolding is_mergeable
  mergeable-Belongs a sig g e h = by_edge sig e (ground arith) (ground arith)

  Mergeable-Hits :
      (k : String) (a : Alert) (sig : String) (gs : List Group)
      → alert_signature a ≡ ok sig
      → Mergeable edges a sig k gs
      → Hits measures deploys edges k a gs
  Mergeable-Hits k a sig [] e m = tt
  Mergeable-Hits k a sig (g ∷ gs) e m =
      ((λ q. mergeable-Belongs a sig g e (m.0 q)), Mergeable-Hits k a sig gs e m.1)

  own-Hits :
      (k : String) (a : Alert) (sig : String) (gs : List Group)
      → alert_signature a ≡ ok sig
      → key_for measures deploys a sig ≡ ok k
      → Hits measures deploys edges k a gs
  own-Hits k a sig [] e h = tt
  own-Hits k a sig (g ∷ gs) e h = (
    (λ q. by_fingerprint sig e (h ∙ ap ok (ground (arith, eq_iff g.fp k, q)))),
    own-Hits k a sig gs e h,
  )

  record Sound (gs : List Group) : Type 0 where
    members : Members measures deploys edges gs
    apart : Distinct gs

  placed :
      (a : Alert) (sig key : String) (gs : List Group)
      → alert_signature a ≡ ok sig
      → key_for measures deploys a sig ≡ ok key
      → Sound gs
      → Sound (place (merged_or (merged edges a sig gs) key) a sig gs)
  placed a sig key gs e i s = go (merged edges a sig gs) refl
    where
      own : Sound (place key a sig gs)
      own = record {
        members =
            place-Members measures deploys edges _ a sig gs (own-Hits _ a sig gs e i)
              (λ l. by_fingerprint sig e i) s.members;
        apart = place-Distinct _ a sig gs s.apart;
      }

      go :
          (o : Option String) → merged edges a sig gs ≡ o → Sound (place (merged_or o key) a sig gs)
      go none h = own
      go (some k) h = elim (Bool-cases (str_eq k "")) [
        | inl q ↦ rw q own
        | inr q ↦ rw q (record {
          members =
              place-Members measures deploys edges k a sig gs
                (Mergeable-Hits k a sig gs e (merged-Mergeable edges a sig k gs s.apart h))
                (λ l. absurd (itself k (merged-present edges a sig k k gs h l))) s.members;
          apart = place-Distinct k a sig gs s.apart;
        })
      ]

  -- Every alert of a group has the group's fingerprint, or comes from a service that the topology
  -- joins with the group's and has a similar signature; and no two groups have one fingerprint.
  pub groups-Members :
      (alerts : List Alert) {gs : List Group}
      → group_from measures deploys edges [] alerts ≡ ok gs
      → Members measures deploys edges gs × Distinct gs
  groups-Members alerts {gs} h =
      let s =
        group_from-all measures deploys edges (λ done gs. Sound gs)
          (λ done a sig key gs e i s. placed a sig key gs e i s) [] [] alerts gs
          (record { members = tt; apart = tt }) h in
      (s.members, s.apart)
