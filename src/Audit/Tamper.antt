-- ===== src/Audit/Tamper.antt =====
-- Two histories of one incident under one head hash.
use native.Mathlib.Decide.{ℕ_discrete}
use text.Mathlib.Text.{◌==◌ as str_eq}
use mathlib.Core.Bool.{false≢true}
use proof_ops.Common.{
  ℕ, suc, String, ◌≡◌, ◌≢◌, refl, sym, ap, ◌∙◌, ◌⊎◌, inl, inr, true, List, [], ◌∷◌, arith, length,
  eq_iff, Bool-cases,
}
use proof_ops.Audit.Event.{AuditBody, AuditEvent, Codec}
use proof_ops.Audit.Chain.{AuditChain, genesis, last_hash, link}
use proof_ops.Audit.Verify.{verify}
use proof_ops.Audit.Integrity.{IsChain, verify_exact}

String-discrete : Discrete String
String-discrete s t = elim (Bool-cases (str_eq s t)) [
  | inl e ↦ yes ((eq_iff s t).0 e)
  | inr n ↦ no (λ e. false≢true (sym n ∙ (eq_iff s t).1 e))
]

AuditBody-discrete : Discrete AuditBody
AuditBody-discrete = hlevel (ℕ_discrete, String-discrete)

module _ (codec : Codec) where
  -- Two different bodies under one link: a collision of SHA256, or one text for two bodies.
  abbrev pub LinkClash : Type 0
  LinkClash =
      (b : AuditBody) × (c : AuditBody) × (b ≢ c)
      × (link codec b.prev_hash b ≡ link codec c.prev_hash c)

  same_event : (x y : AuditEvent) → x.body ≡ y.body → x.curr_hash ≡ y.curr_hash → x ≡ y
  same_event x y p q = cc

  heads :
      (owner : String) (n : ℕ) (p q : String) (xs ys : List AuditEvent)
      → IsChain codec owner n p xs
      → IsChain codec owner n q ys
      → length xs ≡ length ys
      → last_hash p xs ≡ last_hash q ys
      → ((p ≡ q) × (xs ≡ ys)) ⊎ LinkClash
  heads owner n p q [] [] hx hy l e = inl (e, refl)
  heads owner n p q [] (y ∷ ys) hx hy l e = absurd (omega arith)
  heads owner n p q (x ∷ xs) [] hx hy l e = absurd (omega arith)
  heads owner n p q (x ∷ xs) (y ∷ ys) (lx, hx) (ly, hy) l e =
      elim (heads owner (suc n) x.curr_hash y.curr_hash xs ys hx hy (omega arith) e) [
        | inr clash ↦ inr clash
        | inl (same, tails) ↦ elim (AuditBody-discrete x.body y.body) [
          | yes b ↦ inl (
            sym lx.joined ∙ (ap (λ (z : AuditBody). z.prev_hash) b ∙ ly.joined),
            cc (same_event x y b same),
          )
          | no ne ↦ inr (x.body, y.body, ne, sym lx.sealed ∙ (same ∙ ly.sealed))
        ]
      ]

  -- Tampering shows: two chains of one incident that both verify, have the same number of events
  -- and end in the same hash hold the same events, or else two different bodies with one link
  -- hash are at hand.
  pub tampering_shows :
      (a b : AuditChain)
      → (verify codec a).valid ≡ true
      → (verify codec b).valid ≡ true
      → a.incident_id ≡ b.incident_id
      → length a.events ≡ length b.events
      → last_hash genesis a.events ≡ last_hash genesis b.events
      → (a ≡ b) ⊎ LinkClash
  tampering_shows a b va vb o l e =
      elim (heads a.incident_id 1 genesis genesis a.events b.events ((verify_exact codec a).0 va)
        (rw (← o) at ((verify_exact codec b).0 vb)) l e) [
          | inl (_, same) ↦ inl (cc (same))
          | inr clash ↦ inr clash
        ]
