-- ===== src/Audit/Integrity.antt =====
-- What `verify` accepts, and that `emit` keeps it so.
use text.Mathlib.Text.{◌==◌ as str_eq}
use mathlib.Core.Bool.{false≢true}
use proof_ops.Common.{
  ℕ, suc, ◌+◌, String, ◌≡◌, refl, sym, ◌∙◌, ap, ◌↔◌, inl, inr, Bool, true, false, ◌&&◌, List, [],
  ◌∷◌, ◌++◌, arith, eq_iff, length, Bool-cases, some, none, ◌==◌,
}
use native.Mathlib.Nat.{add-zero, add-suc, suc-add}
use proof_ops.Audit.Event.{AuditEvent, Codec}
use proof_ops.Audit.Chain.{AuditChain, genesis, last_hash, link}
use proof_ops.Audit.Verify.{Verdict, intact, verify_from, verify}

module _ (codec : Codec) where
  -- One event in its place: numbered, owned, and linked to the hash before it.
  pub record IsLink (owner : String) (position : ℕ) (prev : String) (e : AuditEvent) : Type 0 where
    pub numbered : e.seq ≡ position
    pub owned : e.incident_id ≡ owner
    pub joined : e.prev_hash ≡ prev
    pub sealed : e.curr_hash ≡ link codec e.prev_hash e.body

  -- A chain from a position and a previous hash on.
  abbrev pub IsChain : String → ℕ → String → List AuditEvent → Type 0
  IsChain owner position prev [] = Unit
  IsChain owner position prev (e ∷ es) =
      IsLink owner position prev e × IsChain owner (suc position) e.curr_hash es

  verify_from_sound :
      (owner : String) (n : ℕ) (prev : String) (es : List AuditEvent)
      → (verify_from codec owner n prev es).valid ≡ true
      → IsChain owner n prev es
  unfolding verify_from
  verify_from_sound owner n prev [] h = tt
  verify_from_sound owner n prev (e ∷ es) h = (
    record {
      numbered = ground arith;
      owned = ground (arith, eq_iff e.incident_id owner);
      joined = ground (arith, eq_iff e.prev_hash prev);
      sealed = ground (arith, eq_iff e.curr_hash (link codec e.prev_hash e.body));
    },
    verify_from_sound owner (suc n) e.curr_hash es (ground arith),
  )

  verify_from_complete :
      (owner : String) (n : ℕ) (prev : String) (es : List AuditEvent)
      → IsChain owner (suc n) prev es
      → verify_from codec owner (suc n) prev es
        ≡ record { valid = true; checked = n + length es; first_bad_seq = none; reason = intact }
  unfolding verify_from
  verify_from_complete owner n prev [] h = ground arith
  verify_from_complete owner n prev (e ∷ es) (l, h) = ground (
    arith,
    eq_iff e.incident_id owner,
    eq_iff e.prev_hash prev,
    eq_iff e.curr_hash (link codec e.prev_hash e.body),
    verify_from_complete owner (suc n) e.curr_hash es h,
  )

  -- `verify` answers True exactly on the chains whose events are numbered from 1 on, belong to the
  -- incident, and each carry the hash before them and the hash of their own body.
  pub verify_exact :
      (chain : AuditChain)
      → ((verify codec chain).valid ≡ true) ↔ IsChain chain.incident_id 1 genesis chain.events
  unfolding verify
  verify_exact chain = (
    verify_from_sound chain.incident_id 1 genesis chain.events,
    λ h.
        ap (λ (v : Verdict). v.valid)
          (verify_from_complete chain.incident_id 0 genesis chain.events h),
  )

  verify_step :
      (owner : String) (n : ℕ) (prev : String) (e : AuditEvent) (es : List AuditEvent)
      → IsLink owner n prev e
      → verify_from codec owner n prev (e ∷ es) ≡ verify_from codec owner (suc n) e.curr_hash es
  unfolding verify_from
  verify_step owner n prev e es l = ground (
    arith,
    eq_iff e.incident_id owner,
    eq_iff e.prev_hash prev,
    eq_iff e.curr_hash (link codec e.prev_hash e.body),
  )

  -- The test of `verify` on one event.
  is_link : String → ℕ → String → AuditEvent → Bool
  is_link owner n prev e =
      e.seq == n
      && str_eq e.incident_id owner
      && str_eq e.prev_hash prev
      && str_eq e.curr_hash (link codec e.prev_hash e.body)

  is_link-IsLink :
      (owner : String) (n : ℕ) (prev : String) (e : AuditEvent)
      → (is_link owner n prev e ≡ true) ↔ IsLink owner n prev e
  unfolding is_link
  is_link-IsLink owner n prev e = (
    (λ h. record {
      numbered = ground arith;
      owned = ground (arith, eq_iff e.incident_id owner);
      joined = ground (arith, eq_iff e.prev_hash prev);
      sealed = ground (arith, eq_iff e.curr_hash (link codec e.prev_hash e.body));
    }),
    λ l. ground (
      arith,
      eq_iff e.incident_id owner,
      eq_iff e.prev_hash prev,
      eq_iff e.curr_hash (link codec e.prev_hash e.body),
    ),
  )

  verify_stop :
      (owner : String) (n : ℕ) (prev : String) (e : AuditEvent) (es : List AuditEvent)
      → is_link owner (suc n) prev e ≡ false
      → ((verify_from codec owner (suc n) prev (e ∷ es)).checked ≡ n)
        × ((verify_from codec owner (suc n) prev (e ∷ es)).first_bad_seq ≡ some e.seq)
  unfolding verify_from is_link
  verify_stop owner n prev e es h = (ground arith, ground arith)

  -- Where `verify` stops: the events before the reported position are a good chain, and the event
  -- there, whose number is reported, is no link of it.
  abbrev pub StopsAt : String → ℕ → String → List AuditEvent → Verdict → Type 0
  StopsAt owner n prev es v =
      (xs : List AuditEvent) × (e : AuditEvent) × (ys : List AuditEvent) × (es ≡ xs ++ e ∷ ys)
      × IsChain owner (suc n) prev xs
      × (v.checked ≡ n + length xs)
      × (v.first_bad_seq ≡ some e.seq)
      × (¬ IsLink owner (suc n + length xs) (last_hash prev xs) e)

  nil_valid :
      (owner : String) (n : ℕ) (prev : String) → (verify_from codec owner n prev []).valid ≡ true
  unfolding verify_from
  nil_valid owner n prev = refl

  verify_from_failure :
      (owner : String) (n : ℕ) (prev : String) (es : List AuditEvent)
      → (verify_from codec owner (suc n) prev es).valid ≡ false
      → StopsAt owner n prev es (verify_from codec owner (suc n) prev es)
  verify_from_failure owner n prev [] h = absurd (false≢true (sym h ∙ nil_valid owner (suc n) prev))
  verify_from_failure owner n prev (e ∷ es) h = elim (Bool-cases (is_link owner (suc n) prev e)) [
    | inl good ↦
        let l = (is_link-IsLink owner (suc n) prev e).0 good in
        let step = verify_step owner (suc n) prev e es l in
        let (xs, x, ys, eq, c, k, b, no_link) =
          verify_from_failure owner (suc n) e.curr_hash es (rw step at h) in
        (
          e ∷ xs,
          x,
          ys,
          ap (λ z. e ∷ z) eq,
          (l, c),
          ap (λ (v : Verdict). v.checked) step ∙ (k ∙ omega arith),
          ap (λ (v : Verdict). v.first_bad_seq) step ∙ b,
          λ z. no_link (rw suc-add (rw add-suc at z)),
        )
    | inr bad ↦
        let (k, b) = verify_stop owner n prev e es bad in
        (
          [],
          e,
          es,
          refl,
          tt,
          k ∙ sym (add-zero n),
          b,
          λ z. false≢true (sym bad ∙ (is_link-IsLink owner (suc n) prev e).1 (rw add-zero at z)),
        )
  ]

  -- When `verify` answers False, the events before the reported position form a good chain, their
  -- number is the reported count, and the event there, whose number is reported, is no link of it.
  pub verify_failure :
      (chain : AuditChain)
      → (verify codec chain).valid ≡ false
      → StopsAt chain.incident_id 0 genesis chain.events (verify codec chain)
  unfolding verify
  verify_failure chain h = verify_from_failure chain.incident_id 0 genesis chain.events h
