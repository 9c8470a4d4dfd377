-- ===== src/Fsm/Sweep.antt =====
-- What `sweep` does.
use Prim.Native.String.{◌++◌ as str_append}
use proof_ops.Common.{
  ℕ, ◌+◌, ◌-◌, ◌<◌, ◌≤◌, ◌≡◌, refl, Bool, true, false, [], arith, length, ok, inl, inr, ◌⊎◌,
  Bool-cases, leb, if◌then◌else◌, ap, sym, some, ◌∷◌, ◌++◌,
}
use mathlib.Core.Path.{subst}
use proof_ops.Contracts.Enums.{
  IncidentStatus, triaging, correlated, investigating, diagnosing, planned, awaiting_approval,
  escalated, status_eq, status_name,
}
use proof_ops.Fsm.Run.{TransitionRecord, IncidentRun, allowed}
use proof_ops.Fsm.Advance.{sweep, force_escalation, entered_or, expire}

-- The statuses that `sweep` escalates.
abbrev pub is_timed : IncidentStatus → Bool
is_timed triaging = true
is_timed correlated = true
is_timed investigating = true
is_timed diagnosing = true
is_timed planned = true
is_timed awaiting_approval = true
is_timed _ = false

pub timed-allowed : (s : IncidentStatus) → is_timed s ≡ true → allowed s escalated ≡ true
timed-allowed triaging h = refl
timed-allowed correlated h = refl
timed-allowed investigating h = refl
timed-allowed diagnosing h = refl
timed-allowed planned h = refl
timed-allowed awaiting_approval h = refl
timed-allowed _ h = cc

-- The record of a forced escalation.
abbrev pub forced_entry : {R : Type 0} → ℕ → IncidentRun R → TransitionRecord
forced_entry now run = record {
  seq = length run.history + 1;
  frm = run.state;
  to = escalated;
  reason = str_append "ttl-expired:" (status_name run.state);
  refs = [];
  forced = true;
  at = now;
}

-- The run after a forced escalation.
pub record IsForced {R : Type 0} (now : ℕ) (run out : IncidentRun R) : Type 0 where
  pub state : out.state ≡ escalated
  pub history : out.history ≡ run.history ++ forced_entry now run ∷ []
  pub entered_at :
      (s : IncidentStatus)
      → out.entered_at s ≡ (if status_eq s escalated then some now else run.entered_at s)
  pub incident_id : out.incident_id ≡ run.incident_id
  pub handoffs : out.handoffs ≡ run.handoffs
  pub suppressions : out.suppressions ≡ run.suppressions
  pub replans : out.replans ≡ run.replans
  pub rolled_back : out.rolled_back ≡ run.rolled_back
  pub permit : out.permit ≡ run.permit
  pub consumed_refs : out.consumed_refs ≡ run.consumed_refs
  pub idem_store : out.idem_store ≡ run.idem_store

-- The bound that applies to a status.
abbrev pub ttl_of : IncidentStatus → ℕ → ℕ → ℕ
ttl_of s stage_ttl approval_ttl = if status_eq s awaiting_approval then approval_ttl else stage_ttl

module _ {R : Type 0} (run : IncidentRun R) (now stage_ttl approval_ttl : ℕ) where
  expire_exact :
      (ttl : ℕ)
      → 0 < ttl
      → ((entered_or (run.entered_at run.state) now + ttl < now)
          × (expire ttl now run ≡ (ok true, force_escalation now run)))
        ⊎ ((now ≤ entered_or (run.entered_at run.state) now + ttl)
            × (expire ttl now run ≡ (ok false, run)))
  unfolding expire
  expire_exact ttl p =
      elim (Bool-cases (leb (now - entered_or (run.entered_at run.state) now) ttl)) [
        | inl fresh ↦ inr (ground arith, ground arith)
        | inr stale ↦ inl (ground arith, ground arith)
      ]

  sweep_at :
      (s : IncidentStatus)
      → run.state ≡ s
      → 0 < stage_ttl
      → 0 < approval_ttl
      → ((is_timed s ≡ true)
          × (entered_or (run.entered_at s) now + ttl_of s stage_ttl approval_ttl < now)
          × (sweep now stage_ttl approval_ttl run ≡ (ok true, force_escalation now run)))
        ⊎ (((is_timed s ≡ false)
              ⊎ (now ≤ entered_or (run.entered_at s) now + ttl_of s stage_ttl approval_ttl))
            × (sweep now stage_ttl approval_ttl run ≡ (ok false, run)))
  unfolding sweep
  sweep_at triaging e p q = grind (arith, expire_exact stage_ttl p)
  sweep_at _ e p q = grind (arith, expire_exact stage_ttl p, expire_exact approval_ttl q)

  force_escalation-IsForced : IsForced now run (force_escalation now run)
  unfolding force_escalation
  force_escalation-IsForced = record {
    state = refl;
    history = refl;
    entered_at = λ s. refl;
    incident_id = refl;
    handoffs = refl;
    suppressions = refl;
    replans = refl;
    rolled_back = refl;
    permit = refl;
    consumed_refs = refl;
    idem_store = refl;
  }

  -- With positive bounds `sweep` returns True exactly when the status is one from TRIAGING to PLANNED
  -- or AWAITING_APPROVAL and was entered longer ago than the bound of a stage, or of an approval. Then the status is ESCALATED, entered now, the history has one more
  -- record at its end, which is forced and names the status that was left, and nothing else is
  -- changed. In every other case it returns False and the run is unchanged.
  pub sweep_exact :
      0 < stage_ttl
      → 0 < approval_ttl
      → ((is_timed run.state ≡ true)
          × (entered_or (run.entered_at run.state) now + ttl_of run.state stage_ttl approval_ttl
              < now)
          × ((sweep now stage_ttl approval_ttl run).0 ≡ ok true)
          × IsForced now run (sweep now stage_ttl approval_ttl run).1)
        ⊎ (((is_timed run.state ≡ false)
              ⊎ (now
                  ≤ entered_or (run.entered_at run.state) now
                    + ttl_of run.state stage_ttl approval_ttl))
            × (sweep now stage_ttl approval_ttl run ≡ (ok false, run)))
  sweep_exact p q = elim (sweep_at run.state refl p q) [
    | inl (timed, late, e) ↦ inl (
      timed,
      late,
      ap (λ x. x.0) e,
      subst (λ x. IsForced now run x.1) (sym e) force_escalation-IsForced,
    )
    | inr kept ↦ inr kept
  ]

  expire_cases :
      (ttl : ℕ)
      → ((expire ttl now run).1 ≡ force_escalation now run) ⊎ ((expire ttl now run).1 ≡ run)
  unfolding expire
  expire_cases ttl = grind arith

  sweep_cases_at :
      (s : IncidentStatus)
      → run.state ≡ s
      → ((is_timed s ≡ true)
          × ((sweep now stage_ttl approval_ttl run).1 ≡ force_escalation now run))
        ⊎ ((sweep now stage_ttl approval_ttl run).1 ≡ run)
  unfolding sweep
  sweep_cases_at triaging e = grind (arith, expire_cases stage_ttl)
  sweep_cases_at _ e = grind (arith, expire_cases stage_ttl, expire_cases approval_ttl)

  pub sweep_cases :
      ((is_timed run.state ≡ true)
        × ((sweep now stage_ttl approval_ttl run).1 ≡ force_escalation now run))
      ⊎ ((sweep now stage_ttl approval_ttl run).1 ≡ run)
  sweep_cases = sweep_cases_at run.state refl
