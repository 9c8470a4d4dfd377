-- ===== src/Fsm/Once.antt =====
-- backend/app/services/fsm.py: `execute_once`, `handoff` and `audit_records`.
-- `W` is the world that the wrapped function acts on, and `X` what it may raise.
use text.Mathlib.Text.{◌==◌ as str_eq}
use proof_ops.Common.{
  String, Bool, true, false, ◌&&◌, ◌||◌, not, Option, none, some, List, [], ◌∷◌, ◌++◌, map, any,
  contains, is_empty, if◌then◌else◌, is_blank, Result, ok, err, Exec,
}
use proof_ops.Fsm.Run.{
  Rejection, blank_id, unknown_agent, handoff_not_allowed, refs_required, blank_ref,
  TransitionRecord, Handoff, Suppression, IncidentRun,
}

-- What leaves `execute_once`: a rejection of its own, or what the wrapped function raised.
pub data Raised (X : Type 0) : Type 0 where
  rejected : Rejection → Raised X
  fault : X → Raised X

-- `run.idem_store.get((action_id, execution_id))`
abbrev pub cached : {R : Type 0} → String → String → List ((String × String) × R) → Option R
cached a e [] = none
cached a e (((b, f), r) ∷ rest) = if str_eq b a && str_eq f e then some r else cached a e rest

module _ {R W X : Type 0} where
  -- `result = fn(...); run.idem_store[key] = result`
  abbrev pub store_result :
      String
      → String
      → IncidentRun R
      → Result X R × W
      → Result (Raised X) (R × Bool) × IncidentRun R × W
  store_result a e run (err x, w) = (err (fault x), run, w)
  store_result a e run (ok r, w) =
      (ok (r, false), record run { idem_store = ((a, e), r) ∷ run.idem_store }, w)

  -- The branch on `key in run.idem_store`.
  abbrev pub replay_or_run :
      String
      → String
      → (W → Result X R × W)
      → IncidentRun R
      → W
      → Option R
      → Result (Raised X) (R × Bool) × IncidentRun R × W
  replay_or_run a e fn run w (some r) = (
    ok (r, true),
    record run {
      suppressions = run.suppressions ++ record { action_id = a; execution_id = e } ∷ [];
    },
    w,
  )
  replay_or_run a e fn run w none = store_result a e run (fn w)

  unfoldable pub execute_once :
      String
      → String
      → (W → Result X R × W)
      → IncidentRun R
      → W
      → Result (Raised X) (R × Bool) × IncidentRun R × W
  execute_once a e fn run w =
      if is_blank a || is_blank e
      then (err (rejected blank_id), run, w)
      else replay_or_run a e fn run w (cached a e run.idem_store)

-- `name in AGENTS`, the tuple of agents/__init__.py
unfoldable pub is_agent : String → Bool
is_agent = contains ("triage" ∷ "diagnostic" ∷ "planner" ∷ "reporter" ∷ [])

-- `(from_agent, to_agent) in HANDOFFS`
unfoldable pub is_handoff : String → String → Bool
is_handoff f t =
    str_eq f "triage" && str_eq t "diagnostic" || str_eq f "diagnostic" && str_eq t "planner"

unfoldable pub handoff :
    {R : Type 0} → String → String → List String → Exec (IncidentRun R) Rejection Handoff
handoff f t refs run =
    if not (is_agent f) || not (is_agent t)
    then (err unknown_agent, run)
    else if not (is_handoff f t)
    then (err handoff_not_allowed, run)
    else if any is_blank refs
    then (err blank_ref, run)
    else if is_empty refs
    then (err refs_required, run)
    else let h : Handoff = record {
      incident_id = run.incident_id;
      from_agent = f;
      to_agent = t;
      refs = refs;
    } in
      (ok h, record run { handoffs = run.handoffs ++ h ∷ [] })

-- The records of `audit_records`, by their "type".
pub data AuditRecord : Type 0 where
  transition : TransitionRecord → AuditRecord
  handoff_record : Handoff → AuditRecord
  duplicate_suppressed : Suppression → AuditRecord

unfoldable pub audit_records : {R : Type 0} → IncidentRun R → List AuditRecord
audit_records run =
    map transition run.history
    ++ (map handoff_record run.handoffs ++ map duplicate_suppressed run.suppressions)
