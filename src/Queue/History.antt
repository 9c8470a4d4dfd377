-- ===== src/Queue/History.antt =====
-- backend/app/routers/approvals.py: a queue over any sequence of calls.
use proof_ops.Common.{ℕ, String, ◌≡◌, Option, none, List}
use proof_ops.Common.Steps.{settled}
use proof_ops.Contracts.Value.{Value}
use proof_ops.Queue.Entry.{Entry, State, Services, find}
use proof_ops.Queue.Store.{ensure_loaded}
use proof_ops.Queue.Permit.{approved_action, verified_permit, trigger_resume}
use proof_ops.Queue.Decide.{request_approval, approval_view, reject_approval, sweep_approvals}
use proof_ops.Queue.Approve.{Approval, approve_approval}
use proof_ops.Queue.Status.{Unique, Evolves, Evolves-refl}
use proof_ops.Queue.Paths.{
  approval_view-Moves, approved_action-Moves, verified_permit-Moves, trigger_resume-Moves,
}
use proof_ops.Queue.Calls.{approve_approval-Moves, reject_approval-Moves}
use proof_ops.Queue.Rounds.{request_approval-Moves, sweep_approvals-Moves}

-- One call, with the services as they are then; the id of a request is fresh.
pub data Served (s : State) : State → Type 0 where
  requested :
      (services : Services) (id nonce : String) (doc : Value) (actor secret : String) (ttl : ℕ)
      (key mode audit_actor : String)
      → find id (ensure_loaded services s).1.requests ≡ none
      → Served s (request_approval services id nonce doc actor secret ttl key mode audit_actor s).1
  viewed : (services : Services) (id : String) → Served s (approval_view services id s).1
  approves : (services : Services) (c : Approval) → Served s (approve_approval services c s).1
  rejects :
      (services : Services) (id actor role reason : String) (key : Option String)
      (audit_actor approver_key_id : String)
      → Served s (reject_approval services id actor role reason key audit_actor approver_key_id s).1
  swept : (services : Services) → Served s (sweep_approvals services s).1
  acted : (services : Services) (id : String) → Served s (approved_action services id s).1
  minted :
      (services : Services) (id token actor secret incident : String)
      → Served s (verified_permit services id token actor secret incident s).1
  resumed :
      (services : Services) (id token actor secret : String)
      → Served s (trigger_resume services id token actor secret s).1

pub data History (s : State) : State → Type 0 where
  start : History s s
  later : {t u : State} → History s t → Served t u → History s u

Served-Evolves :
    {l : List (String × Entry)} {t u : State}
    → Served t u
    → Evolves l t.requests
    → Evolves l u.requests
Served-Evolves {t = t} (requested v id nonce doc actor secret ttl key mode who fresh) ev =
    settled (request_approval-Moves v id nonce doc actor secret ttl key mode who t fresh ev)
Served-Evolves {t = t} (viewed v id) ev = settled (approval_view-Moves v id t ev)
Served-Evolves {t = t} (approves v c) ev = settled (approve_approval-Moves v c t ev)
Served-Evolves {t = t} (rejects v id actor role reason key who by) ev =
    settled (reject_approval-Moves v id actor role reason key who by t ev)
Served-Evolves {t = t} (swept v) ev = settled (sweep_approvals-Moves v t ev)
Served-Evolves {t = t} (acted v id) ev = settled (approved_action-Moves v id t ev)
Served-Evolves {t = t} (minted v id token actor secret incident) ev =
    settled (verified_permit-Moves v id token actor secret incident t ev)
Served-Evolves {t = t} (resumed v id token actor secret) ev =
    settled (trigger_resume-Moves v id token actor secret t ev)

-- Over any sequence of calls (requests with fresh ids, views, approvals, rejections, sweeps, mints
-- and resumes, each with its own clock and disk), and whether they raise or not, an entry of a queue
-- with distinct ids stays in it with its request and action; its status leaves `pending` once, and
-- only from `approved` may it change again, to `expired`. The ids stay distinct.
pub history-Evolves :
    {s t : State} → Unique s.requests → History s t → Evolves s.requests t.requests
history-Evolves {s} u start = Evolves-refl s.requests u
history-Evolves u (later h c) = Served-Evolves c (history-Evolves u h)
