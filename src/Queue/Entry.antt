-- ===== src/Queue/Entry.antt =====
-- backend/app/routers/approvals.py: an entry of the queue, the state of the module, and its exceptions.
use Prim.Native.String.{◌++◌ as str_append}
use text.Mathlib.Text.{◌==◌ as str_eq}
use proof_ops.Common.{
  ℕ, String, Bool, true, false, Option, none, some, List, [], ◌∷◌, length, if◌then◌else◌, Result,
  ok, err, Exec, pure, raise,
}
use proof_ops.Contracts.Value.{Value, Fields}
use proof_ops.Contracts.Vocabulary.{Action}
use proof_ops.Fsm.Run.{Permit}
use proof_ops.Audit.Event.{Codec}
use proof_ops.Audit.Chain.{AuditChain, AuditError, Emission, emit}
use proof_ops.Approval.Nonces.{NonceStore, Disk}
use proof_ops.Approval.Token.{Signing, ApprovalRequest}
use proof_ops.Execution.Numbers.{Casts}

-- `_APPROVAL_STATUSES`
pub data Status : Type 0 where
  pending approved denied expired : Status

pub record Entry : Type 0 where
  pub request : ApprovalRequest
  pub action : Action
  pub status : Status
  pub evidence_ids : List String
  pub requester_key_id : String
  pub identity_mode : String
  pub decided_by : String

-- What a call raises: the classes of the file, ValueError, FileNotFoundError, and what the services
-- that it calls raise.
pub data Mistake : Type 0 where
  approval_missing approval_denied approval_replayed approval_expired : Mistake
  value_error type_error file_missing permit_rejected : Mistake
  unrecorded : AuditError → Mistake

unfoldable pub http_status : Mistake → ℕ
http_status approval_missing = 404
http_status approval_replayed = 409
http_status approval_expired = 410
http_status approval_denied = 403
http_status value_error = 422
http_status _ = 400

-- Whether four eyes were on a decision.
pub data Sod : Type 0 where
  enforced not_enforced_bootstrap not_recorded : Sod

-- `approval_view`, without what it copies from the request.
pub record View : Type 0 where
  pub approval_id : String
  pub status : Status
  pub remaining : ℕ
  pub identity_mode : String
  pub requester_key_id : String
  pub decided_by : String
  pub sod : Sod
  pub duplicate : Bool

-- REQUESTS, NONCES, IDEM_RESPONSES, the file at STORE_PATH (with nothing inside where it is no
-- JSON), the chain of a call, and what was
-- handed to the orchestrator, with the incidents that it is resuming.
pub record State : Type 0 where
  pub requests : List (String × Entry)
  pub nonces : NonceStore
  pub responses : List ((String × String) × View)
  pub file : Option (Option Value)
  pub chain : Option AuditChain
  pub resuming : List String
  pub scheduled : List (String × Action × Permit)

-- What is given: libraries, settings, the contracts' readers and writers, the file system and the
-- worker. `sorted` is what `sort_keys` makes of an object. Times are microseconds.
pub record Services : Type 0 where
  pub codec : Codec
  pub signing : Signing
  pub casts : Casts
  pub sql : String → Bool
  pub draw : ℕ → String × ℕ
  pub read_request : Value → Option ApprovalRequest
  pub read_action : Value → Option Action
  pub write_request : ApprovalRequest → Value
  pub write_action : Action → Value
  pub sorted : Fields → Fields
  pub saves : Bool
  pub limit : ℕ
  pub disk : Disk
  pub now : ℕ
  pub worker_runs : Bool

-- A step of the router.
abbrev pub Step : Type 0 → Type 0
Step A = Exec State Mistake A

module _ {V : Type 0} where
  -- `d.get(k)` and `d[k] = v`
  unfoldable pub find : String → List (String × V) → Option V
  find k [] = none
  find k ((j, v) ∷ rest) = if str_eq j k then some v else find k rest

  unfoldable pub put : String → V → List (String × V) → List (String × V)
  put k v [] = (k, v) ∷ []
  put k v ((j, w) ∷ rest) = if str_eq j k then (j, v) ∷ rest else (j, w) ∷ put k v rest

-- `entry[...] = ...` on the object that the queue holds.
abbrev pub write_entry : String → Entry → Step (Unit {0})
write_entry id e s = (ok tt, record s { requests = put id e s.requests })

-- Nothing is done, or an exception raised.
abbrev pub require : Bool → Mistake → Step (Unit {0})
require true x = pure tt
require false x = raise x

module _ (services : Services) where
  -- `chain.emit(...)`, when there is a chain.
  abbrev pub emitted :
      String
      → String
      → ApprovalRequest
      → List String
      → String
      → AuditChain
      → Result AuditError (Unit {0}) × AuditChain
  emitted kind actor r evidence result chain =
      let (event_id, ts) = services.draw (length chain.events) in
      let m : Emission = record {
        event_id = event_id;
        ts = ts;
        event_type = kind;
        actor = actor;
        agent = "";
        input_hash = "";
        evidence_ids = evidence;
        policy = [];
        action_id = r.action_id;
        approval_id = r.approval_id;
        execution_id = "";
        result = result;
      } in
      let out = emit services.codec m chain in (elim out.0 [ ok e ↦ ok tt | err x ↦ err x ], out.1)

  abbrev pub recorded : Result AuditError (Unit {0}) × AuditChain → Step (Unit {0})
  recorded (ok u, chain) s = (ok tt, record s { chain = some chain })
  recorded (err x, chain) s = (err (unrecorded x), record s { chain = some chain })

  abbrev pub event_on :
      Option AuditChain → String → String → ApprovalRequest → List String → String → Step (Unit {0})
  event_on none kind actor r evidence result = pure tt
  event_on (some chain) kind actor r evidence result =
      recorded (emitted kind actor r evidence result chain)

  -- `_emit`
  unfoldable pub event : String → Entry → String → String → Step (Unit {0})
  event kind e actor result s = event_on s.chain kind actor e.request e.evidence_ids result s

  -- `chain.emit("permit.minted", ...)`
  unfoldable pub permit_event : ApprovalRequest → String → Step (Unit {0})
  permit_event r actor s =
      event_on s.chain "permit.minted" actor r [] (str_append "bound permit for " r.action_id) s
