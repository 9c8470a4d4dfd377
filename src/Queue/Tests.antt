-- ===== src/Queue/Tests.antt =====
-- The queue on concrete inputs: a request of one principal that another one decides.
use Prim.Native.String.{◌++◌ as str_append}
use proof_ops.Common.{
  arith, String, ◌≡◌, ◌≢◌, refl, true, false, none, some, [], ◌∷◌, ok, is_blank, every,
}
use proof_ops.Common.Steps.{◌>>=◌}
use proof_ops.Contracts.Value.{null, no_binding}
use proof_ops.Contracts.Vocabulary.{
  Action, restart_pod, staging, yellow, action_name, environment_name,
}
use proof_ops.Fsm.Run.{make_permit}
use proof_ops.Approval.Nonces.{appended, replaced, memory_store, consume, burn, consume_all}
use proof_ops.Approval.Token.{
  Signing, ApprovalRequest, request_of, verify, token_of, mac, join_with, scope_of, is_ascii,
  refusal_of,
}
use proof_ops.Queue.Entry.{
  Status, pending, approved, Entry, State, Services, find, put, event, permit_event,
}
use proof_ops.Queue.Store.{ensure_loaded, entry, save, payload}
use proof_ops.Queue.Permit.{
  permit_of, verified_permit, trigger_resume, verified, burned, attributed, bound_to,
  approved_action, resume_call, swallow, mint_and_resume, hand_over,
}
use proof_ops.Queue.Decide.{sweep_approvals, approval_view, sod_of, idem, view_of}
use proof_ops.Queue.Approve.{Approval, approve_approval, decided, separated, keys_differ}
use proof_ops.Queue.Status.{Evolves}
use proof_ops.Queue.History.{start, later, swept, history-Evolves}
use proof_ops.Queue.Grants.{IsDecidable, approve_approval-IsDecidable}
use proof_ops.Queue.Mint.{IsMinted, verified_permit-IsMinted}
use proof_ops.Queue.Spend.{permit_once}
use proof_ops.Queue.Resume.{Handed, trigger_resume-Handed}
use proof_ops.Queue.Silent.{approval_by_other_schedules_nothing}

abbrev toy : Signing
toy = record { hexdigest = λ k m. "ab12"; params_hash = λ p. "p0"; isoformat = λ t. "t0" }

abbrev restart : Action
restart = record {
  action_id = "act-1";
  incident_id = "inc-1";
  agent_id = "planner";
  action_type = restart_pod;
  resource_type = "pod";
  resource_id = "pod/web-1";
  environment = staging;
  namespace = "web";
  parameters = no_binding;
  risk_level = yellow;
  reason = "crash loop";
  evidence_ids = [];
  runbook_id = "rb-1";
  runbook_version = "1.0.0";
  expected_outcome = "up";
  rollback_action = none;
  verification_plan = [];
}

abbrev request : ApprovalRequest
request = request_of toy "ap-1" "nonce-01" 100 restart "sre-1" 600

abbrev item : Status → String → Entry
item st by = record {
  request = request;
  action = restart;
  status = st;
  evidence_ids = [];
  requester_key_id = "key-1";
  identity_mode = "per_key";
  decided_by = by;
}

abbrev holding : Entry → State
holding e = record {
  requests = ("ap-1", e) ∷ [];
  nonces = memory_store;
  responses = [];
  file = none;
  chain = none;
  resuming = [];
  scheduled = [];
}

abbrev desk : Services
desk = record {
  codec = record {
    sha256_hex = λ t. str_append "h" t;
    canonical_json = λ b. b.result;
    snapshot_json = λ p. "{}";
  };
  signing = toy;
  casts = record { int_of_text = λ s. none; int_of_other = λ s. none; repr = λ v. "?" };
  sql = λ t. false;
  draw = λ n. ("ev-1", 5);
  read_request = λ v. some request;
  read_action = λ v. some restart;
  write_request = λ r. null;
  write_action = λ a. null;
  sorted = λ fs. fs;
  saves = false;
  limit = 4;
  disk = record { append = appended; replace = replaced };
  now = 200;
  worker_runs = true;
}

abbrev evening : Services
evening = record (desk) { now = 900000000 }

abbrev decision : Approval
decision = record {
  approval_id = "ap-1";
  actor = "lead";
  token = "ab12";
  role = "approver";
  secret = "key";
  idempotency_key = none;
  enforce_sod = false;
  requester = none;
  allow_self_approval = false;
  approver_key_id = "key-2";
  identity_mode = "per_key";
  audit_actor = "";
}

history-Evolves_example :
    Evolves
      (holding (item pending "")).requests
      (sweep_approvals evening (holding (item pending ""))).1.requests
unfolding find
history-Evolves_example =
    history-Evolves {s = holding (item pending "")}
      {t = (sweep_approvals evening (holding (item pending ""))).1} (refl, tt)
      (later start (swept evening))

approve_approval-IsDecidable_example :
    IsDecidable desk decision (ensure_loaded desk (holding (item pending ""))).1
unfolding approve_approval decided separated keys_differ idem verified verify refusal_of entry
    ensure_loaded ◌>>=◌ find put event save payload approval_view sod_of trigger_resume consume burn
    is_ascii scope_of action_name environment_name token_of mac join_with is_blank every request_of
    resume_call swallow approved_action
approve_approval-IsDecidable_example =
    approve_approval-IsDecidable desk decision (holding (item pending ""))
      {v = view_of desk (item approved "key-2")} refl refl

verified_permit-IsMinted_example :
    IsMinted desk "ap-1" "ab12" "sre-1" "key" "inc-1"
      (ensure_loaded desk (holding (item approved "key-2"))).1
      (permit_of desk "ap-1" request)
unfolding verified_permit attributed bound_to verified burned verify refusal_of entry ensure_loaded
    ◌>>=◌ find permit_event event consume burn is_ascii scope_of action_name environment_name
    token_of mac join_with is_blank every request_of make_permit
verified_permit-IsMinted_example =
    verified_permit-IsMinted desk "ap-1" "ab12" "sre-1" "key" "inc-1"
      (holding (item approved "key-2")) refl

permit_once_example :
    (verified_permit evening "ap-1" "ab12" "sre-1" "key" ""
      (verified_permit desk "ap-1" "ab12" "sre-1" "key" "" (holding (item approved "key-2"))).1).0
    ≢ ok (permit_of desk "ap-1" request)
unfolding verified_permit attributed bound_to verified burned verify refusal_of entry ensure_loaded
    ◌>>=◌ find permit_event event consume burn consume_all is_ascii scope_of action_name
    environment_name token_of mac join_with is_blank every request_of make_permit
permit_once_example =
    permit_once desk evening "ap-1" "ab12" "sre-1" "key" "" "ap-1" "ab12" "sre-1" "key" ""
      (holding (item approved "key-2"))
      (verified_permit desk "ap-1" "ab12" "sre-1" "key" "" (holding (item approved "key-2"))).1
      (permit_of desk "ap-1" request) (permit_of desk "ap-1" request) (item approved "key-2")
      (item approved "key-2") [] refl refl (omega arith) refl refl refl refl

trigger_resume-Handed_example :
    Handed desk "ap-1" "ab12" "sre-1" "key"
      (holding (item approved "key-2"))
      (trigger_resume desk "ap-1" "ab12" "sre-1" "key" (holding (item approved "key-2"))).1
trigger_resume-Handed_example =
    trigger_resume-Handed desk "ap-1" "ab12" "sre-1" "key" (holding (item approved "key-2"))

approval_by_other_schedules_nothing_example :
    (approve_approval desk decision (holding (item pending ""))).1.scheduled ≡ []
unfolding ensure_loaded find request_of
approval_by_other_schedules_nothing_example =
    approval_by_other_schedules_nothing desk decision (holding (item pending "")) (item pending "")
      refl (λ h. cc)

-- The requester's own name would have scheduled the run.
resumed_by_requester :
    (trigger_resume desk "ap-1" "ab12" "sre-1" "key" (holding (item approved "key-2"))).1.scheduled
    ≡ ("inc-1", restart, permit_of desk "ap-1" request) ∷ []
unfolding trigger_resume swallow resume_call approved_action mint_and_resume hand_over
    verified_permit attributed bound_to verified burned verify refusal_of entry ensure_loaded ◌>>=◌
    find permit_event event consume burn is_ascii scope_of action_name environment_name token_of mac
    join_with is_blank every request_of make_permit
resumed_by_requester = refl
