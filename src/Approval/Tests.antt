-- ===== src/Approval/Tests.antt =====
-- Approvals on concrete inputs, over a toy signature and a store of two nonces.
use text.Mathlib.Text.{◌==◌ as str_eq}
use proof_ops.Common.{
  arith, ap, String, ◌≡◌, refl, ◌⊎◌, ◌↔◌, true, false, none, some, List, [], ◌∷◌, ok, err, is_blank,
  is_padded, every, take_chars,
}
use proof_ops.Contracts.Identifier.{is_identifier}
use proof_ops.Contracts.Value.{no_binding}
use proof_ops.Contracts.Vocabulary.{
  Action, restart_pod, staging, yellow, action_name, environment_name,
}
use proof_ops.Approval.Nonces.{
  Disk, appended, torn, replaced, NonceStore, memory_store, open_store, consume, consume_all, burn,
  write_log, remember, all_recovered,
}
use proof_ops.Approval.Restart.{burn_durable_or_flagged}
use proof_ops.Approval.Evict.{full_store_forgets}
use proof_ops.Approval.Token.{
  Signing, ApprovalRequest, Refusal, request_of, issue, verify, token_of, mac, join_with, scope_of,
  is_request, is_nonce, is_ascii,
}
use proof_ops.Approval.Grant.{IsGranted, verify_grants, issue-verify, replay_denied}

abbrev good_disk : Disk
good_disk = record { append = appended; replace = replaced }

abbrev torn_disk : Disk
torn_disk = record { append = torn 2; replace = replaced }

abbrev file_store : List String → NonceStore
file_store ns = record { used = ns; order = ns; log = some ns; tail = ""; degraded = false }

burn_durable_or_flagged_example :
    ((rs : List String) × ((consume 2 good_disk "n-1" (file_store [])).1.log ≡ some rs)
      × ((consume 2 good_disk "n-1" (file_store [])).1.tail ≡ "")
      × ((consume 2 good_disk "n-1" (open_store (λ r. r ∷ []) rs "")).0 ≡ false))
    ⊎ ((consume 2 good_disk "n-1" (file_store [])).1.degraded ≡ true)
unfolding consume
burn_durable_or_flagged_example =
    burn_durable_or_flagged (λ r. r ∷ []) 2 2 good_disk good_disk "n-1" (file_store []) [] refl refl
      refl refl refl

-- A torn line swallows the next nonce: a store opened over it consumes "n-2" without the flag, and
-- the store opened after that takes "n-2" again.
abbrev torn_store : NonceStore
torn_store = (consume 2 torn_disk "n-1" (file_store [])).1

abbrev reopened : NonceStore
reopened = open_store (λ r. r ∷ []) [] torn_store.tail

abbrev again : NonceStore
again = (consume 2 good_disk "n-2" reopened).1

torn_line :
    (torn_store.tail ≡ "n-")
    × (again.degraded ≡ false)
    × (again.log ≡ some ("n-n-2" ∷ []))
    × ((consume 2 good_disk "n-2" (open_store (λ r. r ∷ []) ("n-n-2" ∷ []) "")).0 ≡ true)
unfolding consume burn write_log open_store remember all_recovered take_chars
torn_line = (refl, refl, refl, refl)

full_store_forgets_example :
    (consume 2 good_disk "n-1" (consume 2 good_disk "n-3" (file_store ("n-1" ∷ "n-2" ∷ []))).1).0
    ≡ true
full_store_forgets_example =
    full_store_forgets 2 replaced good_disk "n-1" "n-3" ("n-2" ∷ []) ("n-1" ∷ "n-2" ∷ [])
      (file_store ("n-1" ∷ "n-2" ∷ [])) refl refl refl refl refl refl refl

abbrev toy : Signing
toy = record { hexdigest = λ k m. "ab12"; params_hash = λ p. "p0"; isoformat = λ t. "t0" }

abbrev restart : Action
restart = record {
  action_id = "act-1";
  incident_id = "inc-1";
  agent_id = "planner";
  action_type = restart_pod;
  resource_type = "pod";
  resource_id = "pod/web-1";
  environment = staging;
  namespace = "web";
  parameters = no_binding;
  risk_level = yellow;
  reason = "crash loop";
  evidence_ids = [];
  runbook_id = "rb-1";
  runbook_version = "1.0.0";
  expected_outcome = "up";
  rollback_action = none;
  verification_plan = [];
}

abbrev request : ApprovalRequest
request = request_of toy "ap-1" "nonce-01" 100 restart "sre-1" 600

issued : issue toy "ap-1" "nonce-01" 100 restart "sre-1" "key" 600 ≡ ok (request, "ab12")
unfolding issue request_of is_request is_nonce is_identifier scope_of join_with action_name
    environment_name token_of mac is_blank is_padded
issued = refl

signed :
    (k m : String) → (is_ascii (toy.hexdigest k m) ≡ true) × (str_eq (toy.hexdigest k m) "" ≡ false)
unfolding is_ascii every
signed k m = (refl, refl)

issue-verify_example :
    verify toy "ab12" request restart "sre-1" "key" true 200 2 good_disk memory_store
    ≡ (ok request, burn 2 good_disk "nonce-01" memory_store)
issue-verify_example =
    issue-verify toy "ap-1" "nonce-01" "sre-1" "key" 100 200 600 2 restart good_disk memory_store
      signed issued (omega arith) refl

granted :
    (verify toy "ab12" request restart "sre-1" "key" true 200 2 good_disk memory_store).0
    ≡ ok request
granted =
    ap (λ v. v.0)
      (issue-verify toy "ap-1" "nonce-01" "sre-1" "key" 100 200 600 2 restart good_disk memory_store
        signed issued (omega arith) refl)

verify_grants_example :
    ((verify toy "ab12" request restart "sre-1" "key" true 200 2 good_disk memory_store).0
      ≡ ok request)
    ↔ IsGranted toy "ab12" request restart "sre-1" "key" 200 memory_store
verify_grants_example =
    verify_grants toy "ab12" request restart "sre-1" "key" 200 2 good_disk memory_store

replay_denied_example :
    (e : Refusal) × ((verify toy "ab12" request restart "sre-1" "key" true 300 2 good_disk (
        consume_all 2 []
          (verify toy "ab12" request restart "sre-1" "key" true 200 2 good_disk memory_store).1)).0
      ≡ err e)
replay_denied_example =
    replay_denied toy "ab12" "ab12" request restart restart "sre-1" "sre-1" "key" "key" 200 300 2
      good_disk good_disk [] memory_store granted (omega arith)
