-- ===== src/Queue/Store.antt =====
-- backend/app/routers/approvals.py: `save_store`, `load_store` and their callers.
use text.Mathlib.Text.{◌==◌ as str_eq}
use proof_ops.Common.{
  String, Bool, true, false, Option, none, some, List, [], ◌∷◌, is_empty, if◌then◌else◌, Result, ok,
  err, pure, raise,
}
use proof_ops.Common.Steps.{◌>>=◌}
use proof_ops.Contracts.Value.{
  Value, str, sequence, mapping, Items, no_item, item, Fields, no_binding, binding, get, or_null,
}
use proof_ops.Contracts.Vocabulary.{Action}
use proof_ops.Approval.Token.{ApprovalRequest}
use proof_ops.Queue.Entry.{
  Status, pending, approved, denied, expired, Entry, Mistake, approval_missing, value_error,
  type_error, file_missing, Services, Step, find, put,
}

abbrev pub status_name : Status → String
status_name pending = "pending"
status_name approved = "approved"
status_name denied = "denied"
status_name expired = "expired"

-- `status not in _APPROVAL_STATUSES`; a list or an object has no hash.
abbrev pub status_of_text : String → Result Mistake Status
status_of_text s =
    if str_eq s "pending"
    then ok pending
    else if str_eq s "approved"
    then ok approved
    else if str_eq s "denied"
    then ok denied
    else if str_eq s "expired"
    then ok expired
    else err value_error

abbrev pub status_of : Value → Result Mistake Status
status_of (str s) = status_of_text s
status_of (sequence xs) = err type_error
status_of (mapping fs) = err type_error
status_of _ = err value_error

abbrev pub cons_text : Value → Option (List String) → Option (List String)
cons_text (str s) (some ts) = some (s ∷ ts)
cons_text _ _ = none

unfoldable pub texts_of : Items → Option (List String)
texts_of no_item = some []
texts_of (item v vs) = cons_text v (texts_of vs)

abbrev pub text_list : Value → Option (List String)
text_list (sequence xs) = texts_of xs
text_list _ = none

-- `item.get(name, "")`, which must be a text.
abbrev pub extra_of : Option Value → Option String
extra_of none = some ""
extra_of (some (str s)) = some s
extra_of (some _) = none

module _ {A B : Type 0} where
  abbrev pub or_value_error : Option A → (A → Result Mistake B) → Result Mistake B
  or_value_error none f = err value_error
  or_value_error (some a) f = f a

  abbrev pub or_raise : Result Mistake A → (A → Result Mistake B) → Result Mistake B
  or_raise (err x) f = err x
  or_raise (ok a) f = f a

unfoldable pub text_items : List String → Items
text_items [] = no_item
text_items (t ∷ ts) = item (str t) (text_items ts)

module _ (services : Services) where
  -- One entry of the file.
  unfoldable pub written : Entry → Value
  unfolding text_items
  written e = mapping (
      binding "request" (services.write_request e.request) (
        binding "action" (services.write_action e.action) (
          binding "status" (str (status_name e.status)) (
            binding "evidence_ids" (sequence (text_items e.evidence_ids)) (
              binding "requester_key_id" (str e.requester_key_id) (
                binding "identity_mode" (str e.identity_mode)
                  (binding "decided_by" (str e.decided_by) no_binding)))))))

  unfoldable pub payload : List (String × Entry) → Fields
  unfolding written
  payload [] = no_binding
  payload ((id, e) ∷ rest) = binding id (written e) (payload rest)

  -- `_save_best_effort`: `save_store` replaces the file or leaves it.
  abbrev pub save_if : Bool → Step (Unit {0})
  save_if true s =
      (ok tt, record s { file = some (some (mapping (services.sorted (payload s.requests)))) })
  save_if false s = (ok tt, s)

  unfoldable pub save : Step (Unit {0})
  unfolding payload
  save = save_if services.saves

  -- One round of the loop of `load_store`.
  unfoldable pub read_fields : String → Fields → Result Mistake Entry
  read_fields id fs =
      or_value_error (services.read_request (or_null (get "request" fs))) (λ (r : ApprovalRequest).
        or_value_error (services.read_action (or_null (get "action" fs))) (λ (a : Action).
          or_raise (status_of (or_null (get "status" fs))) (λ (st : Status).
            or_value_error (text_list (or_null (get "evidence_ids" fs))) (λ (ids : List String).
              or_value_error (extra_of (get "requester_key_id" fs)) (λ (key : String).
                or_value_error (extra_of (get "identity_mode" fs)) (λ (mode : String).
                  or_value_error (extra_of (get "decided_by" fs)) (λ (by : String).
                    if str_eq id r.approval_id
                    then ok (record {
                      request = r;
                      action = a;
                      status = st;
                      evidence_ids = ids;
                      requester_key_id = key;
                      identity_mode = mode;
                      decided_by = by;
                    })
                    else err value_error)))))))

  unfoldable pub read_item : String → Value → Result Mistake Entry
  unfolding read_fields
  read_item id (mapping fs) = read_fields id fs
  read_item id _ = err value_error

  -- The loop, with what is staged so far.
  unfoldable pub stage : List (String × Entry) → Fields → Result Mistake (List (String × Entry))
  unfolding read_item
  stage staged no_binding = ok staged
  stage staged (binding id v fs) = elim (read_item id v) [
    | err x ↦ err x
    | ok e ↦ stage (put id e staged) fs
  ]

  unfoldable pub staged_of : Option (Option Value) → Result Mistake (List (String × Entry))
  unfolding stage
  staged_of none = err file_missing
  staged_of (some none) = err value_error
  staged_of (some (some (mapping fs))) = stage [] fs
  staged_of (some (some _)) = err value_error

  -- `load_store`: the queue is replaced when every entry was read.
  abbrev pub installed : Result Mistake (List (String × Entry)) → Step (Unit {0})
  installed (err x) s = (err x, s)
  installed (ok staged) s = (ok tt, record s { requests = staged })

  unfoldable pub load_store : Step (Unit {0})
  unfolding staged_of
  load_store s = installed (staged_of s.file) s

  abbrev pub load_if : Bool → Option (Option Value) → Step (Unit {0})
  load_if false file = pure tt
  load_if true none = pure tt
  load_if true (some doc) = load_store

  -- `_ensure_loaded`
  unfoldable pub ensure_loaded : Step (Unit {0})
  unfolding load_store
  ensure_loaded s = load_if (is_empty s.requests) s.file s

  abbrev pub found : Option Entry → Step Entry
  found none = raise approval_missing
  found (some e) = pure e

  -- `_entry`
  unfoldable pub entry : String → Step Entry
  unfolding ensure_loaded
  entry id = ensure_loaded >>= λ _ s. found (find id s.requests) s
