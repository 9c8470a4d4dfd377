-- ===== src/Queue/Calls.antt =====
-- backend/app/routers/approvals.py: the queue after a request, a decision or a sweep.
use text.Mathlib.Text.{◌==◌ as str_eq}
use proof_ops.Common.{
  String, Bool, true, false, not, ◌&&◌, ◌||◌, ◌≡◌, refl, Option, some, none, List, if◌then◌else◌,
  pure, raise,
}
use proof_ops.Common.Steps.{went, stopped, and_then, Meets-weaken}
use proof_ops.Queue.Entry.{Entry, approval_denied, View, State, Services, Step}
use proof_ops.Queue.Permit.{is_pending, is_per_key, reject_with}
use proof_ops.Queue.Decide.{answer, keyed, idem, rejected, reject_approval}
use proof_ops.Queue.Approve.{
  Approval, keys_differ, names_differ, separated, sod_requester, decided, approve_approval,
}
use proof_ops.Queue.Status.{Evolves}
use proof_ops.Queue.Moves.{Same, Moves, evolved, event-Same, save-Same, require-Same, entry-Evolved}
use proof_ops.Queue.Walk.{
  require_holds, pending_only, unmoved, reject_with-Same, written-Moves, verified-Moves,
}
use proof_ops.Queue.Paths.{trigger_resume-Moves, approval_view-Moves}

module _ (services : Services) (m : List (String × Entry)) (c : Approval) (e : Entry) (s : State)
    (k : s.requests ≡ m) where
  keys_differ-Same : Same m (keys_differ services c e s)
  unfolding keys_differ
  keys_differ-Same =
      go (str_eq c.approver_key_id "" || str_eq e.requester_key_id "")
        (str_eq c.approver_key_id e.requester_key_id)
    where
      go :
          (b d : Bool)
          → Same m (
              (if b
                  then raise approval_denied
                  else if d
                  then reject_with services e c.actor "separation of duties: approver key "
                      approval_denied
                  else pure tt)
                s)
      go true d = stopped k
      go false true = reject_with-Same services m e c.actor _ _ s k
      go false false = went k

  names_differ-Same : Same m (names_differ services c e s)
  unfolding names_differ
  names_differ-Same =
      go (str_eq c.actor (sod_requester c.requester e.request.actor) && not c.allow_self_approval)
    where
      go :
          (b : Bool)
          → Same m (
              (if b
                  then reject_with services e c.actor "separation of duties: approver "
                      approval_denied
                  else pure tt)
                s)
      go true = reject_with-Same services m e c.actor _ _ s k
      go false = went k

  separated-Same : Same m (separated services c e s)
  unfolding separated
  separated-Same = go (is_per_key c.identity_mode) c.enforce_sod
    where
      go :
          (b d : Bool)
          → Same m (
              (if b
                  then keys_differ services c e
                  else if d
                  then names_differ services c e
                  else pure tt)
                s)
      go true d = keys_differ-Same
      go false true = names_differ-Same
      go false false = went k

module _ (services : Services) {l : List (String × Entry)} where
  decided-Moves : (c : Approval) (s : State) → Evolves l s.requests → Moves l (decided services c s)
  unfolding decided
  decided-Moves c s ev0 = and_then _ (entry-Evolved services c.approval_id s ev0) (λ e t h.
      unmoved _ h.0 (require-Same services _ _ _ t refl) (λ u v k.
        and_then _
          (Meets-weaken (require_holds t.requests (is_pending e.status) _ v k)
            (λ w z. evolved w h.0 z) (λ u v z. z))
          (λ u1 v1 k1. unmoved _ h.0 (require-Same services _ _ _ v1 k1.0) (λ u2 v2 k2.
            unmoved _ h.0 (separated-Same services _ c e v2 k2) (λ u3 v3 k3.
              and_then _
                (verified-Moves services h.0 c.approval_id e h.1 c.actor _ (save-Same services)
                  (pending_only e.status _ k1.1) c.token _ c.secret true v3 k3)
                (λ u4 v4 k4.
                  written-Moves services h.0 c.approval_id e h.1 _ _ v4 k4 refl refl
                    (pending_only e.status _ k1.1)
                    (λ v5 ev5 k5. unmoved _ ev5 (event-Same services _ _ e _ _ v5 k5) (λ u6 v6 k6.
                      unmoved _ ev5 (save-Same services _ v6 k6) (λ u7 v7 k7.
                        and_then _
                          (approval_view-Moves services c.approval_id v7 (evolved v7 ev5 k7))
                          (λ view v8 ev8.
                            and_then _
                              (trigger_resume-Moves services c.approval_id c.token c.actor c.secret
                                v8 ev8)
                              (λ u9 v9 ev9. went ev9)))))))))))

  rejected-Moves :
      (id actor role reason audit_actor key : String) (s : State)
      → Evolves l s.requests
      → Moves l (rejected services id actor role reason audit_actor key s)
  unfolding rejected
  rejected-Moves id actor role reason audit_actor key s ev0 =
      and_then _ (entry-Evolved services id s ev0) (λ e t h.
        and_then _
          (Meets-weaken (require_holds t.requests (is_pending e.status) _ t refl)
            (λ w z. evolved w h.0 z) (λ u v z. z))
          (λ u1 v1 k1. unmoved _ h.0 (require-Same services _ _ _ v1 k1.0) (λ u2 v2 k2.
            written-Moves services h.0 id e h.1 _ _ v2 k2 refl refl (pending_only e.status _ k1.1)
              (λ v5 ev5 k5. unmoved _ ev5 (event-Same services _ _ e _ _ v5 k5) (λ u6 v6 k6.
                unmoved _ ev5 (save-Same services _ v6 k6)
                  (λ u7 v7 k7. approval_view-Moves services id v7 (evolved v7 ev5 k7)))))))

  module _ (id : String) (produce : Step View)
      (moves : (s : State) → Evolves l s.requests → Moves l (produce s)) where
    answer-Moves :
        (o : Option View) (key : String) (s : State)
        → Evolves l s.requests
        → Moves l (answer services id key produce o s)
    answer-Moves (some v) key s ev = went ev
    answer-Moves none key s ev = and_then _ (moves s ev) (λ v t ev'. went ev')

    keyed-Moves :
        (o : Option View) (b : Bool) (key : String) (s : State)
        → Evolves l s.requests
        → Moves l (keyed services id o b key produce s)
    keyed-Moves o true key s ev = stopped ev
    keyed-Moves o false key s ev = answer-Moves o key s ev

    idem-Moves :
        (key : Option String) (s : State)
        → Evolves l s.requests
        → Moves l (idem services id key produce s)
    unfolding idem
    idem-Moves none s ev = and_then _ (moves s ev) (λ v t ev'. went ev')
    idem-Moves (some key) s ev = keyed-Moves _ _ key s ev

  pub approve_approval-Moves :
      (c : Approval) (s : State) → Evolves l s.requests → Moves l (approve_approval services c s)
  unfolding approve_approval
  approve_approval-Moves c s ev =
      idem-Moves c.approval_id _ (decided-Moves c) c.idempotency_key s ev

  pub reject_approval-Moves :
      (id actor role reason : String) (key : Option String) (audit_actor approver_key_id : String)
      (s : State)
      → Evolves l s.requests
      → Moves l (reject_approval services id actor role reason key audit_actor approver_key_id s)
  unfolding reject_approval
  reject_approval-Moves id actor role reason key audit_actor approver_key_id s ev =
      idem-Moves id _ (rejected-Moves id actor role reason audit_actor approver_key_id) key s ev
