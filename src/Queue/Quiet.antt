-- ===== src/Queue/Quiet.antt =====
-- backend/app/routers/approvals.py: a mint hands nothing over.
use proof_ops.Common.{
  String, Bool, true, false, ◌≡◌, Option, some, none, List, [], is_empty, if◌then◌else◌, Result, ok,
  err, pure,
}
use proof_ops.Common.Steps.{Meets, went, stopped, and_then}
use proof_ops.Fsm.Run.{Rejection, Permit}
use proof_ops.Contracts.Value.{Value}
use proof_ops.Contracts.Vocabulary.{Action}
use proof_ops.Audit.Chain.{AuditChain, AuditError}
use proof_ops.Approval.Token.{ApprovalRequest, Refusal, verify}
use proof_ops.Approval.Token as token
use proof_ops.Queue.Entry.{
  Entry, Mistake, approval_denied, State, Services, Step, find, require, event, event_on, emitted,
  recorded, permit_event,
}
use proof_ops.Queue.Store.{ensure_loaded, load_store, load_if, installed, staged_of, found, entry}
use proof_ops.Queue.Permit.{
  approved_action, reject_with, on_refusal, answered, verified, burned, minted_once, attributed,
  bound_to, made, verified_permit,
}

-- What was handed over stays as it was.
abbrev pub Quiet :
    {A : Type 0} → List (String × Action × Permit) → Result Mistake A × State → Type 0
Quiet l = Meets (λ s. s.scheduled ≡ l) (λ a s. s.scheduled ≡ l)

module _ (services : Services) (l : List (String × Action × Permit)) where
  recorded-Quiet :
      (x : Result AuditError (Unit {0}) × AuditChain) (s : State)
      → s.scheduled ≡ l
      → Quiet l (recorded services x s)
  recorded-Quiet (ok u, c) s k = went k
  recorded-Quiet (err x, c) s k = stopped k

  event_on-Quiet :
      (c : Option AuditChain) (kind actor : String) (r : ApprovalRequest) (evidence : List String)
      (result : String) (s : State)
      → s.scheduled ≡ l
      → Quiet l (event_on services c kind actor r evidence result s)
  event_on-Quiet none kind actor r evidence result s k = went k
  event_on-Quiet (some c) kind actor r evidence result s k =
      recorded-Quiet (emitted services kind actor r evidence result c) s k

  pub event-Quiet :
      (kind : String) (e : Entry) (actor result : String) (s : State)
      → s.scheduled ≡ l
      → Quiet l (event services kind e actor result s)
  unfolding event
  event-Quiet kind e actor result s k =
      event_on-Quiet s.chain kind actor e.request e.evidence_ids result s k

  permit_event-Quiet :
      (r : ApprovalRequest) (actor : String) (s : State)
      → s.scheduled ≡ l
      → Quiet l (permit_event services r actor s)
  unfolding permit_event
  permit_event-Quiet r actor s k = event_on-Quiet s.chain _ actor r [] _ s k

  pub require-Quiet :
      (b : Bool) (x : Mistake) (s : State) → s.scheduled ≡ l → Quiet l (require b x s)
  require-Quiet true x s k = went k
  require-Quiet false x s k = stopped k

  installed-Quiet :
      (x : Result Mistake (List (String × Entry))) (s : State)
      → s.scheduled ≡ l
      → Quiet l (installed services x s)
  installed-Quiet (err x) s k = stopped k
  installed-Quiet (ok staged) s k = went k

  load_if-Quiet :
      (b : Bool) (f : Option (Option Value)) (s : State)
      → s.scheduled ≡ l
      → Quiet l (load_if services b f s)
  unfolding load_store
  load_if-Quiet false f s k = went k
  load_if-Quiet true none s k = went k
  load_if-Quiet true (some doc) s k = installed-Quiet (staged_of services s.file) s k

  found-Quiet : (o : Option Entry) (s : State) → s.scheduled ≡ l → Quiet l (found services o s)
  found-Quiet none s k = stopped k
  found-Quiet (some e) s k = went k

  pub entry-Quiet : (id : String) (s : State) → s.scheduled ≡ l → Quiet l (entry services id s)
  unfolding entry ensure_loaded
  entry-Quiet id s k =
      and_then _ (load_if-Quiet (is_empty s.requests) s.file s k)
        (λ u t k'. found-Quiet (find id t.requests) t k')

  pub approved_action-Quiet :
      (id : String) (s : State) → s.scheduled ≡ l → Quiet l (approved_action services id s)
  unfolding approved_action
  approved_action-Quiet id s k =
      and_then _ (entry-Quiet id s k)
        (λ e t k'. and_then _ (require-Quiet _ _ t k') (λ u v k''. went k''))

  pub reject_with-Quiet :
      {A : Type 0} (e : Entry) (actor text : String) (x : Mistake) (s : State)
      → s.scheduled ≡ l
      → Quiet {A = A} l (reject_with services e actor text x s)
  unfolding reject_with
  reject_with-Quiet e actor text x s k =
      and_then _ (event-Quiet _ e actor text s k) (λ u t k'. stopped k')

  rejected_or-Quiet :
      (b : Bool) (e : Entry) (actor text : String) (s : State)
      → s.scheduled ≡ l
      → Quiet {A = Unit {0}} l
          ((if b then reject_with services e actor text approval_denied else pure tt) s)
  rejected_or-Quiet true e actor text s k = reject_with-Quiet e actor text _ s k
  rejected_or-Quiet false e actor text s k = went k

  module _ (id : String) (e : Entry) (actor : String) (saved : Step (Unit {0}))
      (quiet : (s : State) → s.scheduled ≡ l → Quiet l (saved s)) where
    on_refusal-Quiet :
        (x : Refusal) (s : State)
        → s.scheduled ≡ l
        → Quiet {A = Unit {0}} l (on_refusal services id e actor saved x s)
    unfolding on_refusal
    on_refusal-Quiet token.approval_expired s k = and_then _ (went k) (λ u v kv.
        and_then _ (event-Quiet _ e actor _ v kv)
          (λ u t k'. and_then _ (quiet t k') (λ u w k''. stopped k'')))
    on_refusal-Quiet token.token_not_ascii s k = stopped k
    on_refusal-Quiet token.token_replayed s k = reject_with-Quiet e actor _ _ s k
    on_refusal-Quiet token.missing_token s k = reject_with-Quiet e actor _ _ s k
    on_refusal-Quiet token.wrong_actor s k = reject_with-Quiet e actor _ _ s k
    on_refusal-Quiet token.parameters_differ s k = reject_with-Quiet e actor _ _ s k
    on_refusal-Quiet token.scope_mismatch s k = reject_with-Quiet e actor _ _ s k
    on_refusal-Quiet token.bad_signature s k = reject_with-Quiet e actor _ _ s k

    pub answered-Quiet :
        (x : Result Refusal ApprovalRequest) (s : State)
        → s.scheduled ≡ l
        → Quiet l (answered services id e actor saved x s)
    answered-Quiet (ok r) s k = went k
    answered-Quiet (err x) s k = on_refusal-Quiet x s k

  minted_once-Quiet :
      (e : Entry) (actor : String) (b : Bool) (s : State)
      → s.scheduled ≡ l
      → Quiet l (minted_once services e actor b s)
  minted_once-Quiet e actor true s k = went k
  minted_once-Quiet e actor false s k = reject_with-Quiet e actor _ _ s k

  made-Quiet :
      (p : Result Rejection Permit) (s : State) → s.scheduled ≡ l → Quiet l (made services p s)
  made-Quiet (ok p) s k = went k
  made-Quiet (err x) s k = stopped k

  pub verified_permit-Quiet :
      (id token actor secret incident : String) (s : State)
      → s.scheduled ≡ l
      → Quiet l (verified_permit services id token actor secret incident s)
  unfolding verified_permit attributed bound_to verified burned
  verified_permit-Quiet id token actor secret incident s k =
      and_then _ (entry-Quiet id s k) (λ e t k1. and_then _ (require-Quiet _ _ t k1) (λ u t2 k2.
        and_then _ (rejected_or-Quiet _ e actor _ t2 k2) (λ u t3 k3.
          and_then _ (rejected_or-Quiet _ e actor _ t3 k3) (λ u t4 k4.
            and_then _ (answered-Quiet id e actor _ (λ v kv. went kv) _ _ k4) (λ u t5 k5.
              and_then {Q = λ b t. t.scheduled ≡ l} _ (went k5) (λ fresh t6 k6.
                and_then _ (minted_once-Quiet e actor fresh t6 k6) (λ u t7 k7.
                  and_then _ (made-Quiet _ t7 k7) (λ p t8 k8.
                    and_then _ (permit_event-Quiet e.request actor t8 k8)
                      (λ u t9 k9. went k9)))))))))
