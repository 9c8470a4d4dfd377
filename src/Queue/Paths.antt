-- ===== src/Queue/Paths.antt =====
-- backend/app/routers/approvals.py: the queue after each of the module's calls.
use text.Mathlib.Text.{◌==◌ as str_eq}
use proof_ops.Common.{
  String, Bool, true, false, not, ◌&&◌, ◌≡◌, refl, List, is_blank, if◌then◌else◌, contains, Result,
  ok, err, pure,
}
use proof_ops.Common.Steps.{went, stopped, and_then, Meets-weaken, settled}
use proof_ops.Contracts.Vocabulary.{Action}
use proof_ops.Fsm.Run.{Rejection, Permit}
use proof_ops.Queue.Entry.{Entry, approval_denied, State, Services}
use proof_ops.Queue.Permit.{
  is_approved, is_per_key, approved_action, reject_with, burned, minted_once, attributed, bound_to,
  made, verified_permit, hand_over, queue_resume, mint_and_resume, resume_call, swallow,
  trigger_resume,
}
use proof_ops.Queue.Decide.{approval_view}
use proof_ops.Queue.Status.{Evolves}
use proof_ops.Queue.Moves.{Same, Moves, evolved, permit_event-Same, require-Same, entry-Evolved}
use proof_ops.Queue.Walk.{require_holds, approved_only, unmoved, reject_with-Same, verified-Moves}

module _ (services : Services) (m : List (String × Entry)) (e : Entry) (actor : String) (s : State)
    (k : s.requests ≡ m) where
  attributed-Same : Same m (attributed services e actor s)
  unfolding attributed
  attributed-Same = go (is_per_key e.identity_mode && str_eq e.decided_by "")
    where
      go :
          (b : Bool)
          → Same m (
              (if b
                  then reject_with services e actor
                      "permit refused: per-key approval has no deciding principal" approval_denied
                  else pure tt)
                s)
      go true = reject_with-Same services m e actor _ _ s k
      go false = went k

  bound_to-Same : (incident : String) → Same m (bound_to services e actor incident s)
  unfolding bound_to
  bound_to-Same incident =
      go (not (is_blank incident) && not (str_eq e.request.incident_id incident))
    where
      go :
          (b : Bool)
          → Same m (
              (if b
                  then reject_with services e actor "incident mismatch: approval for "
                      approval_denied
                  else pure tt)
                s)
      go true = reject_with-Same services m e actor _ _ s k
      go false = went k

  minted_once-Same : (fresh : Bool) → Same m (minted_once services e actor fresh s)
  minted_once-Same true = went k
  minted_once-Same false = reject_with-Same services m e actor _ _ s k

  burned-Same : (nonce : String) → Same m (burned services nonce s)
  unfolding burned
  burned-Same nonce = went k

  made-Same : (p : Result Rejection Permit) → Same m (made services p s)
  made-Same (ok p) = went k
  made-Same (err x) = stopped k

module _ (services : Services) {l : List (String × Entry)} where
  pub verified_permit-Moves :
      (id token actor secret incident : String) (s : State)
      → Evolves l s.requests
      → Moves l (verified_permit services id token actor secret incident s)
  unfolding verified_permit
  verified_permit-Moves id token actor secret incident s ev0 =
      and_then _ (entry-Evolved services id s ev0) (λ e t h.
        and_then _
          (Meets-weaken (require_holds t.requests (is_approved e.status) _ t refl)
            (λ v k. evolved v h.0 k) (λ u v k. k))
          (λ u v k. unmoved _ h.0 (attributed-Same services _ e actor v k.0) (λ u1 v1 k1.
            unmoved _ h.0 (bound_to-Same services _ e actor v1 k1 incident) (λ u2 v2 k2.
              and_then _
                (verified-Moves services h.0 id e h.1 actor _ (λ n w z. went z)
                  (approved_only e.status k.1) token actor secret false v2 k2)
                (λ u3 v3 k3. unmoved _ h.0 (burned-Same services _ e actor v3 k3 _) (λ fresh v4 k4.
                  unmoved _ h.0 (minted_once-Same services _ e actor v4 k4 fresh) (λ u5 v5 k5.
                    unmoved _ h.0 (made-Same services _ e actor v5 k5 _) (λ p v6 k6.
                      unmoved _ h.0 (permit_event-Same services _ e.request actor v6 k6)
                        (λ u7 v7 k7. went (evolved v7 h.0 k7))))))))))

  hand_over-Moves :
      (incident : String) (a : Action) (p : Permit) (s : State)
      → Evolves l s.requests
      → Moves l (hand_over services incident a p s)
  unfolding hand_over
  hand_over-Moves incident a p s ev = go (contains s.resuming incident)
    where
      go : (b : Bool) → Moves l (queue_resume services b incident a p s)
      go true = went ev
      go false = went ev

  pub approved_action-Moves :
      (id : String) (s : State) → Evolves l s.requests → Moves l (approved_action services id s)
  unfolding approved_action
  approved_action-Moves id s ev0 = and_then _ (entry-Evolved services id s ev0) (λ e t h.
      unmoved _ h.0 (require-Same services _ _ _ t refl) (λ u v k. went (evolved v h.0 k)))

  mint_and_resume-Moves :
      (b : Bool) (id token actor secret incident : String) (a : Action) (s : State)
      → Evolves l s.requests
      → Moves l (mint_and_resume services b id token actor secret incident a s)
  unfolding mint_and_resume
  mint_and_resume-Moves true id token actor secret incident a s ev = went ev
  mint_and_resume-Moves false id token actor secret incident a s ev =
      and_then _ (verified_permit-Moves id token actor secret incident s ev)
        (λ p t ev'. hand_over-Moves incident a p t ev')

  resume_call-Moves :
      (id token actor secret : String) (s : State)
      → Evolves l s.requests
      → Moves l (resume_call services id token actor secret s)
  unfolding resume_call
  resume_call-Moves id token actor secret s ev =
      and_then _ (approved_action-Moves id s ev)
        (λ x t ev'. mint_and_resume-Moves _ id token actor secret x.0 x.1 t ev')

  pub trigger_resume-Moves :
      (id token actor secret : String) (s : State)
      → Evolves l s.requests
      → Moves l (trigger_resume services id token actor secret s)
  unfolding trigger_resume swallow
  trigger_resume-Moves id token actor secret s ev = go services.worker_runs
    where
      go :
          (b : Bool)
          → Moves l (
              (if b then swallow services (resume_call services id token actor secret) else pure tt)
                s)
      go true = went (settled (resume_call-Moves id token actor secret s ev))
      go false = went ev

  pub approval_view-Moves :
      (id : String) (s : State) → Evolves l s.requests → Moves l (approval_view services id s)
  unfolding approval_view
  approval_view-Moves id s ev = and_then _ (entry-Evolved services id s ev) (λ e t h. went h.0)
