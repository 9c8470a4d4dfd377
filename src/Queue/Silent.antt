-- ===== src/Queue/Silent.antt =====
-- backend/app/routers/approvals.py: what an approval hands to the orchestrator.
use text.Mathlib.Text.{◌==◌ as str_eq}
use proof_ops.Common.{
  String, Bool, true, false, not, ◌&&◌, ◌||◌, ◌≡◌, ◌≢◌, refl, ◌∙◌, ap, Option, some, none, List,
  is_blank, if◌then◌else◌, Result, pure, raise, arith, eq_iff,
}
use proof_ops.Common.Steps.{
  Meets, went, stopped, and_then, both, kept, settled, Meets-weaken, ◌>>=◌, ◌>>◌,
}
use proof_ops.Contracts.Vocabulary.{Action}
use proof_ops.Fsm.Run.{Permit}
use proof_ops.Queue.Entry.{
  approved, Entry, Mistake, approval_denied, View, State, Services, find, put, require, event,
}
use proof_ops.Queue.Store.{ensure_loaded, save, save_if}
use proof_ops.Queue.Permit.{
  is_expired, is_pending, is_per_key, reject_with, verified, trigger_resume,
}
use proof_ops.Queue.Decide.{
  or_text, role_allowed, approval_view, idem, keyed, answer, found_response,
}
use proof_ops.Queue.Approve.{
  Approval, sod_requester, keys_differ, names_differ, separated, subject_of, decided,
  approve_approval,
}
use proof_ops.Queue.Status.{find-put}
use proof_ops.Queue.Moves.{event-Same, save-Same, require-Same}
use proof_ops.Queue.Returns.{entry-Once, answered-Once}
use proof_ops.Queue.Grants.{separated-Once}
use proof_ops.Queue.Quiet.{
  Quiet, event-Quiet, require-Quiet, entry-Quiet, reject_with-Quiet, answered-Quiet,
}
use proof_ops.Queue.Resume.{loaded_once, other_actor_resumes_nothing}

module _ (services : Services) (l : List (String × Action × Permit)) where
  save_if-Quiet : (b : Bool) (s : State) → s.scheduled ≡ l → Quiet l (save_if services b s)
  save_if-Quiet true s k = went k
  save_if-Quiet false s k = went k

  save-Quiet : (s : State) → s.scheduled ≡ l → Quiet l (save services s)
  unfolding save
  save-Quiet s k = save_if-Quiet services.saves s k

  -- Nothing was handed over, and the queue is `m`.
  abbrev Holds : List (String × Entry) → State → Type 0
  Holds m s = (s.scheduled ≡ l) × (s.requests ≡ m)

  abbrev Still : {A : Type 0} → List (String × Entry) → Result Mistake A × State → Type 0
  Still m = Meets (λ s. s.scheduled ≡ l) (λ a s. Holds m s)

  module _ (c : Approval) (e : Entry) (s : State) (k : s.scheduled ≡ l) where
    keys_differ-Quiet : Quiet l (keys_differ services c e s)
    unfolding keys_differ
    keys_differ-Quiet =
        go (str_eq c.approver_key_id "" || str_eq e.requester_key_id "")
          (str_eq c.approver_key_id e.requester_key_id)
      where
        go :
            (b d : Bool)
            → Quiet l (
                (if b
                    then raise approval_denied
                    else if d
                    then reject_with services e c.actor "separation of duties: approver key "
                        approval_denied
                    else pure tt)
                  s)
        go true d = stopped k
        go false true = reject_with-Quiet services l e c.actor _ _ s k
        go false false = went k

    names_differ-Quiet : Quiet l (names_differ services c e s)
    unfolding names_differ
    names_differ-Quiet =
        go (str_eq c.actor (sod_requester c.requester e.request.actor) && not c.allow_self_approval)
      where
        go :
            (b : Bool)
            → Quiet l (
                (if b
                    then reject_with services e c.actor "separation of duties: approver "
                        approval_denied
                    else pure tt)
                  s)
        go true = reject_with-Quiet services l e c.actor _ _ s k
        go false = went k

    separated-Quiet : Quiet l (separated services c e s)
    unfolding separated
    separated-Quiet = go (is_per_key c.identity_mode) c.enforce_sod
      where
        go :
            (b d : Bool)
            → Quiet l (
                (if b
                    then keys_differ services c e
                    else if d
                    then names_differ services c e
                    else pure tt)
                  s)
        go true d = keys_differ-Quiet
        go false true = names_differ-Quiet
        go false false = went k

  module _ (c : Approval) (e : Entry) (m : List (String × Entry)) where
    require-Still : (b : Bool) (x : Mistake) (s : State) → Holds m s → Still m (require b x s)
    require-Still b x s h =
        both (require-Quiet services l b x s h.0) (require-Same services m b x s h.1)

    separated-Still : (s : State) → Holds m s → Still m (separated services c e s)
    separated-Still s h =
        Meets-weaken (both (separated-Quiet c e s h.0) (separated-Once services c e s)) (λ t q. q)
          (λ u t q. (q.0, ap (λ d. d.requests) q.1.0 ∙ h.1))

    verified-Still :
        (s : State)
        → Holds m s
        → Still m (
            verified services c.approval_id e c.actor c.token
              (subject_of services c e)
              c.secret
              true
              (save services)
              s)
    unfolding verified
    verified-Still s h =
        both (answered-Quiet services l c.approval_id e c.actor (save services) save-Quiet _ _ h.0)
          (answered-Once services c.approval_id e c.actor (save services) _ _ (λ r g. h.1))

    event-Still :
        (kind actor result : String) (s : State)
        → Holds m s
        → Still m (event services kind e actor result s)
    event-Still kind actor result s h =
        both (event-Quiet services l kind e actor result s h.0)
          (event-Same services m kind e actor result s h.1)

    save-Still : (s : State) → Holds m s → Still m (save services s)
    save-Still s h = both (save-Quiet s h.0) (save-Same services m s h.1)

  -- The view reads a queue that is loaded.
  approval_view-Still :
      (id : String) (m : List (String × Entry)) (e : Entry) (s : State)
      → find id m ≡ some e
      → Holds m s
      → Still m (approval_view services id s)
  unfolding approval_view
  approval_view-Still id m e s f h =
      let same : (ensure_loaded services s).1 ≡ s =
        loaded_once services id s {e = e} (ap (find id) h.1 ∙ f) in
      and_then _ (both (entry-Quiet services l id s h.0) (entry-Once services id s))
        (λ x t q. went (q.0, ap (λ d. d.requests) (q.1.0 ∙ same) ∙ h.1))

  resume-Quiet :
      (id token actor secret : String) (m : List (String × Entry)) (e : Entry) (s : State)
      → find id m ≡ some e
      → actor ≢ e.request.actor
      → Holds m s
      → Quiet l (trigger_resume services id token actor secret s)
  resume-Quiet id token actor secret m e s f d h =
      let placed : find id s.requests ≡ some e = ap (find id) h.1 ∙ f in
      let same : (ensure_loaded services s).1 ≡ s = loaded_once services id s placed in
      kept _ (
        other_actor_resumes_nothing services id token actor secret s e
          (ap (λ t. find id t.requests) same ∙ placed) d
        ∙ h.0)

  -- What is written under a key is found there.
  written : (id : String) (e : Entry) (m : List (String × Entry)) → find id (put id e m) ≡ some e
  written id e m = ground (arith, find-put id id e m, eq_iff id id)

  same_actor :
      {o : Option Entry} (a b : Entry) → o ≡ some a → o ≡ some b → a.request.actor ≡ b.request.actor
  same_actor a b i j = cc

  module _ (c : Approval) where
    -- From the write on.
    written-Quiet :
        (e e' : Entry) (m : List (String × Entry)) (s : State)
        → c.actor ≢ e'.request.actor
        → Holds (put c.approval_id e' m) s
        → Quiet l (
            (event services "approval.approve" e (or_text c.audit_actor c.actor) "approved "
                >> (save services
                    >> (approval_view services c.approval_id >>= λ v.
                        trigger_resume services c.approval_id c.token c.actor c.secret >> pure v)))
              s)
    written-Quiet e e' m s d h =
        let n = put c.approval_id e' m in
        let f = written c.approval_id e' m in
        and_then _ (event-Still c e n _ _ _ s h) (λ u t1 h1.
          and_then _ (save-Still c e n t1 h1) (λ u t2 h2.
            and_then _ (approval_view-Still c.approval_id n e' t2 f h2) (λ v t3 h3.
              and_then _ (resume-Quiet c.approval_id c.token c.actor c.secret n e' t3 f d h3)
                (λ u t4 h4. went h4))))

    decided-Quiet :
        (s : State) (e : Entry)
        → find c.approval_id (ensure_loaded services s).1.requests ≡ some e
        → c.actor ≢ e.request.actor
        → s.scheduled ≡ l
        → Quiet l (decided services c s)
    unfolding decided
    decided-Quiet s e0 f d k =
        and_then _
          (both (entry-Quiet services l c.approval_id s k) (entry-Once services c.approval_id s))
          (λ e t h.
            let m = t.requests in
            let other : c.actor ≢ e.request.actor = λ q.
              d (q ∙ same_actor e e0 h.1.1 (ap (λ x. find c.approval_id x.requests) h.1.0 ∙ f)) in
            and_then _ (require-Still c e m (not (is_expired e.status)) _ t (h.0, refl)) (λ u t1 h1.
              and_then _ (require-Still c e m (is_pending e.status) _ t1 h1) (λ u t2 h2.
                and_then _ (require-Still c e m (role_allowed c.role) _ t2 h2) (λ u t3 h3.
                  and_then _ (separated-Still c e m t3 h3) (λ u t4 h4.
                    and_then _ (verified-Still c e m t4 h4) (λ u t5 h5.
                      and_then
                        {Q = λ u t.
                          Holds
                            (put c.approval_id
                              (record e { status = approved; decided_by = c.approver_key_id }) m)
                            t}
                        _ (went (h5.0, ap (put c.approval_id _) h5.1))
                        (λ u t6 h6. written-Quiet e _ m t6 other h6)))))))

    module _ (s : State) (k : s.scheduled ≡ l) (quiet : Quiet l (decided services c s)) where
      answer-Quiet :
          (o : Option View) (key : String)
          → Quiet l (answer services c.approval_id key (decided services c) o s)
      answer-Quiet (some v) key = went k
      answer-Quiet none key = and_then _ quiet (λ v t q. went q)

      idem-Quiet :
          (key : Option String) → Quiet l (idem services c.approval_id key (decided services c) s)
      unfolding idem
      idem-Quiet none = and_then _ quiet (λ v t q. went q)
      idem-Quiet (some key) = go (is_blank key)
        where
          go :
              (b : Bool)
              → Quiet l (
                  keyed services c.approval_id
                    (found_response services (c.approval_id, key) s.responses)
                    b
                    key
                    (decided services c)
                    s)
          go true = stopped k
          go false = answer-Quiet _ key

module _ (services : Services) where
  -- An approval by an actor whose name is not the requester's schedules no resume, in per-key mode
  -- too: whatever it returns or raises, nothing is handed to the orchestrator. The request is in the
  -- queue, as loaded.
  pub approval_by_other_schedules_nothing :
      (c : Approval) (s : State) (e : Entry)
      → find c.approval_id (ensure_loaded services s).1.requests ≡ some e
      → c.actor ≢ e.request.actor
      → (approve_approval services c s).1.scheduled ≡ s.scheduled
  unfolding approve_approval
  approval_by_other_schedules_nothing c s e f d = settled (
      idem-Quiet services s.scheduled c s refl (decided-Quiet services s.scheduled c s e f d refl)
        c.idempotency_key)
