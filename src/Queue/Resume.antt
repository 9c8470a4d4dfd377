-- ===== src/Queue/Resume.antt =====
-- backend/app/routers/approvals.py: what an approval hands to the orchestrator.
use mathlib.Core.Path.{subst}
use proof_ops.Common.{
  String, Bool, true, false, ◌≡◌, ◌≢◌, refl, sym, ◌∙◌, ap, Option, some, List, [], ◌∷◌, ◌++◌,
  is_empty, if◌then◌else◌, contains, Result, pure,
}
use proof_ops.Common.Steps.{Meets, went, stopped, and_then, both}
use proof_ops.Fsm.Run.{Permit}
use proof_ops.Queue.Entry.{Entry, Mistake, State, Services, find}
use proof_ops.Queue.Store.{ensure_loaded, load_if}
use proof_ops.Queue.Permit.{
  is_approved, approved_action, hand_over, queue_resume, mint_and_resume, resume_call, swallow,
  trigger_resume,
}
use proof_ops.Queue.Returns.{Once, require-Once, entry-Once}
use proof_ops.Queue.Mint.{IsMinted, verified_permit-Once}
use proof_ops.Queue.Quiet.{approved_action-Quiet, verified_permit-Quiet}

-- What became of the orchestrator's work: nothing, or the stored action of an approved entry with a
-- permit that was minted for it.
pub data Handed (services : Services) (id token actor secret : String) (s t : State) : Type 0 where
  nothing : t.scheduled ≡ s.scheduled → Handed services id token actor secret s t
  queued :
      (e : Entry) (p : Permit)
      → find id (ensure_loaded services s).1.requests ≡ some e
      → is_approved e.status ≡ true
      → IsMinted services id token actor secret e.request.incident_id (ensure_loaded services s).1 p
      → t.scheduled ≡ s.scheduled ++ (e.request.incident_id, e.action, p) ∷ []
      → Handed services id token actor secret s t

module _ (services : Services) where
  -- A queue that holds something is loaded.
  pub loaded_once :
      (id : String) (t : State) {e : Entry}
      → find id t.requests ≡ some e
      → (ensure_loaded services t).1 ≡ t
  unfolding ensure_loaded find
  loaded_once id t h = go t.requests h
    where
      go :
          (l : List (String × Entry)) {e : Entry}
          → find id l ≡ some e
          → (load_if services (is_empty l) t.file t).1 ≡ t
      go [] h = cc
      go (x ∷ l) h = refl

  approved_action-Once :
      (id : String) (s : State)
      → Once
          (λ x t.
            (t ≡ (ensure_loaded services s).1)
            × ((e : Entry) × (find id t.requests ≡ some e)
                × (is_approved e.status ≡ true)
                × (x ≡ (e.request.incident_id, e.action))))
          (approved_action services id s)
  unfolding approved_action
  approved_action-Once id s = and_then _ (entry-Once services id s) (λ e t h.
      and_then _ (require-Once (is_approved e.status) _ t)
        (λ u v k. went (k.0 ∙ h.0, (e, ap (λ d. find id d.requests) k.0 ∙ h.1, k.1, refl))))

  module _ (id token actor secret : String) (s : State) where
    hand_over-Handed :
        (e : Entry) (p : Permit) (t : State)
        → t.scheduled ≡ s.scheduled
        → find id (ensure_loaded services s).1.requests ≡ some e
        → is_approved e.status ≡ true
        → IsMinted services id token actor secret e.request.incident_id
            (ensure_loaded services s).1
            p
        → Meets
            (λ d. d.scheduled ≡ s.scheduled)
            (λ u d. Handed services id token actor secret s d)
            (hand_over services e.request.incident_id e.action p t)
    unfolding hand_over
    hand_over-Handed e p t k f a m = go (contains t.resuming e.request.incident_id)
      where
        go :
            (b : Bool)
            → Meets
                (λ d. d.scheduled ≡ s.scheduled)
                (λ u d. Handed services id token actor secret s d)
                (queue_resume services b e.request.incident_id e.action p t)
        go true = went (nothing k)
        go false =
            went (queued e p f a m (ap (λ l. l ++ (e.request.incident_id, e.action, p) ∷ []) k))

    mint_and_resume-Handed :
        (b : Bool) (e : Entry) (t : State)
        → t.scheduled ≡ s.scheduled
        → t ≡ (ensure_loaded services s).1
        → find id t.requests ≡ some e
        → is_approved e.status ≡ true
        → Meets
            (λ d. d.scheduled ≡ s.scheduled)
            (λ u d. Handed services id token actor secret s d)
            (mint_and_resume services b id token actor secret e.request.incident_id e.action t)
    unfolding mint_and_resume
    mint_and_resume-Handed true e t k q f a = went (nothing k)
    mint_and_resume-Handed false e t k q f a =
        and_then _
          (both
            (verified_permit-Quiet services s.scheduled id token actor secret e.request.incident_id
              t k)
            (verified_permit-Once services id token actor secret e.request.incident_id t))
          (λ p v h. hand_over-Handed e p v h.0 (ap (λ d. find id d.requests) (sym q) ∙ f) a (
            subst (λ d. IsMinted services id token actor secret e.request.incident_id d p)
              (loaded_once id t f ∙ q) h.1.0))

    resume_call-Handed :
        Meets
          (λ d. d.scheduled ≡ s.scheduled)
          (λ u d. Handed services id token actor secret s d)
          (resume_call services id token actor secret s)
    unfolding resume_call
    resume_call-Handed =
        and_then _
          (both (approved_action-Quiet services s.scheduled id s refl) (approved_action-Once id s))
          (λ x t h. let (k, (q, (e, f, a, y))) = h in rw y (mint_and_resume-Handed _ e t k q f a))

    swallowed :
        (r : Result Mistake (Unit {0}) × State)
        → Meets
            (λ d. d.scheduled ≡ s.scheduled)
            (λ u d. Handed services id token actor secret s d)
            r
        → Handed services id token actor secret s r.1
    swallowed r (went h) = h
    swallowed r (stopped k) = nothing k

    -- After `_trigger_resume` nothing was handed to the orchestrator, or exactly one piece of work:
    -- the stored incident and action of an entry that is approved, with a permit that was minted
    -- for it, for that incident, token and actor.
    pub trigger_resume-Handed :
        Handed services id token actor secret s (trigger_resume services id token actor secret s).1
    unfolding trigger_resume swallow
    trigger_resume-Handed = go services.worker_runs
      where
        go :
            (b : Bool)
            → Handed services id token actor secret s
                ((if b
                    then swallow services (resume_call services id token actor secret)
                    else pure tt)
                  s).1
        go false = nothing refl
        go true = swallowed _ resume_call-Handed

    -- Where the actor of the resume is not the one who requested, nothing is handed over.
    pub other_actor_resumes_nothing :
        (e : Entry)
        → find id (ensure_loaded services s).1.requests ≡ some e
        → actor ≢ e.request.actor
        → (trigger_resume services id token actor secret s).1.scheduled ≡ s.scheduled
    other_actor_resumes_nothing e f h = elim trigger_resume-Handed [
      | nothing k ↦ k
      | queued e' p f' a m k ↦ absurd (h (m.bound.by_actor ∙ same_actor m.subject e m.placed f))
    ]
      where
        same_actor :
            {o : Option Entry} (a b : Entry)
            → o ≡ some a
            → o ≡ some b
            → a.request.actor ≡ b.request.actor
        same_actor a b i j = cc
