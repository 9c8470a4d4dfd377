-- ===== src/Queue/Moves.antt =====
-- backend/app/routers/approvals.py: what is known of the queue after a step.
use mathlib.Core.Path.{subst}
use proof_ops.Common.{
  String, Bool, true, false, ◌≡◌, refl, sym, Option, some, none, List, [], is_empty, Result, ok,
  err,
}
use proof_ops.Common.Steps.{Meets, went, stopped, and_then, Meets-weaken}
use proof_ops.Contracts.Value.{Value}
use proof_ops.Audit.Chain.{AuditChain, AuditError}
use proof_ops.Approval.Token.{ApprovalRequest}
use proof_ops.Queue.Entry.{
  Entry, Mistake, State, Services, find, require, event, event_on, recorded, permit_event,
}
use proof_ops.Queue.Store.{
  ensure_loaded, load_store, load_if, installed, found, entry, save, save_if, staged_of,
}
use proof_ops.Queue.Status.{Evolves, Evolves-any, staged_of-Unique}

-- What is in the queue that evolved from `l`.
abbrev pub Evolved : List (String × Entry) → State → Type 0
Evolved l s = Evolves l s.requests

-- A step that leaves the queue at `m`.
abbrev pub Same : {A : Type 0} → List (String × Entry) → Result Mistake A × State → Type 0
Same m = Meets (λ s. s.requests ≡ m) (λ a s. s.requests ≡ m)

abbrev pub Moves : {A : Type 0} → List (String × Entry) → Result Mistake A × State → Type 0
Moves l = Meets (Evolved l) (λ a s. Evolved l s)

pub evolved :
    {l m : List (String × Entry)} (s : State) → Evolves l m → s.requests ≡ m → Evolves l s.requests
evolved {l} s ev e = subst (Evolves l) (sym e) ev

module _ {A : Type 0} where
  pub same :
      (m : List (String × Entry)) (r : Result Mistake A × State) → r.1.requests ≡ m → Same m r
  same m (ok a, s) e = went e
  same m (err x, s) e = stopped e

  -- What is known of the queue is kept.
  pub known :
      {l m : List (String × Entry)} {r : Result Mistake A × State}
      → Evolves l m
      → Same m r
      → Meets (Evolved l) (λ a s. s.requests ≡ m) r
  known ev h = Meets-weaken h (λ s e. evolved s ev e) (λ a s e. e)

module _ (services : Services) where
  -- The events, the nonces, the file and the responses are no part of the queue.
  module _ (m : List (String × Entry)) where
    recorded-Same :
        (x : Result AuditError (Unit {0}) × AuditChain) (s : State)
        → s.requests ≡ m
        → Same m (recorded services x s)
    recorded-Same (ok u, c) s k = went k
    recorded-Same (err x, c) s k = stopped k

    event_on-Same :
        (c : Option AuditChain) (kind actor : String) (r : ApprovalRequest) (evidence : List String)
        (result : String) (s : State)
        → s.requests ≡ m
        → Same m (event_on services c kind actor r evidence result s)
    event_on-Same none kind actor r evidence result s k = went k
    event_on-Same (some c) kind actor r evidence result s k = recorded-Same _ s k

    pub event-Same :
        (kind : String) (e : Entry) (actor result : String) (s : State)
        → s.requests ≡ m
        → Same m (event services kind e actor result s)
    unfolding event
    event-Same kind e actor result s k =
        event_on-Same s.chain kind actor e.request e.evidence_ids result s k

    pub permit_event-Same :
        (r : ApprovalRequest) (actor : String) (s : State)
        → s.requests ≡ m
        → Same m (permit_event services r actor s)
    unfolding permit_event
    permit_event-Same r actor s k = event_on-Same s.chain _ actor r [] _ s k

    save_if-Same : (b : Bool) (s : State) → s.requests ≡ m → Same m (save_if services b s)
    save_if-Same true s k = went k
    save_if-Same false s k = went k

    pub save-Same : (s : State) → s.requests ≡ m → Same m (save services s)
    unfolding save
    save-Same s k = save_if-Same services.saves s k

    pub require-Same :
        (b : Bool) (x : Mistake) (s : State) → s.requests ≡ m → Same m (require b x s)
    require-Same true x s k = went k
    require-Same false x s k = stopped k

  -- The first access may load the file; an entry that is found is that of the queue.
  module _ {l : List (String × Entry)} where
    installed-Moves :
        (x : Result Mistake (List (String × Entry))) (s : State)
        → staged_of services s.file ≡ x
        → is_empty s.requests ≡ true
        → Evolves l s.requests
        → Moves l (installed services x s)
    installed-Moves (err x) s e empty ev = stopped ev
    installed-Moves (ok staged) s e empty ev =
        went (Evolves-any staged empty ev (staged_of-Unique services s.file e))

    load_if-Moves :
        (b : Bool) (f : Option (Option Value)) (s : State)
        → is_empty s.requests ≡ b
        → Evolves l s.requests
        → Moves l (load_if services b f s)
    unfolding load_store
    load_if-Moves false f s e ev = went ev
    load_if-Moves true none s e ev = went ev
    load_if-Moves true (some doc) s e ev = installed-Moves (staged_of services s.file) s refl e ev

    pub ensure_loaded-Moves :
        (s : State) → Evolves l s.requests → Moves l (ensure_loaded services s)
    unfolding ensure_loaded
    ensure_loaded-Moves s ev = load_if-Moves (is_empty s.requests) s.file s refl ev

    found-Evolved :
        (id : String) (o : Option Entry) (t : State)
        → Evolves l t.requests
        → find id t.requests ≡ o
        → Meets
            (Evolved l)
            (λ e t. Evolved l t × (find id t.requests ≡ some e))
            (found services o t)
    found-Evolved id none t ev h = stopped ev
    found-Evolved id (some e) t ev h = went (ev, h)

    pub entry-Evolved :
        (id : String) (s : State)
        → Evolves l s.requests
        → Meets
            (Evolved l)
            (λ e t. Evolved l t × (find id t.requests ≡ some e))
            (entry services id s)
    unfolding entry
    entry-Evolved id s ev =
        and_then _ (ensure_loaded-Moves s ev)
          (λ u t ev'. found-Evolved id (find id t.requests) t ev' refl)
