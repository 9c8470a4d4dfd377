-- ===== src/Queue/Walk.antt =====
-- backend/app/routers/approvals.py: the queue after a mint, a rejection, an approval or a resume.
use proof_ops.Common.{String, Bool, true, false, ◌≡◌, refl, ap, some, List, Result, ok, err}
use proof_ops.Common.Steps.{◌>>=◌, Meets, went, stopped, and_then}
use proof_ops.Approval.Token.{
  ApprovalRequest, Refusal, missing_token, wrong_actor, parameters_differ, scope_mismatch,
  token_not_ascii, bad_signature, token_replayed, verify,
}
use proof_ops.Approval.Token as token
use proof_ops.Queue.Entry.{
  Status, pending, approved, denied, expired, Entry, Mistake, State, Services, Step, find, put,
  write_entry, require,
}
use proof_ops.Queue.Permit.{is_approved, is_pending, reject_with, on_refusal, answered, verified}
use proof_ops.Queue.Status.{Later, decides, lapses, Evolves, Evolves-put}
use proof_ops.Queue.Moves.{Evolved, Same, evolved, known, event-Same}

-- What a condition that was required says.
pub require_holds :
    (m : List (String × Entry)) (b : Bool) (x : Mistake) (s : State)
    → s.requests ≡ m
    → Meets
        (λ t. t.requests ≡ m)
        (λ (u : Unit {0}) t. (t.requests ≡ m) × (b ≡ true))
        (require b x s)
require_holds m true x s k = went (k, refl)
require_holds m false x s k = stopped k

pub pending_only : (st : Status) (t : Status) → is_pending st ≡ true → Later st t
pending_only pending t h = decides
pending_only approved t h = cc
pending_only denied t h = cc
pending_only expired t h = cc

pub approved_only : (st : Status) → is_approved st ≡ true → Later st expired
approved_only approved h = lapses
approved_only pending h = cc
approved_only denied h = cc
approved_only expired h = cc

module _ {l m : List (String × Entry)} {A B : Type 0} {R : B → State → Type 0} where
  -- A step that leaves the queue alone, and what follows.
  pub unmoved :
      (n : Step A) {f : A → Step B} {s : State}
      → Evolves l m
      → Same m (n s)
      → ((a : A) (t : State) → t.requests ≡ m → Meets (Evolved l) R (f a t))
      → Meets (Evolved l) R ((n >>= f) s)
  unmoved n ev h k = and_then n (known ev h) k

module _ (services : Services) {A : Type 0} (m : List (String × Entry)) where
  pub reject_with-Same :
      (e : Entry) (actor text : String) (x : Mistake) (s : State)
      → s.requests ≡ m
      → Same {A = A} m (reject_with services e actor text x s)
  unfolding reject_with
  reject_with-Same e actor text x s k =
      and_then _ (event-Same services m _ e actor text s k) (λ u t k'. stopped k')

module _ (services : Services) {l m : List (String × Entry)} (ev : Evolves l m) (id : String)
    (e : Entry) (at : find id m ≡ some e) where
  -- An entry that is written with another status.
  pub written-Moves :
      {B : Type 0} {R : B → State → Type 0} (e' : Entry) (f : Step B) (s : State)
      → s.requests ≡ m
      → e'.request ≡ e.request
      → e'.action ≡ e.action
      → Later e.status e'.status
      → ((t : State)
          → Evolves l (put id e' m)
          → t.requests ≡ put id e' m
          → Meets (Evolved l) R (f t))
      → Meets (Evolved l) R ((write_entry id e' >>= λ _. f) s)
  unfolding ◌>>=◌
  written-Moves e' f s k r a later h = h _ (Evolves-put id e' ev at r a later) (ap (put id e') k)

  module _ (actor : String) (saved : Step (Unit {0}))
      (quiet : (n : List (String × Entry)) (s : State) → s.requests ≡ n → Same n (saved s))
      (later : Later e.status expired) where
    on_refusal-Moves :
        (x : Refusal) (s : State)
        → s.requests ≡ m
        → Meets
            (Evolved l)
            (λ (u : Unit {0}) t. t.requests ≡ m)
            (on_refusal services id e actor saved x s)
    unfolding on_refusal
    on_refusal-Moves token.approval_expired s k =
        written-Moves (record e { status = expired }) _ s k refl refl later
          (λ t ev' k'.
            unmoved _ ev' (event-Same services _ _ e actor _ t k')
              (λ u t' k''. unmoved _ ev' (quiet _ t' k'') (λ v w z. stopped (evolved w ev' z))))
    on_refusal-Moves token_not_ascii s k = stopped (evolved s ev k)
    on_refusal-Moves token_replayed s k = known ev (reject_with-Same services m e actor _ _ s k)
    on_refusal-Moves missing_token s k = known ev (reject_with-Same services m e actor _ _ s k)
    on_refusal-Moves wrong_actor s k = known ev (reject_with-Same services m e actor _ _ s k)
    on_refusal-Moves parameters_differ s k = known ev (reject_with-Same services m e actor _ _ s k)
    on_refusal-Moves scope_mismatch s k = known ev (reject_with-Same services m e actor _ _ s k)
    on_refusal-Moves bad_signature s k = known ev (reject_with-Same services m e actor _ _ s k)

    answered-Moves :
        (x : Result Refusal ApprovalRequest) (s : State)
        → s.requests ≡ m
        → Meets
            (Evolved l)
            (λ (u : Unit {0}) t. t.requests ≡ m)
            (answered services id e actor saved x s)
    answered-Moves (ok r) s k = went k
    answered-Moves (err x) s k = on_refusal-Moves x s k

    pub verified-Moves :
        (token subject secret : String) (burns : Bool) (s : State)
        → s.requests ≡ m
        → Meets
            (Evolved l)
            (λ (u : Unit {0}) t. t.requests ≡ m)
            (verified services id e actor token subject secret burns saved s)
    unfolding verified
    verified-Moves token subject secret burns s k = answered-Moves _ _ k
