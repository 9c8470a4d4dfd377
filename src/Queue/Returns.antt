-- ===== src/Queue/Returns.antt =====
-- backend/app/routers/approvals.py: what a step that returns has found.
use mathlib.Core.Path.{subst}
use proof_ops.Common.{
  String, Bool, true, false, ◌≡◌, ◌≢◌, refl, Option, some, none, arith, Result, ok, err,
}
use proof_ops.Common.Steps.{Meets, went, stopped, and_then}
use proof_ops.Approval.Token.{ApprovalRequest, Refusal, verify}
use proof_ops.Approval.Token as token
use proof_ops.Queue.Entry.{Entry, Mistake, State, Services, Step, find, require}
use proof_ops.Queue.Store.{ensure_loaded, entry, found}
use proof_ops.Queue.Permit.{reject_with, on_refusal, answered}

-- Nothing is claimed of an exception.
abbrev pub Once : {A : Type 0} → (A → State → Type 0) → Result Mistake A × State → Type 0
Once Q = Meets (λ s. Unit) Q

module _ {A : Type 0} where
  pub sure : {P : Type 0} (r : Result Mistake A × State) → P → Once (λ a s. P) r
  sure (ok a, s) p = went p
  sure (err x, s) p = stopped tt

  pub never :
      {Q : A → State → Type 0} (r : Result Mistake A × State) → ((a : A) → r.0 ≢ ok a) → Once Q r
  never (ok a, s) h = absurd (h a refl)
  never (err x, s) h = stopped tt

  pub result_of :
      {Q : A → State → Type 0} {r : Result Mistake A × State} {a : A}
      → Once Q r
      → r.0 ≡ ok a
      → Q a r.1
  result_of {Q} (went {d = d} q) h = subst (λ x. Q x d) (ground arith) q
  result_of (stopped u) h = cc

pub require-Once :
    (b : Bool) (x : Mistake) (s : State) → Once (λ u t. (t ≡ s) × (b ≡ true)) (require b x s)
require-Once true x s = went (refl, refl)
require-Once false x s = stopped tt

module _ (services : Services) where
  pub entry-Once :
      (id : String) (s : State)
      → Once
          (λ e t. (t ≡ (ensure_loaded services s).1) × (find id t.requests ≡ some e))
          (entry services id s)
  unfolding entry
  entry-Once id s =
      and_then {Q = λ u t. t ≡ (ensure_loaded services s).1} _ (here _)
        (λ u t e. go t e (find id t.requests) refl)
    where
      here : (r : Result Mistake (Unit {0}) × State) → Once (λ u t. t ≡ r.1) r
      here (ok u, t) = went refl
      here (err x, t) = stopped tt

      go :
          (t : State)
          → t ≡ (ensure_loaded services s).1
          → (o : Option Entry) → find id t.requests ≡ o
          → Once
              (λ e t. (t ≡ (ensure_loaded services s).1) × (find id t.requests ≡ some e))
              (found services o t)
      go t e none h = stopped tt
      go t e (some x) h = went (e, h)

  module _ {A : Type 0} {Q : A → State → Type 0} where
    pub reject_with-Once :
        (e : Entry) (actor text : String) (x : Mistake) (s : State)
        → Once Q (reject_with services {A = A} e actor text x s)
    unfolding reject_with
    reject_with-Once e actor text x s =
        and_then {Q = λ a t. Unit} _ (sure _ tt) (λ u t k. stopped tt)

  -- A refusal never ends with a value.
  module _ (id : String) (e : Entry) (actor : String) (saved : Step (Unit {0}))
      {Q : Unit {0} → State → Type 0} where
    on_refusal-Once : (x : Refusal) (s : State) → Once Q (on_refusal services id e actor saved x s)
    unfolding on_refusal
    on_refusal-Once token.approval_expired s = and_then {Q = λ a t. Unit} _ (went tt) (λ u t k.
        and_then {Q = λ a t. Unit} _ (sure _ tt)
          (λ u t k. and_then {Q = λ a t. Unit} _ (sure _ tt) (λ u t k. stopped tt)))
    on_refusal-Once token.token_not_ascii s = stopped tt
    on_refusal-Once token.token_replayed s = reject_with-Once e actor _ _ s
    on_refusal-Once token.missing_token s = reject_with-Once e actor _ _ s
    on_refusal-Once token.wrong_actor s = reject_with-Once e actor _ _ s
    on_refusal-Once token.parameters_differ s = reject_with-Once e actor _ _ s
    on_refusal-Once token.scope_mismatch s = reject_with-Once e actor _ _ s
    on_refusal-Once token.bad_signature s = reject_with-Once e actor _ _ s

    pub answered-Once :
        (x : Result Refusal ApprovalRequest) (s : State)
        → ((r : ApprovalRequest) → x ≡ ok r → Q tt s)
        → Once Q (answered services id e actor saved x s)
    answered-Once (ok r) s h = went (h r refl)
    answered-Once (err x) s h = on_refusal-Once x s
