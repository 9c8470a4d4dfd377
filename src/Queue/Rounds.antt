-- ===== src/Queue/Rounds.antt =====
-- backend/app/routers/approvals.py: the queue after `request_approval` and `sweep_approvals`.
use proof_ops.Common.{
  ℕ, String, Bool, true, false, ◌&&◌, ◌≡◌, refl, ◌∙◌, ap, Option, some, none, List, [], ◌∷◌, ◌++◌,
  is_empty, if◌then◌else◌, arith, eq_iff, Result, ok, err, pure, raise,
}
use proof_ops.Common.Steps.{◌>>=◌, went, stopped, and_then, traced}
use proof_ops.Contracts.Value.{Value}
use proof_ops.Contracts.Vocabulary.{Action}
use proof_ops.Approval.Token.{ApprovalRequest, IssueError, issue, request_of}
use proof_ops.Validator.Rules.{validate_action}
use proof_ops.Queue.Entry.{expired, Entry, value_error, State, Services, find, put}
use proof_ops.Queue.Store.{ensure_loaded}
use proof_ops.Queue.Permit.{is_pending}
use proof_ops.Queue.Decide.{
  enqueue, accepted, request_approval, is_due, expire_one, sweep_each, sweep_approvals,
}
use proof_ops.Queue.Status.{Unique, Evolves, Evolves-new, find-put}
use proof_ops.Queue.Moves.{
  Same, Moves, evolved, known, event-Same, save-Same, require-Same, ensure_loaded-Moves,
}
use proof_ops.Queue.Walk.{pending_only, unmoved, written-Moves}

-- The entries of a list stand in a queue.
abbrev Stand : List (String × Entry) → List (String × Entry) → Type 0
Stand items m = (k : String) (e : Entry) → find k items ≡ some e → find k m ≡ some e

first-Stand :
    (id : String) (e : Entry) (rest m : List (String × Entry))
    → Stand ((id, e) ∷ rest) m
    → find id m ≡ some e
unfolding find
first-Stand id e rest m st = st id e (ground (arith, eq_iff id id))

rest-Stand :
    (id : String) (e e' : Entry) (rest m : List (String × Entry))
    → find id rest ≡ none
    → Stand ((id, e) ∷ rest) m
    → Stand rest (put id e' m) × Stand rest m
unfolding find
rest-Stand id e e' rest m u st = (other, same)
  where
    same : Stand rest m
    same k x h = st k x (ground (arith, eq_iff id k, u, h))

    other : Stand rest (put id e' m)
    other k x h = ground (arith, eq_iff id k, u, h, same k x h, find-put k id e' m)

due-pending :
    (e : Entry) (b : Bool) → (is_pending e.status && b) ≡ true → is_pending e.status ≡ true
due-pending e b h = ground arith

module _ (services : Services) {l : List (String × Entry)} where
  sweep_each-Moves :
      (items m : List (String × Entry)) (s : State)
      → Unique items
      → Stand items m
      → Evolves l m
      → s.requests ≡ m
      → Moves l (sweep_each services items s)
  unfolding sweep_each expire_one
  sweep_each-Moves [] m s u st ev k = went (evolved s ev k)
  sweep_each-Moves ((id, e) ∷ rest) m s u st ev k =
      go (is_due services e) refl (λ n t st' ev' k'. sweep_each-Moves rest n t u.1 st' ev' k')
    where
      go :
          (b : Bool)
          → is_due services e ≡ b
          → ((n : List (String × Entry)) (t : State)
              → Stand rest n
              → Evolves l n
              → t.requests ≡ n
              → Moves l (sweep_each services rest t))
          → Moves l (
              (expire_one services id e b >>= λ first.
              sweep_each services rest >>= λ others. pure (first ++ others))
                s)
      go false d tail = unmoved _ ev (went k) (λ a t k'.
          and_then _ (tail m t (rest-Stand id e e rest m u.0 st).1 ev k') (λ x t' ev'. went ev'))
      go true d tail =
          let e' : Entry = record e { status = expired } in
          and_then {Q = λ a t. Evolves l (put id e' m) × (t.requests ≡ put id e' m)} _
            (written-Moves services ev id e (first-Stand id e rest m st) e' _ s k refl refl
              (pending_only e.status _ (due-pending e _ d))
              (λ t ev' k'.
                unmoved _ ev' (event-Same services _ _ e _ _ t k') (λ x t' k''. went (ev', k''))))
            (λ a t h.
              and_then _ (tail _ t (rest-Stand id e e' rest m u.0 st).0 h.0 h.1)
                (λ x t' ev'. went ev'))

  pub sweep_approvals-Moves :
      (s : State) → Evolves l s.requests → Moves l (sweep_approvals services s)
  unfolding sweep_approvals
  sweep_approvals-Moves s ev = and_then _ (ensure_loaded-Moves services s ev) (λ x t ev'.
      and_then _ (sweep_each-Moves t.requests t.requests t ev'.once (λ k e h. h) ev' refl)
        (λ ids t' ev''.
          and_then _ (known ev'' (save-Same services _ t' refl))
            (λ y w k. went (evolved w ev'' k))))

module _ (services : Services) where
  issued-id :
      (id nonce : String) (a : Action) (actor secret : String) (ttl : ℕ) {r : ApprovalRequest}
      {token : String}
      → issue services.signing id nonce services.now a actor secret ttl ≡ ok (r, token)
      → r.approval_id ≡ id
  unfolding issue request_of
  issued-id id nonce a actor secret ttl h = ground arith

  accepted-Same :
      (m : List (String × Entry)) (a : Option Action) (s : State)
      → s.requests ≡ m
      → Same m (accepted services a s)
  accepted-Same m none s k = stopped k
  accepted-Same m (some a) s k = go (is_empty (validate_action services.casts services.sql a none))
    where
      go : (b : Bool) → Same {A = Action} m ((if b then pure a else raise value_error) s)
      go true = went k
      go false = stopped k

  module _ {l m : List (String × Entry)} (ev : Evolves l m) (a : Action)
      (key mode who : String) where
    enqueue-Moves :
        (x : Result IssueError (ApprovalRequest × String)) (s : State)
        → s.requests ≡ m
        → ((r : ApprovalRequest) (token : String) → x ≡ ok (r, token) → find r.approval_id m ≡ none)
        → Moves l (enqueue services a key mode who x s)
    enqueue-Moves (err x) s k fresh = stopped (evolved s ev k)
    enqueue-Moves (ok (r, token)) s k fresh =
        let ev' = Evolves-new r.approval_id _ ev (fresh r token refl) in
        unmoved _ ev' (went (ap (put r.approval_id _) k)) (λ x t k'.
          unmoved _ ev' (event-Same services _ _ _ _ _ t k') (λ y v k''.
            unmoved _ ev' (save-Same services _ v k'') (λ z w j. went (evolved w ev' j))))

  -- `id` is fresh in the queue, as loaded.
  pub request_approval-Moves :
      {l : List (String × Entry)} (id nonce : String) (doc : Value) (actor secret : String)
      (ttl : ℕ) (key mode audit_actor : String) (s : State)
      → find id (ensure_loaded services s).1.requests ≡ none
      → Evolves l s.requests
      → Moves l (request_approval services id nonce doc actor secret ttl key mode audit_actor s)
  unfolding request_approval
  request_approval-Moves id nonce doc actor secret ttl key mode audit_actor s fresh ev =
      and_then _ (traced (ensure_loaded-Moves services s ev)) (λ x t h.
        unmoved _ h.0 (require-Same services _ _ _ t refl) (λ y v k.
          unmoved _ h.0 (accepted-Same _ _ v k) (λ a w k'.
            enqueue-Moves h.0 a key mode _ _ w k' (λ r token e.
              ap (λ n. find n t.requests) (issued-id id nonce a actor secret ttl e)
              ∙ ap (λ d. find id d.requests) h.1
              ∙ fresh))))
