-- ===== src/Queue/Mint.antt =====
-- backend/app/routers/approvals.py: the permits that `verified_permit` mints.
use Prim.Native.String.{◌++◌ as str_append}
use text.Mathlib.Text.{◌==◌ as str_eq}
use proof_ops.Common.{
  ℕ, ◌+◌, ◌≤◌, ◌<◌, String, Bool, true, false, not, ◌&&◌, ◌||◌, ◌≡◌, ◌≢◌, ◌⊎◌, inl, inr, refl, sym,
  ◌∙◌, ap, Option, some, none, List, [], is_blank, if◌then◌else◌, arith, eq_iff, Result, ok, err,
  pure,
}
use proof_ops.Common.Steps.{went, stopped, and_then}
use proof_ops.Fsm.Run.{Rejection, Permit, make_permit}
use proof_ops.Audit.Chain.{AuditChain, AuditError}
use proof_ops.Approval.Nonces.{NonceStore, Disk, consume}
use proof_ops.Approval.Token.{ApprovalRequest, Signing, scope_of, token_of, refusal_of, verify}
use proof_ops.Queue.Entry.{
  Entry, approval_denied, State, Services, Step, find, event_on, recorded, emitted, permit_event,
}
use proof_ops.Queue.Store.{ensure_loaded}
use proof_ops.Queue.Permit.{
  is_approved, is_per_key, permit_freshness, reject_with, verified, burned, minted_once, attributed,
  bound_to, permit_of, made, verified_permit,
}
use proof_ops.Queue.Returns.{
  Once, result_of, require-Once, entry-Once, reject_with-Once, answered-Once,
}

-- The token stands for the stored request and its action, for the actor and now.
pub record IsBound (signing : Signing) (token : String) (e : Entry) (actor secret : String)
    (now : ℕ) : Type 0 where
  pub in_time : now < e.request.expires_at
  pub by_actor : actor ≡ e.request.actor
  pub exact_parameters : signing.params_hash e.action.parameters ≡ e.request.params_hash
  pub in_scope : scope_of e.action ≡ e.request.scope
  pub this_action : e.action.action_id ≡ e.request.action_id
  pub signed : token_of signing secret e.request ≡ token

verify-IsBound :
    (signing : Signing) (token : String) (e : Entry) (actor secret : String) (now limit : ℕ)
    (disk : Disk) (store : NonceStore) (r : ApprovalRequest)
    → (verify signing token e.request e.action actor secret false now limit disk store).0 ≡ ok r
    → IsBound signing token e actor secret now
unfolding verify refusal_of
verify-IsBound signing token e actor secret now limit disk store r h = record {
  in_time = ground arith;
  by_actor = ground (arith, eq_iff actor e.request.actor);
  exact_parameters =
      ground (arith, eq_iff (signing.params_hash e.action.parameters) e.request.params_hash);
  in_scope = ground (arith, eq_iff (scope_of e.action) e.request.scope);
  this_action = ground (arith, eq_iff e.action.action_id e.request.action_id);
  signed = ground (arith, eq_iff (token_of signing secret e.request) token);
}

-- A check that burns nothing leaves the nonces.
verify-store :
    (signing : Signing) (token : String) (e : Entry) (actor secret : String) (now limit : ℕ)
    (disk : Disk) (store : NonceStore)
    → (verify signing token e.request e.action actor secret false now limit disk store).1 ≡ store
unfolding verify
verify-store signing token e actor secret now limit disk store = ground arith

pub record IsMinted (services : Services) (id token actor secret incident : String) (s : State)
    (p : Permit) : Type 0 where
  pub subject : Entry
  pub placed : find id s.requests ≡ some subject
  pub decided : is_approved subject.status ≡ true
  pub attributed_to : (is_per_key subject.identity_mode ≡ false) ⊎ (subject.decided_by ≢ "")
  pub right_incident : (is_blank incident ≡ true) ⊎ (subject.request.incident_id ≡ incident)
  pub bound : IsBound services.signing token subject actor secret services.now
  pub fresh :
      (consume services.limit services.disk (str_append subject.request.nonce ":permit") s.nonces).0
      ≡ true
  pub names :
      (p.token_ref ≡ id)
      × (p.action_id ≡ subject.request.action_id)
      × (p.params_hash ≡ subject.request.params_hash)
      × (p.auto ≡ false)
  pub within_request : p.expires_at ≤ subject.request.expires_at
  pub within_freshness : p.expires_at ≤ services.now + permit_freshness

module _ (services : Services) where
  event_on-nonces :
      (c : Option AuditChain) (kind actor : String) (r : ApprovalRequest) (evidence : List String)
      (result : String) (s : State)
      → Once (λ u t. t.nonces ≡ s.nonces) (event_on services c kind actor r evidence result s)
  event_on-nonces none kind actor r evidence result s = went refl
  event_on-nonces (some c) kind actor r evidence result s =
      go (emitted services kind actor r evidence result c)
    where
      go :
          (x : Result AuditError (Unit {0}) × AuditChain)
          → Once (λ u t. t.nonces ≡ s.nonces) (recorded services x s)
      go (ok u, d) = went refl
      go (err x, d) = stopped tt

  module _ (e : Entry) (actor : String) (s : State) where
    attributed-Once :
        Once
          (λ u t. (t ≡ s) × ((is_per_key e.identity_mode ≡ false) ⊎ (e.decided_by ≢ "")))
          (attributed services e actor s)
    unfolding attributed
    attributed-Once = go (is_per_key e.identity_mode) refl (str_eq e.decided_by "") refl
      where
        go :
            (b : Bool)
            → is_per_key e.identity_mode ≡ b
            → (d : Bool) → str_eq e.decided_by "" ≡ d
            → Once
                (λ u t. (t ≡ s) × ((is_per_key e.identity_mode ≡ false) ⊎ (e.decided_by ≢ "")))
                ((if b && d
                    then reject_with services e actor
                        "permit refused: per-key approval has no deciding principal" approval_denied
                    else pure tt)
                  s)
        go true h true i = reject_with-Once services e actor _ _ s
        go true h false i = went (refl, inr (λ k. ground (arith, eq_iff e.decided_by "")))
        go false h d i = went (refl, inl h)

    bound_to-Once :
        (incident : String)
        → Once
            (λ u t. (t ≡ s) × ((is_blank incident ≡ true) ⊎ (e.request.incident_id ≡ incident)))
            (bound_to services e actor incident s)
    unfolding bound_to
    bound_to-Once incident =
        go (is_blank incident) refl (str_eq e.request.incident_id incident) refl
      where
        go :
            (b : Bool)
            → is_blank incident ≡ b
            → (d : Bool) → str_eq e.request.incident_id incident ≡ d
            → Once
                (λ u t. (t ≡ s) × ((is_blank incident ≡ true) ⊎ (e.request.incident_id ≡ incident)))
                ((if not b && not d
                    then reject_with services e actor "incident mismatch: approval for "
                        approval_denied
                    else pure tt)
                  s)
        go true h d i = went (refl, inl h)
        go false h true i = went (refl, inr (ground (arith, eq_iff e.request.incident_id incident)))
        go false h false i = reject_with-Once services e actor _ _ s

    minted_once-Once :
        (b : Bool) → Once (λ u t. (t ≡ s) × (b ≡ true)) (minted_once services e actor b s)
    minted_once-Once true = went (refl, refl)
    minted_once-Once false = reject_with-Once services e actor _ _ s

    made-Once : (p : Permit) → Once (λ q t. (t ≡ s) × (q ≡ p)) (made services (make_permit p) s)
    unfolding make_permit
    made-Once p = go (is_blank p.action_id || is_blank p.params_hash || is_blank p.token_ref)
      where
        go :
            (b : Bool)
            → Once
                (λ q t. (t ≡ s) × (q ≡ p))
                (made services (if b then err Rejection.permit_blank else ok p) s)
        go true = stopped tt
        go false = went (refl, refl)

  verified-Bound :
      (id token secret actor : String) (e : Entry) (saved : Step (Unit {0})) (s : State)
      → Once
          (λ u t.
            IsBound services.signing token e actor secret services.now × (t.nonces ≡ s.nonces))
          (verified services id e actor token actor secret false saved s)
  unfolding verified
  verified-Bound id token secret actor e saved s =
      answered-Once services id e actor saved _ _ (λ r h. (
        verify-IsBound services.signing token e actor secret services.now services.limit
            services.disk s.nonces r h,
        verify-store services.signing token e actor secret services.now services.limit services.disk
            s.nonces,
      ))

  abbrev pub nonce_of : Entry → String
  nonce_of e = str_append e.request.nonce ":permit"

  abbrev pub spent : Entry → NonceStore → Bool × NonceStore
  spent e n = consume services.limit services.disk (nonce_of e) n

  -- The permit, and that its nonce is burned.
  pub verified_permit-Once :
      (id token actor secret incident : String) (s : State)
      → Once
          (λ p t.
            (m : IsMinted services id token actor secret incident (ensure_loaded services s).1 p)
            × (t.nonces ≡ (spent m.subject (ensure_loaded services s).1.nonces).1))
          (verified_permit services id token actor secret incident s)
  unfolding verified_permit burned permit_event
  verified_permit-Once id token actor secret incident s =
      and_then _ (entry-Once services id s) (λ e t h.
        and_then _ (require-Once (is_approved e.status) _ t) (λ u t1 h1.
          and_then _ (attributed-Once e actor t1) (λ u t2 h2.
            and_then _ (bound_to-Once e actor t2 incident) (λ u t3 h3.
              and_then _ (verified-Bound id token secret actor e _ t3) (λ u t4 h4.
                let same : t4.nonces ≡ (ensure_loaded services s).1.nonces =
                  h4.1 ∙ ap (λ d. d.nonces) (h3.0 ∙ h2.0 ∙ h1.0 ∙ h.0) in
                and_then
                  {Q = λ b t. (b ≡ (spent e t4.nonces).0) × (t.nonces ≡ (spent e t4.nonces).1)} _
                  (went (refl, refl))
                  (λ fresh t5 h5. and_then _ (minted_once-Once e actor t5 fresh) (λ u t6 h6.
                    and_then _ (made-Once e actor t6 (permit_of services id e.request)) (λ p t7 h7.
                      and_then _ (event_on-nonces t7.chain _ actor e.request [] _ t7) (λ u t8 h8.
                        went (
                          record {
                            subject = e;
                            placed = ap (λ d. find id d.requests) (sym h.0) ∙ h.1;
                            decided = h1.1;
                            attributed_to = h2.1;
                            right_incident = h3.1;
                            bound = h4.0;
                            fresh = ap (λ n. (spent e n).0) (sym same) ∙ sym h5.0 ∙ h6.1;
                            names = rw h7.1 (refl, refl, refl, refl);
                            within_request = rw h7.1 (ground arith);
                            within_freshness = rw h7.1 (ground arith);
                          },
                          h8
                              ∙ ap (λ d. d.nonces) (h7.0 ∙ h6.0)
                              ∙ h5.1
                              ∙ ap (λ n. (spent e n).1) same,
                        ))))))))))

  -- A permit is minted only where the stored request, as loaded, is approved; in per-key mode the
  -- key that decided is recorded; the incident is the expected one, where one is named; the token is
  -- signed for the stored request and its exact action and parameters, for the actor, in time; and
  -- no permit was minted for the request's nonce. It names the request, its action and parameters,
  -- and expires no later than the request, and within the freshness window.
  pub verified_permit-IsMinted :
      (id token actor secret incident : String) (s : State) {p : Permit}
      → (verified_permit services id token actor secret incident s).0 ≡ ok p
      → IsMinted services id token actor secret incident (ensure_loaded services s).1 p
  verified_permit-IsMinted id token actor secret incident s h =
      (result_of (verified_permit-Once id token actor secret incident s) h).0
