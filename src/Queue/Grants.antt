-- ===== src/Queue/Grants.antt =====
-- backend/app/routers/approvals.py: what `approve_approval` has checked when it decides.
use text.Mathlib.Text.{◌==◌ as str_eq}
use mathlib.Core.Path.{subst}
use proof_ops.Common.{
  String, Bool, true, false, not, ◌&&◌, ◌||◌, ◌≡◌, ◌≢◌, refl, sym, ◌∙◌, ap, ◌⊎◌, inl, inr,
  Bool-cases, is_blank, Option, some, none, if◌then◌else◌, arith, eq_iff, ok, pure, raise,
}
use proof_ops.Common.Steps.{went, stopped, and_then}
use proof_ops.Approval.Grant.{IsGranted, verify_grants, verify_result}
use proof_ops.Queue.Entry.{Entry, approval_denied, View, State, Services, Step, find}
use proof_ops.Queue.Store.{ensure_loaded, save}
use proof_ops.Queue.Permit.{is_pending, is_expired, is_per_key, reject_with, verified}
use proof_ops.Queue.Decide.{role_allowed, found_response, answer, keyed, idem}
use proof_ops.Queue.Approve.{
  Approval, sod_requester, keys_differ, names_differ, separated, subject_of, decided,
  approve_approval,
}
use proof_ops.Queue.Returns.{
  Once, sure, result_of, require-Once, entry-Once, reject_with-Once, answered-Once,
}

-- Separation of duties between two keys: both are known, and differ.
pub record IsFourEyes (c : Approval) (e : Entry) : Type 0 where
  pub approver_known : c.approver_key_id ≢ ""
  pub requester_known : e.requester_key_id ≢ ""
  pub apart : c.approver_key_id ≢ e.requester_key_id

-- How approver and requester are kept apart: by their keys, by their names, or, outside per-key
-- mode, not at all, where the call overrides it or did not ask for it.
pub data IsSeparated (c : Approval) (e : Entry) : Type 0 where
  by_key : is_per_key c.identity_mode ≡ true → IsFourEyes c e → IsSeparated c e
  by_name :
      is_per_key c.identity_mode ≡ false
      → c.enforce_sod ≡ true
      → c.actor ≢ sod_requester c.requester e.request.actor
      → IsSeparated c e
  overridden :
      is_per_key c.identity_mode ≡ false
      → c.enforce_sod ≡ true
      → c.allow_self_approval ≡ true
      → IsSeparated c e
  not_asked : is_per_key c.identity_mode ≡ false → c.enforce_sod ≡ false → IsSeparated c e

-- What was true of the queue, as loaded, when a request was approved.
pub record IsDecidable (services : Services) (c : Approval) (s : State) : Type 0 where
  pub subject : Entry
  pub placed : find c.approval_id s.requests ≡ some subject
  pub undecided : is_pending subject.status ≡ true
  pub in_role : role_allowed c.role ≡ true
  pub separation : IsSeparated c subject
  pub granted :
      IsGranted services.signing c.token subject.request subject.action
        (subject_of services c subject)
        c.secret
        services.now
        s.nonces

module _ (services : Services) where
  module _ (c : Approval) (e : Entry) (s : State) where
    abbrev IsApart : Unit {0} → State → Type 0
    IsApart u t = (t ≡ s) × IsSeparated c e

    keys_differ-Once : is_per_key c.identity_mode ≡ true → Once IsApart (keys_differ services c e s)
    unfolding keys_differ
    keys_differ-Once p =
        go (str_eq c.approver_key_id "" || str_eq e.requester_key_id "") refl
          (str_eq c.approver_key_id e.requester_key_id) refl
      where
        go :
            (b : Bool)
            → (str_eq c.approver_key_id "" || str_eq e.requester_key_id "") ≡ b
            → (d : Bool) → str_eq c.approver_key_id e.requester_key_id ≡ d
            → Once IsApart (
                (if b
                    then raise approval_denied
                    else if d
                    then reject_with services e c.actor "separation of duties: approver key "
                        approval_denied
                    else pure tt)
                  s)
        go true h d i = stopped tt
        go false h true i = reject_with-Once services e c.actor _ _ s
        go false h false i = went (
          refl,
          by_key p (record {
            approver_known = λ k. ground (arith, eq_iff c.approver_key_id "");
            requester_known = λ k. ground (arith, eq_iff e.requester_key_id "");
            apart = λ k. ground (arith, eq_iff c.approver_key_id e.requester_key_id);
          }),
        )

    names_differ-Once :
        is_per_key c.identity_mode ≡ false
        → c.enforce_sod ≡ true
        → Once IsApart (names_differ services c e s)
    unfolding names_differ
    names_differ-Once p z =
        go c.allow_self_approval refl (str_eq c.actor (sod_requester c.requester e.request.actor))
          refl
      where
        go :
            (a : Bool)
            → c.allow_self_approval ≡ a
            → (d : Bool) → str_eq c.actor (sod_requester c.requester e.request.actor) ≡ d
            → Once IsApart (
                (if d && not a
                    then reject_with services e c.actor "separation of duties: approver "
                        approval_denied
                    else pure tt)
                  s)
        go true h d i = elim (Bool-cases d) [
          | inl x ↦ rw x (went (refl, overridden p z h))
          | inr x ↦ rw x (went (refl, overridden p z h))
        ]
        go false h true i = reject_with-Once services e c.actor _ _ s
        go false h false i = went (
          refl,
          by_name p z
              (λ k. ground (arith, eq_iff c.actor (sod_requester c.requester e.request.actor))),
        )

    pub separated-Once : Once IsApart (separated services c e s)
    unfolding separated
    separated-Once = go (is_per_key c.identity_mode) refl c.enforce_sod refl
      where
        go :
            (b : Bool)
            → is_per_key c.identity_mode ≡ b
            → (d : Bool) → c.enforce_sod ≡ d
            → Once IsApart (
                (if b
                    then keys_differ services c e
                    else if d
                    then names_differ services c e
                    else pure tt)
                  s)
        go true h d i = keys_differ-Once h
        go false h true i = names_differ-Once h i
        go false h false i = went (refl, not_asked h i)

  verified-Once :
      (c : Approval) (e : Entry) (saved : Step (Unit {0})) (s : State)
      → Once
          (λ u t.
            IsGranted services.signing c.token e.request e.action
              (subject_of services c e)
              c.secret
              services.now
              s.nonces)
          (verified services c.approval_id e c.actor c.token
            (subject_of services c e)
            c.secret
            true
            saved
            s)
  unfolding verified
  verified-Once c e saved s = answered-Once services c.approval_id e c.actor saved _ _ (λ r h.
      (verify_grants services.signing c.token e.request e.action (subject_of services c e) c.secret
          services.now services.limit services.disk s.nonces).0
        (h
          ∙ ap ok (
              sym (
                verify_result services.signing c.token e.request e.action (subject_of services c e)
                  c.secret services.now services.limit services.disk s.nonces h))))

  decided-Once :
      (c : Approval) (s : State)
      → Once (λ v t. IsDecidable services c (ensure_loaded services s).1) (decided services c s)
  unfolding decided
  decided-Once c s = and_then _ (entry-Once services c.approval_id s) (λ e t h.
      and_then _ (require-Once (not (is_expired e.status)) _ t) (λ u t1 h1.
        and_then _ (require-Once (is_pending e.status) _ t1) (λ u t2 h2.
          and_then _ (require-Once (role_allowed c.role) _ t2) (λ u t3 h3.
            and_then _ (separated-Once c e t3) (λ u t4 h4.
              and_then _ (verified-Once c e (save services) t4) (λ u t5 g.
                let same : t4 ≡ (ensure_loaded services s).1 = h4.0 ∙ h3.0 ∙ h2.0 ∙ h1.0 ∙ h.0 in
                sure _ (record {
                  subject = e;
                  placed = ap (λ d. find c.approval_id d.requests) (sym h.0) ∙ h.1;
                  undecided = h2.1;
                  in_role = h3.1;
                  separation = h4.1;
                  granted =
                      subst
                        (λ d.
                          IsGranted services.signing c.token e.request e.action
                            (subject_of services c e) c.secret services.now d.nonces)
                        same g;
                })))))))

  -- A view that is no duplicate comes from the decision itself.
  module _ (id : String) (produce : Step View) {P : Type 0} (s : State)
      (once : Once (λ v t. P) (produce s)) where
    answer-Once :
        (o : Option View) (key : String)
        → Once (λ v t. (v.duplicate ≡ true) ⊎ P) (answer services id key produce o s)
    answer-Once (some v) key = went (inl refl)
    answer-Once none key = and_then _ once (λ v t p. went (inr p))

    idem-Once :
        (key : Option String)
        → Once (λ v t. (v.duplicate ≡ true) ⊎ P) (idem services id key produce s)
    unfolding idem
    idem-Once none = and_then _ once (λ v t p. went (inr p))
    idem-Once (some key) = go (is_blank key)
      where
        go :
            (b : Bool)
            → Once
                (λ v t. (v.duplicate ≡ true) ⊎ P)
                (keyed services id (found_response services (id, key) s.responses) b key produce s)
        go true = stopped tt
        go false = answer-Once _ key

  -- Where `approve_approval` returns a view that is not a cached duplicate, the queue (as loaded)
  -- held the request, undecided; the role was allowed; in per-key mode approver and requester keys
  -- are both known and differ; where only separation by name was asked for and no override was
  -- given, the names differ; and the token was granted: signed for the stored request and its
  -- action, in time, and with its nonce unused.
  pub approve_approval-IsDecidable :
      (c : Approval) (s : State) {v : View}
      → (approve_approval services c s).0 ≡ ok v
      → v.duplicate ≡ false
      → IsDecidable services c (ensure_loaded services s).1
  unfolding approve_approval
  approve_approval-IsDecidable c s {v} h d =
      elim (result_of
        (idem-Once c.approval_id (decided services c) s (decided-Once c s) c.idempotency_key) h) [
          | inl e ↦ cc
          | inr p ↦ p
        ]
