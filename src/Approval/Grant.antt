-- ===== src/Approval/Grant.antt =====
-- When `verify` grants, and that what `issue` made is granted once.
use text.Mathlib.Text.{◌==◌ as str_eq}
use proof_ops.Common.{
  ℕ, ◌+◌, ◌*◌, ◌<◌, String, ◌≡◌, sym, ap, ◌∙◌, ◌↔◌, ◌≢◌, inl, inr, Bool, true, false, List, [], ◌∷◌,
  arith, eq_iff, length, contains, Result-cases, ok, err,
}
use proof_ops.Contracts.Vocabulary.{Action}
use proof_ops.Approval.Nonces.{NonceStore, Disk, burn, consume, consume_all}
use proof_ops.Approval.Single.{single_use, consume_fresh}
use proof_ops.Approval.Token.{
  Signing, ApprovalRequest, scope_of, Refusal, is_ascii, token_of, request_of, issue, refusal_of,
  verify, mac, join_with,
}

module _ (signing : Signing) where
  -- A token that stands for the action, for the actor and now, and whose nonce is fresh.
  pub record IsGranted (token : String) (r : ApprovalRequest) (action : Action)
      (actor secret : String) (now : ℕ) (store : NonceStore) : Type 0 where
    pub given : str_eq token "" ≡ false
    pub in_time : now < r.expires_at
    pub by_actor : actor ≡ r.actor
    pub exact_parameters : signing.params_hash action.parameters ≡ r.params_hash
    pub in_scope : scope_of action ≡ r.scope
    pub this_action : action.action_id ≡ r.action_id
    pub ascii : is_ascii token ≡ true
    pub signed : token_of signing secret r ≡ token
    pub fresh : contains store.used r.nonce ≡ false

  module _ (token : String) (r : ApprovalRequest) (action : Action) (actor secret : String)
      (now limit : ℕ) (disk : Disk) (store : NonceStore) where
    verify_sound :
        (verify signing token r action actor secret true now limit disk store).0 ≡ ok r
        → IsGranted token r action actor secret now store
    unfolding verify refusal_of consume
    verify_sound h = record {
      given = ground arith;
      in_time = ground arith;
      by_actor = ground (arith, eq_iff actor r.actor);
      exact_parameters =
          ground (arith, eq_iff (signing.params_hash action.parameters) r.params_hash);
      in_scope = ground (arith, eq_iff (scope_of action) r.scope);
      this_action = ground (arith, eq_iff action.action_id r.action_id);
      ascii = ground arith;
      signed = ground (arith, eq_iff (token_of signing secret r) token);
      fresh = ground arith;
    }

    verify_complete :
        IsGranted token r action actor secret now store
        → verify signing token r action actor secret true now limit disk store
          ≡ (ok r, burn limit disk r.nonce store)
    unfolding verify refusal_of consume
    verify_complete g = ground (
      arith,
      g,
      eq_iff actor r.actor,
      eq_iff (signing.params_hash action.parameters) r.params_hash,
      eq_iff (scope_of action) r.scope,
      eq_iff action.action_id r.action_id,
      eq_iff (token_of signing secret r) token,
    )

    -- `verify` grants exactly the tokens that carry the request's signature, for its actor, its
    -- parameters, its scope and its action, before it expires, and while its nonce is fresh.
    pub verify_grants :
        ((verify signing token r action actor secret true now limit disk store).0 ≡ ok r)
        ↔ IsGranted token r action actor secret now store
    verify_grants = (verify_sound, λ g. ap (λ v. v.0) (verify_complete g))

    -- A refusal burns nothing: whatever the reason is, the store stays as it was.
    pub refusal_burns_nothing :
        (burns : Bool) {e : Refusal}
        → (verify signing token r action actor secret burns now limit disk store).0 ≡ err e
        → (verify signing token r action actor secret burns now limit disk store).1 ≡ store
    unfolding verify refusal_of consume
    refusal_burns_nothing burns h = ground arith

    pub verify_result :
        {a : ApprovalRequest}
        → (verify signing token r action actor secret true now limit disk store).0 ≡ ok a
        → r ≡ a
    unfolding verify refusal_of consume
    verify_result h = ground arith

  consume_used :
      (limit : ℕ) (disk : Disk) (n : String) (store : NonceStore)
      → (consume limit disk n store).0 ≡ false
      → contains store.used n ≢ false
  unfolding consume
  consume_used limit disk n store h = ground arith

  issue_ok :
      (id nonce actor secret : String) (issued ttl_seconds : ℕ) (action : Action)
      {r : ApprovalRequest} {token : String}
      → issue signing id nonce issued action actor secret ttl_seconds ≡ ok (r, token)
      → (r ≡ request_of signing id nonce issued action actor ttl_seconds)
        × (token ≡ token_of signing secret r)
  unfolding issue
  issue_ok id nonce actor secret issued ttl_seconds action i = ground arith

  -- What `issue` returns is granted: to the same actor for the same action, before the expiry and
  -- with the nonce unused, the token of a request verifies and its nonce is burned.
  pub issue-verify :
      (id nonce actor secret : String) (issued now ttl_seconds limit : ℕ) (action : Action)
      (disk : Disk) (store : NonceStore) {r : ApprovalRequest} {token : String}
      → ((k m : String)
          → (is_ascii (signing.hexdigest k m) ≡ true) × (str_eq (signing.hexdigest k m) "" ≡ false))
      → issue signing id nonce issued action actor secret ttl_seconds ≡ ok (r, token)
      → now < issued + ttl_seconds * 1000000
      → contains store.used nonce ≡ false
      → verify signing token r action actor secret true now limit disk store
        ≡ (ok r, burn limit disk nonce store)
  unfolding token_of request_of mac
  issue-verify id nonce actor secret issued now ttl_seconds limit action disk store {r} {token} hex
        i t f =
      let (e, s) = issue_ok id nonce actor secret issued ttl_seconds action i in
      let text = join_with "|" (
        r.action_id
        ∷ r.actor
        ∷ r.params_hash
        ∷ r.scope
        ∷ signing.isoformat r.expires_at
        ∷ r.nonce
        ∷ []) in
      let (ascii, given) = hex secret text in
      verify_complete token r action actor secret now limit disk store (record {
        given = rw s given;
        in_time = rw e t;
        by_actor = sym (ap (λ q. q.actor) e);
        exact_parameters = sym (ap (λ q. q.params_hash) e);
        in_scope = sym (ap (λ q. q.scope) e);
        this_action = sym (ap (λ q. q.action_id) e);
        ascii = rw s ascii;
        signed = sym s;
        fresh = rw e f;
      })
      ∙ ap (λ q. (ok r, burn limit disk q store)) (ap (λ q. q.nonce) e)

  -- A grant that burns its nonce is given once: after a token was granted by a verification that
  -- burns, and fewer than `limit` further consumed nonces, every verification of the same request
  -- that burns is refused, whatever token, action, actor, secret, time and disk it is called with.
  -- A check that burns nothing is not covered.
  pub replay_denied :
      (token token' : String) (r : ApprovalRequest) (action action' : Action)
      (actor actor' secret secret' : String) (now now' limit : ℕ) (disk disk' : Disk)
      (calls : List (String × Disk)) (store : NonceStore)
      → (verify signing token r action actor secret true now limit disk store).0 ≡ ok r
      → length calls < limit
      → (e : Refusal) × ((verify signing token' r action' actor' secret' true now' limit disk' (
            consume_all limit calls
              (verify signing token r action actor secret true now limit disk store).1)).0
          ≡ err e)
  replay_denied token token' r action action' actor actor' secret secret' now now' limit disk disk'
        calls store h k =
      let g = verify_sound token r action actor secret now limit disk store h in
      let c = consume_fresh limit disk r.nonce store g.fresh in
      let v =
        ap (λ q. q.1) (verify_complete token r action actor secret now limit disk store g)
        ∙ sym (ap (λ q. q.1) c) in
      let later =
        consume_all limit calls
          (verify signing token r action actor secret true now limit disk store).1 in
      elim (Result-cases
        (verify signing token' r action' actor' secret' true now' limit disk' later).0) [
          | inl (a, w) ↦ absurd (
              consume_used limit disk' r.nonce later
                (rw v (single_use limit r.nonce disk disk' calls store (ap (λ q. q.0) c) k))
                (verify_sound token' r action' actor' secret' now' limit disk' later (
                  w
                  ∙ sym (
                      ap ok (
                        verify_result token' r action' actor' secret' now' limit disk' later
                          w)))).fresh)
          | inr e ↦ e
        ]
