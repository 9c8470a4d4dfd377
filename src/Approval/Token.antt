-- ===== src/Approval/Token.antt =====
-- backend/app/services/approval.py: `issue` and `verify`, with the request of
-- backend/app/contracts/approval.py. Times are microseconds.
use Prim.Native.String.{◌++◌ as str_append, count}
use text.Mathlib.Text.{◌==◌ as str_eq}
use proof_ops.Common.{
  ℕ, ◌+◌, ◌*◌, String, Bool, true, false, not, ◌&&◌, ◌||◌, List, [], ◌∷◌, ltb, leb, if◌then◌else◌,
  is_blank, is_padded, every, Result, ok, err,
}
use proof_ops.Contracts.Identifier.{is_identifier}
use proof_ops.Contracts.Value.{Fields}
use proof_ops.Contracts.Vocabulary.{Action, action_name, environment_name}
use proof_ops.Approval.Nonces.{NonceStore, Disk, consume}

-- `hmac.new(secret, text, sha256).hexdigest()`, `params_hash` and `datetime.isoformat`.
pub record Signing : Type 0 where
  pub hexdigest : String → String → String
  pub params_hash : Fields → String
  pub isoformat : ℕ → String

pub record ApprovalRequest : Type 0 where
  pub approval_id : String
  pub incident_id : String
  pub action_id : String
  pub actor : String
  pub params_hash : String
  pub scope : String
  pub expires_at : ℕ
  pub nonce : String

-- `_nonce`
unfoldable pub is_nonce : String → Bool
is_nonce v = not (is_blank v) && not (is_padded v) && leb 8 (count v) && leb (count v) 128

-- The validators of the contract.
unfoldable pub is_request : ApprovalRequest → Bool
is_request r =
    is_identifier 128 r.approval_id
    && is_identifier 128 r.incident_id
    && is_identifier 128 r.action_id
    && is_identifier 128 r.actor
    && is_identifier 256 r.params_hash
    && is_identifier 256 r.scope
    && is_nonce r.nonce

-- `sep.join(parts)`
unfoldable pub join_with : String → List String → String
join_with sep [] = ""
join_with sep (p ∷ []) = p
join_with sep (p ∷ q ∷ ps) = str_append p (str_append sep (join_with sep (q ∷ ps)))

unfoldable pub scope_of : Action → String
unfolding join_with
scope_of a = join_with ":" (
    action_name a.action_type
    ∷ a.resource_type
    ∷ a.resource_id
    ∷ environment_name a.environment
    ∷ a.namespace
    ∷ [])

-- The exceptions of `issue`.
pub data IssueError : Type 0 where
  secret_empty actor_empty request_invalid : IssueError

-- Those of `verify`; the sixth is the TypeError of `hmac.compare_digest`, the others ApprovalError.
pub data Refusal : Type 0 where
  missing_token approval_expired wrong_actor parameters_differ scope_mismatch : Refusal
  token_not_ascii bad_signature token_replayed : Refusal

-- `hmac.compare_digest` takes ASCII texts only.
unfoldable pub is_ascii : String → Bool
is_ascii t = every (λ c. ltb c 128) t

module _ (signing : Signing) where
  -- `_mac`
  unfoldable pub mac : String → List String → String
  mac secret parts = signing.hexdigest secret (join_with "|" parts)

  -- The token that belongs to a request.
  unfoldable pub token_of : String → ApprovalRequest → String
  token_of secret r = mac secret (
      r.action_id
      ∷ r.actor
      ∷ r.params_hash
      ∷ r.scope
      ∷ signing.isoformat r.expires_at
      ∷ r.nonce
      ∷ [])

  -- The request that `issue` builds, over the fresh id, the fresh nonce and the time it draws.
  unfoldable pub request_of : String → String → ℕ → Action → String → ℕ → ApprovalRequest
  request_of id nonce now action actor ttl_seconds = record {
    approval_id = id;
    incident_id = action.incident_id;
    action_id = action.action_id;
    actor = actor;
    params_hash = signing.params_hash action.parameters;
    scope = scope_of action;
    expires_at = now + ttl_seconds * 1000000;
    nonce = nonce;
  }

  unfoldable pub issue :
      String
      → String
      → ℕ
      → Action
      → String
      → String
      → ℕ
      → Result IssueError (ApprovalRequest × String)
  issue id nonce now action actor secret ttl_seconds =
      let r = request_of id nonce now action actor ttl_seconds in
      if str_eq secret ""
      then err secret_empty
      else if is_blank actor
      then err actor_empty
      else if is_request r
      then ok (r, token_of secret r)
      else err request_invalid

  -- The checks of `verify` before the nonce.
  unfoldable pub refusal_of :
      String → ApprovalRequest → Action → String → String → ℕ → Result Refusal (Unit {0})
  refusal_of token r action actor secret now =
      if str_eq token ""
      then err missing_token
      else if leb r.expires_at now
      then err approval_expired
      else if not (str_eq actor r.actor)
      then err wrong_actor
      else if not (str_eq (signing.params_hash action.parameters) r.params_hash)
      then err parameters_differ
      else if not (str_eq (scope_of action) r.scope) || not (str_eq action.action_id r.action_id)
      then err scope_mismatch
      else if not (is_ascii token)
      then err token_not_ascii
      else if not (str_eq (token_of secret r) token)
      then err bad_signature
      else ok tt

  abbrev burn_nonce :
      ApprovalRequest → Bool × NonceStore → Result Refusal ApprovalRequest × NonceStore
  burn_nonce r (true, store) = (ok r, store)
  burn_nonce r (false, store) = (err token_replayed, store)

  abbrev finish :
      ApprovalRequest
      → Bool
      → ℕ
      → Disk
      → NonceStore
      → Result Refusal (Unit {0})
      → Result Refusal ApprovalRequest × NonceStore
  finish r burns limit disk store (err e) = (err e, store)
  finish r burns limit disk store (ok tt) =
      if burns then burn_nonce r (consume limit disk r.nonce store) else (ok r, store)

  -- `verify`; `burns` is the flag `burn`.
  unfoldable pub verify :
      String
      → ApprovalRequest
      → Action
      → String
      → String
      → Bool
      → ℕ
      → ℕ
      → Disk
      → NonceStore
      → Result Refusal ApprovalRequest × NonceStore
  verify token r action actor secret burns now limit disk store =
      finish r burns limit disk store (refusal_of token r action actor secret now)
