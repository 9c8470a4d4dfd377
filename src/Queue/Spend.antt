-- ===== src/Queue/Spend.antt =====
-- backend/app/routers/approvals.py: a second permit for the same approval.
use Prim.Native.String.{◌++◌ as str_append}
use proof_ops.Common.{
  ◌<◌, String, Bool, true, false, ◌≡◌, ◌≢◌, refl, sym, ◌∙◌, ap, Option, some, none, List, length,
  is_empty, Result, ok, err,
}
use proof_ops.Contracts.Value.{Value}
use proof_ops.Fsm.Run.{Permit}
use proof_ops.Approval.Nonces.{Disk, consume, consume_all}
use proof_ops.Approval.Single.{single_use}
use proof_ops.Queue.Entry.{Entry, Mistake, State, Services, find}
use proof_ops.Queue.Store.{ensure_loaded, load_store, load_if, installed, staged_of}
use proof_ops.Queue.Permit.{verified_permit}
use proof_ops.Queue.Returns.{result_of}
use proof_ops.Queue.Mint.{nonce_of, verified_permit-Once, verified_permit-IsMinted}

module _ (services : Services) where
  installed-nonces :
      (x : Result Mistake (List (String × Entry))) (s : State)
      → (installed services x s).1.nonces ≡ s.nonces
  installed-nonces (err x) s = refl
  installed-nonces (ok staged) s = refl

  load_if-nonces :
      (b : Bool) (f : Option (Option Value)) (s : State)
      → (load_if services b f s).1.nonces ≡ s.nonces
  unfolding load_store
  load_if-nonces false f s = refl
  load_if-nonces true none s = refl
  load_if-nonces true (some doc) s = installed-nonces (staged_of services s.file) s

  -- Loading leaves the nonces as they are.
  ensure_loaded-nonces : (s : State) → (ensure_loaded services s).1.nonces ≡ s.nonces
  unfolding ensure_loaded
  ensure_loaded-nonces s = load_if-nonces (is_empty s.requests) s.file s

same_nonce :
    {o : Option Entry} (a b : Entry) → o ≡ some a → o ≡ some b → a.request.nonce ≡ b.request.nonce
same_nonce a b h k = cc

not_false : {b : Bool} → b ≡ true → b ≢ false
not_false h k = cc

-- One approval mints one permit: after a permit was minted, and fewer than `limit` further calls
-- that consume nonces, no second one is minted for the same request, at whatever time and with
-- whatever token, actor, secret, incident and disk.
pub permit_once :
    (services services' : Services)
    (id token actor secret incident id' token' actor' secret' incident' : String) (s t : State)
    (p q : Permit) (e e' : Entry) (calls : List (String × Disk))
    → (verified_permit services id token actor secret incident s).0 ≡ ok p
    → find id (ensure_loaded services s).1.requests ≡ some e
    → length calls < services.limit
    → services'.limit ≡ services.limit
    → t.nonces
      ≡ consume_all services.limit calls
          (verified_permit services id token actor secret incident s).1.nonces
    → find id' (ensure_loaded services' t).1.requests ≡ some e'
    → e'.request.nonce ≡ e.request.nonce
    → (verified_permit services' id' token' actor' secret' incident' t).0 ≢ ok q
permit_once services services' id token actor secret incident id' token' actor' secret' incident' s
      t p q e e' calls h f few l n f' r h' =
    let (m, burned) =
      result_of (verified_permit-Once services id token actor secret incident s) h in
    let m' = verified_permit-IsMinted services' id' token' actor' secret' incident' t h' in
    let nonce = nonce_of services m.subject in
    let named : nonce_of services' m'.subject ≡ nonce =
      ap (λ x. str_append x ":permit")
        (same_nonce m'.subject e' m'.placed f' ∙ r ∙ same_nonce e m.subject f m.placed) in
    let left : (ensure_loaded services' t).1.nonces
        ≡ consume_all services.limit calls
            (consume services.limit services.disk nonce (ensure_loaded services s).1.nonces).1 =
      ensure_loaded-nonces services' t ∙ n ∙ ap (consume_all services.limit calls) burned in
    not_false
      (ap
          (λ x.
            (consume x services'.disk nonce (
              consume_all services.limit calls
                (consume services.limit services.disk nonce
                  (ensure_loaded services s).1.nonces).1)).0)
          (sym l)
        ∙ ap
            (λ x.
              (consume services'.limit services'.disk x (
                consume_all services.limit calls
                  (consume services.limit services.disk nonce
                    (ensure_loaded services s).1.nonces).1)).0)
            (sym named)
        ∙ ap (λ x. (consume services'.limit services'.disk (nonce_of services' m'.subject) x).0)
            (sym left)
        ∙ m'.fresh)
      (single_use services.limit nonce services.disk services'.disk calls
        (ensure_loaded services s).1.nonces m.fresh few)
