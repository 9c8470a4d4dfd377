-- ===== src/Approval/Restart.antt =====
-- A consumed nonce is refused after a restart too, or the store says that it lost durability.
use Prim.Native.String.append
use Prim.Native.String.{◌++◌ as str_append}
use text.Mathlib.Text.{◌==◌ as str_eq}
use proof_ops.Common.{
  ℕ, String, ◌≡◌, refl, sym, ap, ◌∙◌, ◌⊎◌, inl, inr, true, false, ◌||◌, some, List, [], ◌∷◌, ◌++◌,
  ltb, ◌==◌, arith, contains, Bool-cases, eq_iff, length,
}
use mathlib.Core.Path.{subst}
use proof_ops.Approval.Nonces.{
  Disk, NonceStore, Append, appended, unwritten, unsynced, torn, Replace, replaced, kept_old,
  no_temporary, remember, all_recovered, open_store, newest, compact, write_log, burn, consume,
}
use proof_ops.Approval.Single.{contains-middle, newest-middle, burn-cases}

pub contains-append :
    (xs ys : List String) (n : String) → contains (xs ++ ys) n ≡ contains xs n || contains ys n
contains-append [] ys n = refl
contains-append (x ∷ xs) ys n = ground (arith, contains-append xs ys n)

-- What was read once stays, and what is read later is added.
remember-keeps :
    (ns known : List String) (n : String)
    → contains known n ≡ true
    → contains (remember known ns) n ≡ true
unfolding remember
remember-keeps [] known n h = h
remember-keeps (m ∷ ns) known n h = ground (
  arith,
  remember-keeps ns known n h,
  remember-keeps ns (known ++ m ∷ []) n (ground (arith, contains-append known (m ∷ []) n)),
)

remember-finds :
    (ns known : List String) (n : String)
    → str_eq n "" ≡ false
    → contains ns n ≡ true
    → contains (remember known ns) n ≡ true
unfolding remember
remember-finds [] known n p h = ground arith
remember-finds (m ∷ ns) known n p h = elim (Bool-cases (str_eq m n)) [
  | inl e ↦ ground (
    arith,
    eq_iff m n,
    remember-keeps ns known n,
    remember-keeps ns (known ++ m ∷ []) n (ground (arith, contains-append known (m ∷ []) n)),
  )
  | inr d ↦ ground (arith, remember-finds ns known n p, remember-finds ns (known ++ m ∷ []) n p)
]

module _ (recovered : String → List String) (n : String) (whole : recovered n ≡ n ∷ []) where
  recovered-contains :
      (rs : List String) → contains rs n ≡ true → contains (all_recovered recovered rs) n ≡ true
  unfolding all_recovered
  recovered-contains [] h = h
  recovered-contains (r ∷ rs) h =
      let split = contains-append (recovered r) (all_recovered recovered rs) n in
      elim (Bool-cases (str_eq r n)) [
        | inl e ↦
            rw ((eq_iff r n).0 e) (rw whole (contains-middle [] (all_recovered recovered rs) n))
        | inr d ↦ ground (arith, split, recovered-contains rs)
      ]

  reopened_refuses :
      (limit : ℕ) (disk : Disk) (rs : List String)
      → str_eq n "" ≡ false
      → contains rs n ≡ true
      → (consume limit disk n (open_store recovered rs "")).0 ≡ false
  unfolding consume open_store
  reopened_refuses limit disk rs p h =
      rw (remember-finds (all_recovered recovered rs) [] n p (recovered-contains rs h)) refl

-- What a burn leaves in the log.
newest-last :
    (limit : ℕ) (xs : List String) (n : String) → contains (newest limit (xs ++ n ∷ [])) n ≡ true
unfolding newest
newest-last limit xs n = elim (Bool-cases (limit == 0)) [
  | inl z ↦ ground (arith, contains-middle xs [] n)
  | inr p ↦
      let (zs, e) = newest-middle limit xs [] n (ground arith) in rw e (contains-middle zs [] n)
]

-- A nonce that the log of a store keeps, unless the store is flagged.
abbrev IsLogged : String → NonceStore → Type 0
IsLogged n s =
    ((rs : List String) × (s.log ≡ some rs) × (s.tail ≡ "") × (contains rs n ≡ true))
    ⊎ (s.degraded ≡ true)

compact-IsLogged :
    (limit : ℕ) (r : Replace) (n : String) (records order : List String) (s : NonceStore)
    → s.order ≡ order ++ n ∷ []
    → s.tail ≡ ""
    → IsLogged n (compact limit r (records ++ n ∷ []) s)
unfolding compact
compact-IsLogged limit replaced n records order s o t = inl (
  newest limit s.order,
  refl,
  t,
  ap (λ l. contains (newest limit l) n) o ∙ newest-last limit order n,
)
compact-IsLogged limit kept_old n records order s o t =
    inl (records ++ n ∷ [], refl, t, contains-middle records [] n)
compact-IsLogged limit no_temporary n records order s o t = inr refl

write_log-IsLogged :
    (limit : ℕ) (a : Append) (r : Replace) (n : String) (records order : List String)
    (s : NonceStore)
    → s.order ≡ order ++ n ∷ []
    → s.tail ≡ ""
    → IsLogged n (write_log limit (record { append = a; replace = r }) n records s)
unfolding write_log
write_log-IsLogged limit unwritten r n records order s o t = inr refl
write_log-IsLogged limit unsynced r n records order s o t = inr refl
write_log-IsLogged limit (torn k) r n records order s o t = inr refl
write_log-IsLogged limit appended r n records order s o t =
    let line : str_append s.tail n ≡ n = ap (λ x. str_append x n) t ∙ append.nil n in
    elim (Bool-cases (ltb limit (length s.used))) [
      | inl e ↦
          rw e (rw line (compact-IsLogged limit r n records order (record s { tail = "" }) o refl))
      | inr e ↦ rw e (rw line (inl (records ++ n ∷ [], refl, refl, contains-middle records [] n)))
    ]

burn-IsLogged :
    (limit : ℕ) (disk : Disk) (n : String) (s : NonceStore) (records : List String)
    → s.log ≡ some records
    → s.tail ≡ ""
    → IsLogged n (burn limit disk n s)
burn-IsLogged limit disk n s records h t =
    let s' = record s { used = n ∷ s.used; order = s.order ++ n ∷ [] } in
    elim (burn-cases limit disk n s) [
      | inl (l, e) ↦ ground (arith, l, h)
      | inr (rs, e) ↦
          subst (IsLogged n) (sym e)
            (write_log-IsLogged limit disk.append disk.replace n rs s.order s' refl t)
    ]

-- A burn is never lost in silence where the file ends with a whole line: after a nonce was consumed
-- by a store with a path, the file ends with a whole line again and a store opened over it refuses the
-- nonce, or the flag `degraded` is set. The nonce is read back as written, as the hexadecimal ones
-- are.
pub burn_durable_or_flagged :
    (recovered : String → List String) (limit limit' : ℕ) (disk disk' : Disk) (n : String)
    (s : NonceStore) (records : List String)
    → recovered n ≡ n ∷ []
    → str_eq n "" ≡ false
    → s.log ≡ some records
    → s.tail ≡ ""
    → (consume limit disk n s).0 ≡ true
    → ((rs : List String) × ((consume limit disk n s).1.log ≡ some rs)
        × ((consume limit disk n s).1.tail ≡ "")
        × ((consume limit' disk' n (open_store recovered rs "")).0 ≡ false))
      ⊎ ((consume limit disk n s).1.degraded ≡ true)
unfolding consume
burn_durable_or_flagged recovered limit limit' disk disk' n s records w p l t h =
    elim (Bool-cases (contains s.used n)) [
      | inl used ↦ ground (arith, used, h)
      | inr fresh ↦ rw fresh (elim (burn-IsLogged limit disk n s records l t) [
        | inl (rs, e, b, c) ↦ inl (rs, e, b, reopened_refuses recovered n w limit' disk' rs p c)
        | inr d ↦ inr d
      ])
    ]
