-- ===== src/Approval/Evict.antt =====
-- What the compaction of the log costs.
use text.Mathlib.Text.{◌==◌ as str_eq}
use proof_ops.Common.{
  ℕ, suc, ◌-◌, String, ◌≡◌, refl, ap, ◌∙◌, true, false, some, inl, inr, List, [], ◌∷◌, ◌++◌, ltb,
  arith, contains, length, length-append, drop, eq_iff,
}
use proof_ops.Approval.Nonces.{
  Disk, Replace, NonceStore, appended, newest, compact, write_log, burn, consume,
}
use proof_ops.Approval.Single.{burn-cases, noted, consume_fresh}
use proof_ops.Approval.Restart.{contains-append}

newest-tail :
    (limit : ℕ) (n m : String) (ys : List String)
    → suc (length ys) ≡ limit
    → newest limit (n ∷ ys ++ m ∷ []) ≡ ys ++ m ∷ []
unfolding newest
newest-tail limit n m ys l =
    let d : length (n ∷ ys ++ m ∷ []) - limit ≡ 1 = omega (arith, l, length-append ys (m ∷ [])) in
    ground (arith, ap (λ k. drop k (n ∷ ys ++ m ∷ [])) d)

-- The records in use after a full store has compacted its log.
overflow-used :
    (limit : ℕ) (r : Replace) (m : String) (rs : List String) (s : NonceStore)
    → length s.used ≡ suc limit
    → (write_log limit (record { append = appended; replace = r }) m rs s).used
      ≡ newest limit s.order
unfolding write_log compact
overflow-used limit r m rs s u =
    let full : ltb limit (length s.used) ≡ true = ground (arith, u) in rw full refl

burn-used :
    (limit : ℕ) (r : Replace) (n m : String) (ys records : List String) (s : NonceStore)
    → s.order ≡ n ∷ ys
    → length s.used ≡ limit
    → suc (length ys) ≡ limit
    → s.log ≡ some records
    → (burn limit (record { append = appended; replace = r }) m s).used ≡ ys ++ m ∷ []
burn-used limit r n m ys records s o u l g =
    elim (burn-cases limit (record { append = appended; replace = r }) m s) [
      | inl (empty, e) ↦ ground (arith, empty, g)
      | inr (rs, e) ↦
          ap (λ (q : NonceStore). q.used) e
          ∙ overflow-used limit r m rs (noted limit m s) (ap suc u)
          ∙ ap (λ q. newest limit (q ++ m ∷ [])) o
          ∙ newest-tail limit n m ys l
    ]

differ :
    (xs : List String) (n m : String)
    → contains xs m ≡ false
    → contains xs n ≡ true
    → str_eq m n ≡ false
differ xs n m f h = ground (arith, eq_iff m n)

-- A full store forgets its oldest nonce: where the log holds `limit` nonces and a fresh one is
-- consumed, the oldest of them is accepted again.
pub full_store_forgets :
    (limit : ℕ) (r : Replace) (disk : Disk) (n m : String) (ys records : List String)
    (s : NonceStore)
    → s.order ≡ n ∷ ys
    → length s.used ≡ limit
    → suc (length ys) ≡ limit
    → s.log ≡ some records
    → contains ys n ≡ false
    → contains s.used m ≡ false
    → contains s.used n ≡ true
    → (consume limit disk n (consume limit (record { append = appended; replace = r }) m s).1).0
      ≡ true
full_store_forgets limit r disk n m ys records s o u l g y f h =
    let used = burn-used limit r n m ys records s o u l g in
    let first = consume_fresh limit (record { append = appended; replace = r }) m s f in
    let gone : contains (burn limit (record { append = appended; replace = r }) m s).used n
        ≡ false =
      rw used (ground (arith, contains-append ys (m ∷ []) n, differ s.used n m f h)) in
    rw first (
      ap (λ q. q.0)
        (consume_fresh limit disk n (burn limit (record { append = appended; replace = r }) m s)
          gone))
