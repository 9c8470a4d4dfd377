-- ===== src/Approval/Single.antt =====
-- A nonce is consumed once, until as many others as the store holds have been consumed.
use proof_ops.Common.{
  ℕ, zero, suc, ◌+◌, ◌-◌, ◌<◌, ◌≤◌, String, ◌≡◌, refl, sym, ◌∙◌, ap, ◌⊎◌, inl, inr, true, false,
  none, List, [], ◌∷◌, ◌++◌, ◌==◌, append_assoc, arith, length, length-append, drop, contains,
  Bool-cases, Option-cases, eq_iff,
}
use Prim.Native.String.{◌++◌ as str_append}
use mathlib.Core.Path.{subst}
use proof_ops.Approval.Nonces.{
  Disk, NonceStore, Replace, newest, compact, write_log, burn, consume, consume_all,
}

-- A nonce that is used, with at most `age` younger ones behind it.
pub record IsBurned (nonce : String) (age : ℕ) (s : NonceStore) : Type 0 where
  pub older : List String
  pub younger : List String
  pub placed : s.order ≡ older ++ nonce ∷ younger
  pub young : length younger ≤ age
  pub used : contains s.used nonce ≡ true

drop-append : (xs ys : List String) (n : ℕ) → n ≤ length xs → drop n (xs ++ ys) ≡ drop n xs ++ ys
drop-append xs ys zero h = refl
drop-append (x ∷ xs) ys (suc n) h = drop-append xs ys n (omega arith)
drop-append [] ys (suc n) h = ground arith

pub contains-middle : (xs ys : List String) (n : String) → contains (xs ++ n ∷ ys) n ≡ true
contains-middle [] ys n = ground (arith, eq_iff n n)
contains-middle (x ∷ xs) ys n = ground (arith, contains-middle xs ys n)

pub newest-middle :
    (limit : ℕ) (xs ys : List String) (n : String)
    → length ys < limit
    → (zs : List String) × (newest limit (xs ++ n ∷ ys) ≡ zs ++ n ∷ ys)
unfolding newest
newest-middle limit xs ys n h =
    let whole = length-append xs (n ∷ ys) in
    elim (Bool-cases (limit == 0)) [
      | inl z ↦ (xs, ground arith)
      | inr p ↦ (
        drop (length (xs ++ n ∷ ys) - limit) xs,
        (ground arith)
            ∙ drop-append xs (n ∷ ys) (length (xs ++ n ∷ ys) - limit) (ground (arith, whole)),
      )
    ]

pub consume_fresh :
    (limit : ℕ) (disk : Disk) (n : String) (s : NonceStore)
    → contains s.used n ≡ false
    → consume limit disk n s ≡ (true, burn limit disk n s)
unfolding consume
consume_fresh limit disk n s f = rw f refl

module _ (limit : ℕ) where
  compact-IsBurned :
      (r : Replace) (records : List String) (s : NonceStore) (n : String) (age : ℕ)
      → age < limit
      → IsBurned n age s
      → IsBurned n age (compact limit r records s)
  unfolding compact
  compact-IsBurned r records s n age h b =
      let (zs, e) = newest-middle limit b.older b.younger n (omega (arith, b.young, h)) in
      let placed = ap (newest limit) b.placed ∙ e in
      record {
        older = zs;
        younger = b.younger;
        placed = placed;
        young = b.young;
        used = rw placed (contains-middle zs b.younger n);
      }

  same_order :
      {s s' : NonceStore} {n : String} {age : ℕ}
      → IsBurned n age s
      → s'.order ≡ s.order
      → s'.used ≡ s.used
      → IsBurned n age s'
  same_order {n = n} b o u = record {
    older = b.older;
    younger = b.younger;
    placed = o ∙ b.placed;
    young = b.young;
    used = ap (λ l. contains l n) u ∙ b.used;
  }

  write_log-cases :
      (disk : Disk) (m : String) (records : List String) (s : NonceStore)
      → (((write_log limit disk m records s).order ≡ s.order)
          × ((write_log limit disk m records s).used ≡ s.used))
        ⊎ (write_log limit disk m records s
            ≡ compact limit disk.replace
                (records ++ str_append s.tail m ∷ [])
                (record s { tail = "" }))
  unfolding write_log
  write_log-cases disk m records s = ground arith

  -- Writing the log keeps what is burned.
  write_log-IsBurned :
      (disk : Disk) (m : String) (records : List String) (s : NonceStore) (n : String) (age : ℕ)
      → age < limit
      → IsBurned n age s
      → IsBurned n age (write_log limit disk m records s)
  write_log-IsBurned disk m records s n age h b = elim (write_log-cases disk m records s) [
    | inl (o, u) ↦ same_order b o u
    | inr e ↦
        subst (λ t. IsBurned n age t) (sym e)
          (compact-IsBurned disk.replace (records ++ str_append s.tail m ∷ [])
            (record s { tail = "" }) n age h (same_order b refl refl))
  ]

  -- The store after `add` and `append`.
  abbrev pub noted : String → NonceStore → NonceStore
  noted m s = record s { used = m ∷ s.used; order = s.order ++ m ∷ [] }

  pub burn-cases :
      (disk : Disk) (m : String) (s : NonceStore)
      → ((s.log ≡ none) × (burn limit disk m s ≡ noted m s))
        ⊎ ((records : List String) × (burn limit disk m s
              ≡ write_log limit disk m records (noted m s)))
  unfolding burn
  burn-cases disk m s = elim (Option-cases s.log) [
    | inl e ↦ inl (e, rw e refl)
    | inr (records, e) ↦ inr (records, rw e refl)
  ]

  noted-IsBurned :
      (disk : Disk) (m : String) (s : NonceStore) (n : String) (age : ℕ)
      → age < limit
      → IsBurned n age (noted m s)
      → IsBurned n age (burn limit disk m s)
  noted-IsBurned disk m s n age h b = elim (burn-cases disk m s) [
    | inl (l, e) ↦ subst (λ t. IsBurned n age t) (sym e) b
    | inr (records, e) ↦
        subst (λ t. IsBurned n age t) (sym e)
          (write_log-IsBurned disk m records (noted m s) n age h b)
  ]

  noted_later :
      (m : String) {s : NonceStore} {n : String} {age : ℕ}
      → IsBurned n age s
      → IsBurned n (age + 1) (noted m s)
  noted_later m {n = n} b = record {
    older = b.older;
    younger = b.younger ++ m ∷ [];
    placed = ap (λ l. l ++ m ∷ []) b.placed ∙ append_assoc b.older (n ∷ b.younger) (m ∷ []);
    young = omega (arith, b.young, length-append b.younger (m ∷ []));
    used = ground (arith, b.used);
  }

  consume-IsBurned :
      (disk : Disk) (m : String) (s : NonceStore) (n : String) (age : ℕ)
      → age + 1 < limit
      → IsBurned n age s
      → IsBurned n (age + 1) (consume limit disk m s).1
  unfolding consume
  consume-IsBurned disk m s n age h b = elim (Bool-cases (contains s.used m)) [
    | inl e ↦ rw e (record {
      older = b.older;
      younger = b.younger;
      placed = b.placed;
      young = omega (arith, b.young);
      used = b.used;
    })
    | inr e ↦ rw e (noted-IsBurned disk m s n (age + 1) h (noted_later m b))
  ]

  fresh-IsBurned :
      (disk : Disk) (n : String) (s : NonceStore)
      → 0 < limit
      → (consume limit disk n s).0 ≡ true
      → IsBurned n 0 (consume limit disk n s).1
  unfolding consume
  fresh-IsBurned disk n s h e = elim (Bool-cases (contains s.used n)) [
    | inl used ↦ ground (arith, used, e)
    | inr fresh ↦ rw fresh (
        noted-IsBurned disk n s n 0 h (record {
          older = s.order;
          younger = [];
          placed = refl;
          young = omega arith;
          used = contains-middle [] s.used n;
        }))
  ]

  consume_all-used :
      (calls : List (String × Disk)) (s : NonceStore) (n : String) (age : ℕ)
      → age + length calls < limit
      → IsBurned n age s
      → contains (consume_all limit calls s).used n ≡ true
  unfolding consume_all
  consume_all-used [] s n age h b = b.used
  consume_all-used ((m, disk) ∷ calls) s n age h b =
      consume_all-used calls (consume limit disk m s).1 n (age + 1) (omega (arith, h))
        (consume-IsBurned disk m s n age (omega (arith, h)) b)

  -- A nonce is consumed once: after it was consumed, and fewer than `limit` further calls for any
  -- nonces with any disk failures, it is refused.
  pub single_use :
      (n : String) (disk disk' : Disk) (calls : List (String × Disk)) (s : NonceStore)
      → (consume limit disk n s).0 ≡ true
      → length calls < limit
      → (consume limit disk' n (consume_all limit calls (consume limit disk n s).1)).0 ≡ false
  unfolding consume
  single_use n disk disk' calls s e h =
      let used =
        consume_all-used calls (consume limit disk n s).1 n 0 (omega (arith, h))
          (fresh-IsBurned disk n s (omega (arith, h)) e) in
      rw used refl
