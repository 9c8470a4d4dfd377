-- ===== src/EventBus/Backlog.antt =====
-- What a reader finds in its queue.
use proof_ops.Common.{
  ◌+◌, ◌-◌, ◌≤◌, ◌<◌, ◌≡◌, refl, sym, ap, ◌∙◌, false, List, [], ◌∷◌, ◌++◌, arith, length,
  length-append, append_assoc, append-nil, inl, inr, Bool-cases,
}
use proof_ops.EventBus.Queue.{Subscription, is_full, put, replace_oldest, put_all, run_pending}

-- After some items were put: what is lost is the oldest part, exactly as much as does not fit, and
-- it is counted.
pub record IsBacklog {A : Type 0} (before : Subscription A) (items : List A)
    (after : Subscription A) : Type 0 where
  pub lost : List A
  pub newest : before.queue ++ items ≡ lost ++ after.queue
  pub counted : after.dropped ≡ before.dropped + length lost
  pub needed : length lost ≡ length before.queue + length items - before.maxsize
  pub bounded : length after.queue ≤ after.maxsize
  pub same_size : after.maxsize ≡ before.maxsize

module _ {A : Type 0} where
  replace-IsBacklog :
      (q : List A) (p : A) (s : Subscription A)
      → s.queue ≡ q
      → 0 < s.maxsize
      → length q ≡ s.maxsize
      → IsBacklog s (p ∷ []) (replace_oldest q p s)
  unfolding replace_oldest
  replace-IsBacklog [] p s e m l = ground (arith, l, m)
  replace-IsBacklog (x ∷ rest) p s e m l =
      let room : is_full s.maxsize rest ≡ false = ground (arith, l) in
      rw room (record {
        lost = x ∷ [];
        newest = ap (λ q. q ++ p ∷ []) e;
        counted = refl;
        needed = omega (arith, l, ap length e);
        bounded = omega (arith, l, length-append rest (p ∷ []));
        same_size = refl;
      })

  put-IsBacklog :
      (p : A) (s : Subscription A)
      → 0 < s.maxsize
      → length s.queue ≤ s.maxsize
      → IsBacklog s (p ∷ []) (put p s)
  unfolding put
  put-IsBacklog p s m q = elim (Bool-cases (is_full s.maxsize s.queue)) [
    | inl full ↦ rw full (replace-IsBacklog s.queue p s refl m (ground (arith, full, q)))
    | inr room ↦ rw room (record {
      lost = [];
      newest = refl;
      counted = omega arith;
      needed = ground (arith, room, m);
      bounded = ground (arith, room, m, length-append s.queue (p ∷ []));
      same_size = refl;
    })
  ]

  then-IsBacklog :
      {s mid s' : Subscription A} {ps qs : List A}
      → length s.queue ≤ s.maxsize
      → IsBacklog s ps mid
      → IsBacklog mid qs s'
      → IsBacklog s (ps ++ qs) s'
  then-IsBacklog {s} {mid} {s'} {ps} {qs} q a b = record {
    lost = a.lost ++ b.lost;
    newest =
        sym (append_assoc s.queue ps qs)
        ∙ ap (λ l. l ++ qs) a.newest
        ∙ append_assoc a.lost mid.queue qs
        ∙ ap (λ l. a.lost ++ l) b.newest
        ∙ sym (append_assoc a.lost b.lost s'.queue);
    counted = omega (arith, a.counted, b.counted, length-append a.lost b.lost);
    needed = omega (
      arith,
      a.needed,
      b.needed,
      a.bounded,
      a.same_size,
      length-append a.lost b.lost,
      length-append ps qs,
      ap length a.newest,
      length-append s.queue ps,
      length-append a.lost mid.queue,
    );
    bounded = b.bounded;
    same_size = b.same_size ∙ a.same_size;
  }

  put_all-IsBacklog :
      (ps : List A) (s : Subscription A)
      → 0 < s.maxsize
      → length s.queue ≤ s.maxsize
      → IsBacklog s ps (put_all ps s)
  unfolding put_all
  put_all-IsBacklog [] s m q = record {
    lost = [];
    newest = append-nil s.queue;
    counted = omega arith;
    needed = omega (arith, q);
    bounded = q;
    same_size = refl;
  }
  put_all-IsBacklog (p ∷ ps) s m q =
      let first = put-IsBacklog p s m q in
      then-IsBacklog q first
        (put_all-IsBacklog ps (put p s) (omega (arith, m, first.same_size)) first.bounded)

  -- A reader that falls behind loses the oldest items and no others: when the loop runs what is
  -- scheduled, the queue is the newest part, in order, of what it held and what was offered, never
  -- longer than `maxsize`; what does not fit is lost, and each loss is counted.
  pub run_pending-IsBacklog :
      (s : Subscription A)
      → 0 < s.maxsize
      → length s.queue ≤ s.maxsize
      → IsBacklog s s.pending (run_pending s)
  unfolding run_pending
  run_pending-IsBacklog s m q =
      let b = put_all-IsBacklog s.pending (record s { pending = [] }) m q in
      record {
        lost = b.lost;
        newest = b.newest;
        counted = b.counted;
        needed = b.needed;
        bounded = b.bounded;
        same_size = b.same_size;
      }
