-- ===== src/Delivery/Tests.antt =====
-- Held tokens on concrete inputs.
use proof_ops.Common.{◌≡◌, refl, none, [], ◌∷◌}
use proof_ops.Queue.Entry.{find}
use proof_ops.Delivery.Hold.{Pending, expire_held, hold_for_scoped_view, claim_scoped_view}
use proof_ops.Delivery.Single.{begin, then_use, held, claim_once, IsFresh, claim-IsFresh}

abbrev waiting : Pending
waiting =
    ("ap-1", record { token = "t-1"; minted_at = 100 })
    ∷ ("ap-2", record { token = "t-2"; minted_at = 10 })
    ∷ []

claim_once_example :
    (claim_scoped_view 160 "ap-1"
      (hold_for_scoped_view 155 "ap-3" "t-3" (claim_scoped_view 150 "ap-1" waiting).1)).0
    ≡ none
claim_once_example =
    claim_once 150 160 "ap-1" waiting
      {t = hold_for_scoped_view 155 "ap-3" "t-3" (claim_scoped_view 150 "ap-1" waiting).1}
      (then_use begin (held 155 "ap-3" "t-3" refl))

claim-IsFresh_example : IsFresh 150 "ap-1" "t-1" waiting
unfolding claim_scoped_view expire_held find
claim-IsFresh_example = claim-IsFresh 150 "ap-1" waiting refl
