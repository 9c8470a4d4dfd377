-- ===== src/Budgets/Gate.antt =====
-- The gate over a ledger that is fed call by call.
use proof_ops.Common.{ℕ, ◌*◌, ◌≤◌, ◌<◌, ◌≡◌, ◌↔◌, ◌⊎◌, Bool, true, false, String, ok, arith}
use proof_ops.Budgets.Ledger.{
  tokens_lt, calls_lt, ctx_lt, Ledger, new_ledger, add_io, record_retrieval, observe_ctx, tokens,
  assert_budgets,
}

-- The ledgers that feeds make.
pub data Fed : Ledger → Type 0 where
  opened : (id : String) {l : Ledger} → new_ledger id ≡ ok l → Fed l
  io : {l : Ledger} (i o : String) → Fed l → Fed (add_io i o l)
  retrieval : {l : Ledger} (cached : Bool) → Fed l → Fed (record_retrieval cached l)
  context : {l : Ledger} (n : ℕ) → Fed l → Fed (observe_ctx n l)

-- There are no more hits than calls.
pub Fed-bounded : {l : Ledger} → Fed l → l.retrieval_hits ≤ l.retrieval_calls
unfolding new_ledger add_io record_retrieval observe_ctx
Fed-bounded (opened id e) = ground (arith, e)
Fed-bounded (io i o f) = Fed-bounded f
Fed-bounded (retrieval true f) = omega (arith, Fed-bounded f)
Fed-bounded (retrieval false f) = omega (arith, Fed-bounded f)
Fed-bounded (context n f) = Fed-bounded f

-- The gate passes exactly within the bounds, the bounds included, with more than half of the
-- retrievals cached when there was one.
pub assert_budgets_lem :
    (l : Ledger)
    → (assert_budgets l ≡ true) ↔ (
        (tokens l ≤ tokens_lt)
        × (l.llm_calls ≤ calls_lt)
        × (l.ctx_max ≤ ctx_lt)
        × ((l.retrieval_calls ≡ 0) ⊎ (l.retrieval_calls < 2 * l.retrieval_hits)))
unfolding assert_budgets
assert_budgets_lem l = (λ h. ground (arith, h), λ h. ground (arith, h))
