-- ===== src/Budgets/Ledger.antt =====
-- backend/app/services/budgets.py: `Ledger` without its latencies, and `assert_budgets`. A rate is
-- compared as a fraction, which a quotient of floats matches for counts below 2 ^ 52.
use Prim.Native.Char.{code}
use proof_ops.Common.{
  ℕ, ◌+◌, ◌*◌, ◌/◌, max, String, Bool, true, ◌&&◌, Option, none, some, ltb, leb, if◌then◌else◌,
  is_blank, Result, ok, err,
}

abbrev pub tokens_lt : ℕ
tokens_lt = 80000

abbrev pub calls_lt : ℕ
calls_lt = 12

abbrev pub ctx_lt : ℕ
ctx_lt = 12000

-- The bytes of one character, and of a text, in UTF-8.
abbrev pub byte_count : ℕ → ℕ
byte_count c = if ltb c 128 then 1 else if ltb c 2048 then 2 else if ltb c 65536 then 3 else 4

unfoldable pub encoded_length : String → ℕ
encoded_length String.[] = 0
encoded_length (String.◌∷◌ c s) = byte_count (code c) + encoded_length s

unfoldable pub estimate_tokens : String → ℕ
unfolding encoded_length
estimate_tokens text = encoded_length text / 4

pub record Ledger : Type 0 where
  pub incident_id : String
  pub tokens_in : ℕ
  pub tokens_out : ℕ
  pub llm_calls : ℕ
  pub retrieval_calls : ℕ
  pub retrieval_hits : ℕ
  pub ctx_max : ℕ

-- `Ledger(incident_id)`; the error is its BudgetError.
unfoldable pub new_ledger : String → Result (Unit {0}) Ledger
new_ledger incident_id =
    if is_blank incident_id
    then err tt
    else ok (record {
      incident_id = incident_id;
      tokens_in = 0;
      tokens_out = 0;
      llm_calls = 0;
      retrieval_calls = 0;
      retrieval_hits = 0;
      ctx_max = 0;
    })

unfoldable pub add_io : String → String → Ledger → Ledger
add_io in_text out_text l = record l {
  tokens_in = l.tokens_in + estimate_tokens in_text;
  tokens_out = l.tokens_out + estimate_tokens out_text;
  llm_calls = l.llm_calls + 1;
}

unfoldable pub record_retrieval : Bool → Ledger → Ledger
record_retrieval cached l = record l {
  retrieval_calls = l.retrieval_calls + 1;
  retrieval_hits = if cached then l.retrieval_hits + 1 else l.retrieval_hits;
}

unfoldable pub observe_ctx : ℕ → Ledger → Ledger
observe_ctx tokens l = record l { ctx_max = max l.ctx_max tokens }

abbrev pub tokens : Ledger → ℕ
tokens l = l.tokens_in + l.tokens_out

-- `cache_rate`, as hits and calls.
abbrev pub cache_rate : Ledger → Option (ℕ × ℕ)
cache_rate l = if ltb 0 l.retrieval_calls then some (l.retrieval_hits, l.retrieval_calls) else none

-- `rate > CACHE_HIT_GT`, which is 0.5; a ledger without calls is not checked.
abbrev pub cache_check : Option (ℕ × ℕ) → Bool
cache_check none = true
cache_check (some (hits, calls)) = ltb calls (2 * hits)

-- `assert_budgets(ledger)["passed"]`
unfoldable pub assert_budgets : Ledger → Bool
assert_budgets l =
    leb (tokens l) tokens_lt
    && leb l.llm_calls calls_lt
    && leb l.ctx_max ctx_lt
    && cache_check (cache_rate l)
