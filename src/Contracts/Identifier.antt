-- ===== src/Contracts/Identifier.antt =====
-- The identifier rules that the contracts share: `_check_identifier` and
-- `_check_blank_or_identifier` of backend/app/contracts/audit.py, approval.py and policy.py.
use text.Mathlib.Text.{◌==◌ as str_eq}
use proof_ops.Common.{ℕ, String, Bool, not, ◌&&◌, ◌||◌, is_blank, is_padded, fits_in}

-- Non-blank, unpadded, bounded.
unfoldable pub is_identifier : ℕ → String → Bool
is_identifier max_len v = not (is_blank v) && not (is_padded v) && fits_in max_len v

-- The empty text, or an identifier.
unfoldable pub is_optional : ℕ → String → Bool
unfolding is_identifier
is_optional max_len v = str_eq v "" || is_identifier max_len v
