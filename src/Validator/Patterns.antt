-- ===== src/Validator/Patterns.antt =====
-- backend/app/services/validator.py: SHELL_META and IMAGE_TAG, as tests on the characters.
use Prim.Native.Char.{code}
use Prim.Native.String.{count}
use text.Mathlib.Text.{◌==◌ as str_eq}
use proof_ops.Common.{ℕ, String, Bool, not, ◌&&◌, ◌||◌, ◌==◌, leb, every, if◌then◌else◌}

-- [;&|`$()\\<>\r\n\t]
unfoldable pub is_shell_char : ℕ → Bool
is_shell_char c =
    c == b';'
    || c == b'&'
    || c == b'|'
    || c == b'`'
    || c == b'$'
    || c == b'('
    || c == b')'
    || c == 92
    || c == b'<'
    || c == b'>'
    || c == 13
    || c == 10
    || c == 9

-- `SHELL_META.search(value)`
unfoldable pub has_shell_meta : String → Bool
unfolding is_shell_char
has_shell_meta s = not (every (λ c. not (is_shell_char c)) s)

is_tag_char : ℕ → Bool
is_tag_char c =
    leb b'a' c && leb c b'z' || leb b'0' c && leb c b'9' || c == b'.' || c == b'_' || c == b'-'

-- `$` matches before a final newline too.
without_final_newline : String → String
without_final_newline String.[] = String.[]
without_final_newline (String.◌∷◌ c String.[]) =
    if code c == 10 then String.[] else String.◌∷◌ c String.[]
without_final_newline (String.◌∷◌ c (String.◌∷◌ d s)) =
    String.◌∷◌ c (without_final_newline (String.◌∷◌ d s))

-- `IMAGE_TAG.match(s)`: ^[a-z0-9._-]{1,128}$
unfoldable pub is_image_tag : String → Bool
unfolding is_tag_char without_final_newline
is_image_tag s =
    let tag = without_final_newline s in
    not (str_eq tag "") && every is_tag_char tag && leb (count tag) 128
