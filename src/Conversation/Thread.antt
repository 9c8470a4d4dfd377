-- ===== src/Conversation/Thread.antt =====
-- backend/app/services/conversation.py: turns, and the file that keeps the last of them.
use Prim.Native.Char.{code}
use Prim.Native.String.{◌++◌ as str_append}
use text.Mathlib.Text.{◌==◌ as str_eq}
use proof_ops.Common.{
  take_chars, ℕ, ◌-◌, String, Bool, ◌||◌, ◌==◌, Option, none, some, List, [], ◌∷◌, ◌++◌, length,
  drop, ltb, if◌then◌else◌,
}
use proof_ops.Contracts.Value.{
  Value, null, num, str, sequence, mapping, Items, no_item, item, Fields, no_binding, binding, get,
}
use proof_ops.Queue.Entry.{find, put}

-- MAX_TURNS
abbrev pub max_turns : ℕ
max_turns = 40

-- `Turn`; a dataclass checks no type.
pub record Turn : Type 0 where
  pub role : Value
  pub text : Value
  pub at : Value
  pub citations : Value
  pub trace : Value
  pub evidence_ids : Value
  pub proposed_action : Value
  pub reasoning_mode : Value
  pub verdict : Value
  pub dropped : Value

-- The files of the thread directory by their names; no value where a file is no JSON.
abbrev pub Threads : Type 0
Threads = List (String × Option Value)

abbrev pub or_default : Option Value → Value → Value
or_default none d = d
or_default (some v) d = v

-- `Turn.from_json`; a turn without role, text or time raises TypeError.
abbrev pub turn_of : Option Value → Option Value → Option Value → Fields → Option Turn
turn_of (some role) (some text) (some at) fs = some (record {
  role = role;
  text = text;
  at = at;
  citations = or_default (get "citations" fs) (sequence no_item);
  trace = or_default (get "trace" fs) (sequence no_item);
  evidence_ids = or_default (get "evidence_ids" fs) (sequence no_item);
  proposed_action = or_default (get "proposed_action" fs) null;
  reasoning_mode = or_default (get "reasoning_mode" fs) (str "");
  verdict = or_default (get "verdict" fs) (str "");
  dropped = or_default (get "dropped" fs) (num 0);
})
turn_of _ _ _ fs = none

unfoldable pub from_json : Fields → Option Turn
from_json fs = turn_of (get "role" fs) (get "text" fs) (get "at" fs) fs

abbrev pub cons_turn : Option Turn → List Turn → List Turn
cons_turn none ts = ts
cons_turn (some t) ts = t ∷ ts

unfoldable pub turns_of : Items → List Turn
unfolding from_json
turns_of no_item = []
turns_of (item (mapping fs) vs) = cons_turn (from_json fs) (turns_of vs)
turns_of (item _ vs) = turns_of vs

abbrev pub turns_in : Option Value → List Turn
turns_in (some (sequence vs)) = turns_of vs
turns_in _ = []

unfoldable pub turns_in_file : Option (Option Value) → List Turn
unfolding turns_of
turns_in_file (some (some (mapping fs))) = turns_in (get "turns" fs)
turns_in_file _ = []

-- `turns[-MAX_TURNS:]`, where there are more.
unfoldable pub retained : List Turn → List Turn
retained ts = if ltb max_turns (length ts) then drop (length ts - max_turns) ts else ts

-- `stored` is what `json.dump` with sorted keys and `default=str` keeps of a value.
module _ (stored : Value → Value) where
  -- `Turn.to_json`, as the file keeps it.
  unfoldable pub to_json : Turn → Fields
  to_json t = binding "at" (stored t.at) (
      binding "citations" (stored t.citations) (
        binding "dropped" (stored t.dropped) (
          binding "evidence_ids" (stored t.evidence_ids) (
            binding "proposed_action" (stored t.proposed_action) (
              binding "reasoning_mode" (stored t.reasoning_mode) (
                binding "role" (stored t.role) (
                  binding "text" (stored t.text) (
                    binding "trace" (stored t.trace)
                      (binding "verdict" (stored t.verdict) no_binding)))))))))

  unfoldable pub turn_items : List Turn → Items
  unfolding to_json
  turn_items [] = no_item
  turn_items (t ∷ ts) = item (mapping (to_json t)) (turn_items ts)

  abbrev pub document : String → Value → ℕ → List Turn → Value
  document id now dropped ts = mapping (
      binding "dropped" (num dropped) (
        binding "incident_id" (str id) (
          binding "max_turns" (num max_turns) (
            binding "session_id" (str id) (
              binding "turns" (sequence (turn_items ts))
                (binding "updated_at" (stored now) no_binding))))))

-- `is_alnum` is `str.isalnum` of one character.
module _ (is_alnum : ℕ → Bool) where
  -- `ch in "-_."`
  abbrev pub is_name_char : ℕ → Bool
  is_name_char c = is_alnum c || c == 45 || c == 95 || c == 46

  unfoldable pub cleaned : String → String
  cleaned String.[] = String.[]
  cleaned (String.◌∷◌ c s) =
      let rest = cleaned s in if is_name_char (code c) then String.◌∷◌ c rest else rest

  abbrev pub or_unknown : String → String
  or_unknown s = if str_eq s "" || str_eq s "." || str_eq s ".." then "unknown" else s

  -- `_thread_path`
  unfoldable pub thread_name : String → String
  unfolding cleaned
  thread_name id = str_append (or_unknown (take_chars 128 (cleaned id))) ".json"

  -- `read_thread`
  unfoldable pub read_thread : String → Threads → List Turn
  unfolding thread_name turns_in_file
  read_thread id files = turns_in_file (find (thread_name id) files)

  module _ (stored : Value → Value) where
    -- `append_turn`, where the file is replaced: the number dropped, and the files.
    unfoldable pub append_turn : String → Turn → Value → Threads → ℕ × Threads
    unfolding read_thread retained
    append_turn id t now files =
        let turns = read_thread id files ++ t ∷ [] in
        let dropped = length turns - max_turns in
        (
          dropped,
          put (thread_name id) (some (document stored id now dropped (retained turns))) files,
        )
