-- ===== src/Conversation/Tests.antt =====
-- A thread of one incident beside that of another.
use proof_ops.Common.{take_chars, List, ◌++◌, String, ◌≡◌, refl, true, some, [], ◌∷◌, length}
use proof_ops.Contracts.Value.{
  null, num, str, sequence, mapping, no_item, item, no_binding, binding, get,
}
use proof_ops.Queue.Entry.{find}
use proof_ops.Conversation.Thread.{
  Turn, Threads, cleaned, thread_name, from_json, turns_of, turns_in_file, read_thread, to_json,
  append_turn,
}
use proof_ops.Conversation.Retained.{append_turn-read_thread}

abbrev turn : String → Turn
turn s = record {
  role = str "operator";
  text = str s;
  at = num 5;
  citations = sequence no_item;
  trace = sequence no_item;
  evidence_ids = sequence no_item;
  proposed_action = null;
  reasoning_mode = str "";
  verdict = str "";
  dropped = num 0;
}

abbrev shelf : Threads
shelf =
    (
      "inc-1.json",
      some (
          mapping (
            binding "turns" (sequence (item (mapping (to_json (λ v. v) (turn "why?"))) no_item))
              no_binding)),
    )
    ∷ []

append_turn-read_thread_example :
    (older : List Turn) × (turn "why?" ∷ turn "and now?" ∷ []
      ≡ older
        ++ read_thread
            (λ c. true)
            "inc-1"
            (append_turn (λ c. true) (λ v. v) "inc-1" (turn "and now?") (num 9) shelf).1)
    × (length older ≡ 0)
    × ((append_turn (λ c. true) (λ v. v) "inc-1" (turn "and now?") (num 9) shelf).0 ≡ length older)
unfolding read_thread thread_name cleaned take_chars find turns_in_file turns_of from_json to_json
    get
append_turn-read_thread_example =
    append_turn-read_thread (λ v. v) (λ c. true) "inc-1" (turn "and now?") (num 9) shelf
      (
        record {
          role = refl;
          text = refl;
          at = refl;
          citations = refl;
          trace = refl;
          evidence_ids = refl;
          proposed_action = refl;
          reasoning_mode = refl;
          verdict = refl;
          dropped = refl;
        },
        tt,
      )
      (record {
        role = refl;
        text = refl;
        at = refl;
        citations = refl;
        trace = refl;
        evidence_ids = refl;
        proposed_action = refl;
        reasoning_mode = refl;
        verdict = refl;
        dropped = refl;
      })
