-- ===== src/Conversation/Retained.antt =====
-- backend/app/services/conversation.py: what a thread reads after a turn was appended.
use proof_ops.Common.{
  ℕ, ◌+◌, ◌-◌, ◌≤◌, sym, String, Bool, zero, suc, ◌≡◌, ◌≢◌, refl, ap, ◌∙◌, Option, some, List, [],
  ◌∷◌, ◌++◌, length, length-append, drop, ltb, Bool-cases, inl, inr, arith, eq_iff,
}
use proof_ops.Contracts.Value.{Value, get}
use proof_ops.Queue.Entry.{find, put}
use proof_ops.Queue.Status.{find-put}
use proof_ops.Conversation.Thread.{
  Turn, Threads, max_turns, from_json, cons_turn, turns_of, turns_in_file, retained, thread_name,
  read_thread, to_json, turn_items, document, append_turn,
}

module _ (stored : Value → Value) where
  -- A turn of values that the file keeps as they are.
  pub record IsPlain (t : Turn) : Type 0 where
    pub role : stored t.role ≡ t.role
    pub text : stored t.text ≡ t.text
    pub at : stored t.at ≡ t.at
    pub citations : stored t.citations ≡ t.citations
    pub trace : stored t.trace ≡ t.trace
    pub evidence_ids : stored t.evidence_ids ≡ t.evidence_ids
    pub proposed_action : stored t.proposed_action ≡ t.proposed_action
    pub reasoning_mode : stored t.reasoning_mode ≡ t.reasoning_mode
    pub verdict : stored t.verdict ≡ t.verdict
    pub dropped : stored t.dropped ≡ t.dropped

  abbrev pub ArePlain : List Turn → Type 0
  ArePlain [] = Unit
  ArePlain (t ∷ ts) = IsPlain t × ArePlain ts

  -- The turn as the file keeps it.
  abbrev kept_turn : Turn → Turn
  kept_turn t = record {
    role = stored t.role;
    text = stored t.text;
    at = stored t.at;
    citations = stored t.citations;
    trace = stored t.trace;
    evidence_ids = stored t.evidence_ids;
    proposed_action = stored t.proposed_action;
    reasoning_mode = stored t.reasoning_mode;
    verdict = stored t.verdict;
    dropped = stored t.dropped;
  }

  kept_turn-same : (t : Turn) → IsPlain t → kept_turn t ≡ t
  kept_turn-same t p = ground (
    arith, p.role, p.text, p.at, p.citations, p.trace, p.evidence_ids, p.proposed_action,
    p.reasoning_mode, p.verdict, p.dropped,
  )

  from_json-to_json : (t : Turn) → IsPlain t → from_json (to_json stored t) ≡ some t
  unfolding from_json to_json get
  from_json-to_json t p = ap some (kept_turn-same t p)

  turns_of-turn_items : (ts : List Turn) → ArePlain ts → turns_of (turn_items stored ts) ≡ ts
  unfolding turns_of turn_items
  turns_of-turn_items [] p = refl
  turns_of-turn_items (t ∷ ts) p =
      ap (λ o. cons_turn o (turns_of (turn_items stored ts))) (from_json-to_json t p.0)
      ∙ ap (λ l. t ∷ l) (turns_of-turn_items ts p.1)

  drop-ArePlain : (n : ℕ) (ts : List Turn) → ArePlain ts → ArePlain (drop n ts)
  drop-ArePlain zero ts p = p
  drop-ArePlain (suc n) [] p = tt
  drop-ArePlain (suc n) (t ∷ ts) p = drop-ArePlain n ts p.1

  retained-ArePlain : (ts : List Turn) → ArePlain ts → ArePlain (retained ts)
  unfolding retained
  retained-ArePlain ts p = elim (Bool-cases (ltb max_turns (length ts))) [
    | inl e ↦ rw e (drop-ArePlain (length ts - max_turns) ts p)
    | inr e ↦ rw e p
  ]

  append-ArePlain : (ts : List Turn) (t : Turn) → ArePlain ts → IsPlain t → ArePlain (ts ++ t ∷ [])
  append-ArePlain [] t p q = (q, tt)
  append-ArePlain (x ∷ ts) t p q = (p.0, append-ArePlain ts t p.1 q)

  read_document :
      (id : String) (now : Value) (n : ℕ) (ts : List Turn)
      → ArePlain ts
      → turns_in_file (some (some (document stored id now n ts))) ≡ ts
  unfolding turns_in_file get
  read_document id now n ts p = turns_of-turn_items ts p

  drop-length : (n : ℕ) (ts : List Turn) → length (drop n ts) ≡ length ts - n
  drop-length zero ts = omega arith
  drop-length (suc n) [] = omega arith
  drop-length (suc n) (t ∷ ts) = omega (arith, drop-length n ts)

  drop_splits :
      (n : ℕ) (ts : List Turn)
      → n ≤ length ts
      → (older : List Turn) × (ts ≡ older ++ drop n ts) × (length older ≡ n)
  drop_splits zero ts h = ([], refl, refl)
  drop_splits (suc n) [] h = absurd (ground arith)
  drop_splits (suc n) (t ∷ ts) h =
      let (older, e, l) = drop_splits n ts (omega arith) in (t ∷ older, ap (λ q. t ∷ q) e, ap suc l)

  retained_splits :
      (ts : List Turn)
      → (older : List Turn) × (ts ≡ older ++ retained ts) × (length older ≡ length ts - 40)
  unfolding retained
  retained_splits ts = elim (Bool-cases (ltb max_turns (length ts))) [
    | inl e ↦ rw e (drop_splits (length ts - max_turns) ts (omega arith))
    | inr e ↦ rw e ([], refl, ground (arith, e))
  ]

  here :
      (name : String) (v : Option Value) (files : Threads) → find name (put name v files) ≡ some v
  here name v files = ground (arith, find-put name name v files, eq_iff name name)

  there :
      (name other : String) (v : Option Value) (files : Threads)
      → other ≢ name
      → find name (put other v files) ≡ find name files
  there name other v files d = ground (arith, find-put name other v files, eq_iff other name, d)

  module _ (is_alnum : ℕ → Bool) where
    -- A thread that was appended to reads as the end of what it was with the new turn behind it:
    -- what is gone is a beginning, all of what is beyond 40 turns and no more, and the number
    -- returned is its length. The values of the turns are such as the file keeps as they are.
    pub append_turn-read_thread :
        (id : String) (t : Turn) (now : Value) (files : Threads)
        → ArePlain (read_thread is_alnum id files)
        → IsPlain t
        → (older : List Turn) × (read_thread is_alnum id files ++ t ∷ []
            ≡ older ++ read_thread is_alnum id (append_turn is_alnum stored id t now files).1)
          × (length older ≡ length (read_thread is_alnum id files) + 1 - 40)
          × ((append_turn is_alnum stored id t now files).0 ≡ length older)
    unfolding append_turn read_thread
    append_turn-read_thread id t now files p q =
        let (older, e, l) = retained_splits all in
        (
          older,
          e ∙ ap (λ ts. older ++ ts) (sym kept),
          omega (arith, l, length-append (read_thread is_alnum id files) (t ∷ [])),
          sym l,
        )
      where
        all : List Turn
        all = read_thread is_alnum id files ++ t ∷ []

        kept :
            turns_in_file
              (find (thread_name is_alnum id) (append_turn is_alnum stored id t now files).1)
            ≡ retained all
        kept =
            ap turns_in_file (here (thread_name is_alnum id) _ files)
            ∙ read_document id now _ (retained all)
                (retained-ArePlain all (append-ArePlain (read_thread is_alnum id files) t p q))

    -- A thread with another file name reads as before.
    pub append_turn-other :
        (id other : String) (t : Turn) (now : Value) (files : Threads)
        → thread_name is_alnum id ≢ thread_name is_alnum other
        → read_thread is_alnum other (append_turn is_alnum stored id t now files).1
          ≡ read_thread is_alnum other files
    unfolding append_turn read_thread
    append_turn-other id other t now files d =
        ap turns_in_file (there (thread_name is_alnum other) (thread_name is_alnum id) _ files d)
