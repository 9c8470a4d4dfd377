-- ===== src/Approval/Nonces.antt =====
-- backend/app/services/approval.py: `NonceStore`, with what the disk does in a call as an argument.
-- `limit` is `MAX_NONCES`, and `recovered` gives the stripped lines that are read back for one
-- written record.
use proof_ops.Common.{
  ℕ, ◌-◌, String, Bool, true, false, Option, none, some, List, [], ◌∷◌, ◌++◌, ◌==◌, ltb, length,
  drop, contains, if◌then◌else◌, take_chars,
}
use Prim.Native.String.{◌++◌ as str_append}
use text.Mathlib.Text.{◌==◌ as str_eq}

abbrev pub max_nonces : ℕ
max_nonces = 100000

-- What becomes of the line appended to the log: it is there, or OSError is raised with nothing of it,
-- with its first characters, or with all of it in the file.
pub data Append : Type 0 where
  appended unwritten unsynced : Append
  torn : ℕ → Append

-- What becomes of the compacted log; the last raises OSError before anything is written.
pub data Replace : Type 0 where
  replaced kept_old no_temporary : Replace

pub record Disk : Type 0 where
  pub append : Append
  pub replace : Replace

-- `log` is the whole lines of the file, nothing where the store has no path; `tail` is what the file
-- holds behind the last of them.
pub record NonceStore : Type 0 where
  pub used : List String
  pub order : List String
  pub log : Option (List String)
  pub tail : String
  pub degraded : Bool

-- `if nonce and nonce not in self._used`, oldest first.
unfoldable pub remember : List String → List String → List String
remember known [] = known
remember known (n ∷ ns) =
    remember (if str_eq n "" then known else if contains known n then known else known ++ n ∷ []) ns

unfoldable pub all_recovered : (String → List String) → List String → List String
all_recovered recovered [] = []
all_recovered recovered (r ∷ rs) = recovered r ++ all_recovered recovered rs

-- `__init__` without a path, over a readable file, and over one that cannot be read.
abbrev pub memory_store : NonceStore
memory_store = record { used = []; order = []; log = none; tail = ""; degraded = false }

-- `read_text().splitlines()`: what stands behind the last whole line is read as a line too.
abbrev pub lines_of : List String → String → List String
lines_of records tail = if str_eq tail "" then records else records ++ tail ∷ []

unfoldable pub open_store : (String → List String) → List String → String → NonceStore
unfolding remember all_recovered
open_store recovered records tail =
    let known = remember [] (all_recovered recovered (lines_of records tail)) in
    record { used = known; order = known; log = some records; tail = tail; degraded = false }

abbrev pub unreadable_store : NonceStore
unreadable_store = record (memory_store) { degraded = true }

-- `self._order[-limit:]`; a slice from -0 is the whole list.
unfoldable pub newest : ℕ → List String → List String
newest limit order = if limit == 0 then order else drop (length order - limit) order

-- The log after `_compact_locked`.
abbrev pub replaced_log : Replace → List String → List String → List String
replaced_log replaced keep records = keep
replaced_log kept_old keep records = records
replaced_log no_temporary keep records = records

-- `_compact_locked`, and the handler around it in `consume`.
unfoldable pub compact : ℕ → Replace → List String → NonceStore → NonceStore
unfolding newest
compact limit outcome records s =
    let keep = newest limit s.order in
    record s {
      used = keep;
      order = keep;
      log = some (replaced_log outcome keep records);
      degraded = elim outcome [
        | replaced ↦ s.degraded
        | kept_old ↦ s.degraded
        | no_temporary ↦ true
      ];
    }

-- The part of `consume` that writes, for a store with a path: the nonce continues the line that the
-- file ends with.
unfoldable pub write_log : ℕ → Disk → String → List String → NonceStore → NonceStore
unfolding compact
write_log limit disk nonce records s =
    let records' = records ++ str_append s.tail nonce ∷ [] in
    elim disk.append [
      | appended ↦
          if ltb limit (length s.used)
          then compact limit disk.replace records' (record s { tail = "" })
          else record s { log = some records'; tail = "" }
      | unwritten ↦ record s { degraded = true }
      | unsynced ↦ record s { log = some records'; tail = ""; degraded = true }
      | torn n ↦ record s { tail = str_append s.tail (take_chars n nonce); degraded = true }
    ]

unfoldable pub burn : ℕ → Disk → String → NonceStore → NonceStore
unfolding write_log
burn limit disk nonce s =
    let s' = record s { used = nonce ∷ s.used; order = s.order ++ nonce ∷ [] } in
    elim s.log [ none ↦ s' | some records ↦ write_log limit disk nonce records s' ]

-- True where the nonce was fresh.
unfoldable pub consume : ℕ → Disk → String → NonceStore → Bool × NonceStore
unfolding burn
consume limit disk nonce s =
    if contains s.used nonce then (false, s) else (true, burn limit disk nonce s)

-- `clear`; where the file cannot be removed it stays.
unfoldable pub clear : Bool → NonceStore → NonceStore
clear removed s = record s {
  used = [];
  order = [];
  log = elim s.log [ none ↦ none | some records ↦ some (if removed then [] else records) ];
  tail = if removed then "" else s.tail;
}

-- Further calls of `consume`.
unfoldable pub consume_all : ℕ → List (String × Disk) → NonceStore → NonceStore
unfolding consume
consume_all limit [] s = s
consume_all limit ((nonce, disk) ∷ calls) s = consume_all limit calls (consume limit disk nonce s).1
