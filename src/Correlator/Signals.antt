-- ===== src/Correlator/Signals.antt =====
-- backend/app/services/correlator.py: the fingerprint, the deploy window, the similarity of
-- signatures, the edges of the topology, and the severity.
use Prim.Native.Char.{code}
use Prim.Native.String.{String, ◌++◌ as str_append}
use text.Mathlib.Text.{◌==◌ as str_eq}
use proof_ops.Common.{
  take_chars, ℕ, ◌+◌, ◌*◌, Bool, true, false, not, ◌&&◌, ◌||◌, ◌==◌, Option, none, some, List, [],
  ◌∷◌, ◌++◌, length, leb, ltb, contains, if◌then◌else◌, Result, ok, err,
}
use proof_ops.Contracts.Value.{
  Value, null, flag, str, sequence, mapping, Items, no_item, item, Fields, get,
}
use proof_ops.Execution.Numbers.{Casts, str_of}
use proof_ops.Pipeline.Report.{occurs_in}
use proof_ops.Correlator.Alert.{Fault, topology_malformed, float_overflow, distance}

-- DEPLOY_WINDOW_S
abbrev pub deploy_window : ℕ
deploy_window = 900000000

-- A number that is read: nothing where it is passed over, and an integer beyond the floats raises
-- OverflowError.
pub data Reading (A : Type 0) : Type 0 where
  found : A → Reading A
  no_number too_large : Reading A

-- What is given: SHA-256, `float(v or 0)` in microseconds of what is no Boolean, `str`, and the floats
-- of the error rate; `reading` is of a finite number that is no Boolean.
pub record Measures (F : Type 0) : Type 0 where
  pub sha256_hex : String → String
  pub ticks_of : Option Value → Reading ℕ
  pub casts : Casts
  pub lt : F → F → Bool
  pub nought : F
  pub one_percent : F
  pub five_percent : F
  pub reading : Option Value → Reading F

-- `d.get("service") == service`
abbrev pub names : Option Value → String → Bool
names (some (str s)) t = str_eq s t
names _ t = false

abbrev pub is_flag : Option Value → Bool
is_flag (some (flag b)) = true
is_flag _ = false

-- `a.split("_")`
abbrev onto_first : Bool → String → List String → List String
onto_first true c parts = "" ∷ parts
onto_first false c [] = c ∷ []
onto_first false c (p ∷ parts) = str_append c p ∷ parts

unfoldable pub split_words : String → List String
split_words String.[] = "" ∷ []
split_words (String.◌∷◌ c s) = onto_first (code c == 95) (String.◌∷◌ c String.[]) (split_words s)

-- `set(xs)`, and the number of its elements that are in another one.
abbrev pub distinct : List String → List String
distinct [] = []
distinct (x ∷ xs) = if contains xs x then distinct xs else x ∷ distinct xs

abbrev pub shared : List String → List String → ℕ
shared [] ys = 0
shared (x ∷ xs) ys = let rest = shared xs ys in if contains ys x then rest + 1 else rest

-- `_sig_sim(a, b) > 0.7`
unfoldable pub is_similar : String → String → Bool
unfolding split_words
is_similar a b =
    not (str_eq a "")
    && not (str_eq b "")
    && ltb (7 * length (distinct (split_words a ++ split_words b)))
        (10 * shared (distinct (split_words a)) (split_words b))

-- `_topology_edges`; a pair is unordered.
abbrev pub service_of : Option Value → Option String
service_of none = some ""
service_of (some null) = some ""
service_of (some (str s)) = some s
service_of (some _) = none

abbrev pub dependencies_of : Option Value → Option Items
dependencies_of none = some no_item
dependencies_of (some null) = some no_item
dependencies_of (some (sequence vs)) = some vs
dependencies_of (some _) = none

abbrev pub dependency : Value → Option String
dependency (str s) = if str_eq s "" then none else some s
dependency _ = none

unfoldable pub edges_from : String → Items → Result Fault (List (String × String))
edges_from s no_item = ok []
edges_from s (item v vs) = elim (dependency v) [
  | none ↦ err topology_malformed
  | some d ↦ elim (edges_from s vs) [ err x ↦ err x | ok es ↦ ok ((s, d) ∷ es) ]
]

abbrev pub edges_between : Option String → Option Items → Result Fault (List (String × String))
edges_between (some s) (some no_item) = ok []
edges_between (some s) (some (item v vs)) =
    if str_eq s "" then err topology_malformed else edges_from s (item v vs)
edges_between none _ = err topology_malformed
edges_between (some s) none = err topology_malformed

unfoldable pub topology_edges : Value → Result Fault (List (String × String))
unfolding edges_from
topology_edges (mapping fs) =
    edges_between (service_of (get "service" fs)) (dependencies_of (get "depends_on" fs))
topology_edges _ = err topology_malformed

-- `frozenset((a, b)) in edges`
abbrev pub is_edge : List (String × String) → String → String → Bool
is_edge [] a b = false
is_edge ((s, d) ∷ es) a b = str_eq s a && str_eq d b || str_eq s b && str_eq d a || is_edge es a b

module _ {F : Type 0} (measures : Measures F) where
  -- `fingerprint`
  unfoldable pub fingerprint : String → String → String → String → String
  fingerprint service sig env deploy_id = take_chars 16 (
      measures.sha256_hex (
        str_append service (
          str_append "|"
            (str_append sig (str_append "|" (str_append env (str_append "|" deploy_id)))))))

  -- `_deploy_in_window`
  abbrev pub deploy_id_of : Option Value → String
  deploy_id_of none = "none"
  deploy_id_of (some v) = str_of measures.casts v

  abbrev pub deployed_at : Fields → Reading ℕ
  deployed_at fs = if is_flag (get "ts" fs) then no_number else measures.ticks_of (get "ts" fs)

  abbrev pub is_deploy_near : Fields → String → ℕ → ℕ → Bool
  is_deploy_near fs service at ts =
      names (get "service" fs) service && leb (distance at ts) deploy_window

  unfoldable pub deploy_in_window : List Value → String → ℕ → Result Fault String
  deploy_in_window [] service ts = ok "none"
  deploy_in_window (mapping fs ∷ ds) service ts =
      let later = deploy_in_window ds service ts in
      elim (deployed_at fs) [
        | found at ↦
            if is_deploy_near fs service at ts
            then ok (deploy_id_of (get "deploy_id" fs))
            else later
        | no_number ↦ later
        | too_large ↦ err float_overflow
      ]
  deploy_in_window (_ ∷ ds) service ts = deploy_in_window ds service ts

  -- `_service_max_err`
  abbrev pub is_own : Option Value → String → Bool
  is_own none service = true
  is_own (some null) service = true
  is_own (some (str s)) service = str_eq s "" || str_eq s service
  is_own (some _) service = false

  abbrev pub worse : F → Reading F → Result Fault F
  worse best (found x) = ok (if measures.lt best x then x else best)
  worse best no_number = ok best
  worse best too_large = err float_overflow

  abbrev pub reading_of : Fields → String → Reading F
  reading_of fs service =
      if names (get "name" fs) "error_rate" && is_own (get "service" fs) service
      then measures.reading (get "value" fs)
      else no_number

  unfoldable pub max_err_from : F → List Value → String → Result Fault F
  max_err_from best [] service = ok best
  max_err_from best (mapping fs ∷ ms) service = elim (worse best (reading_of fs service)) [
    | err x ↦ err x
    | ok worst ↦ max_err_from worst ms service
  ]
  max_err_from best (_ ∷ ms) service = max_err_from best ms service

  unfoldable pub service_max_err : List Value → String → Result Fault F
  unfolding max_err_from
  service_max_err metrics service = max_err_from measures.nought metrics service

-- `Severity`
pub data Severity : Type 0 where
  p1 p2 p3 p4 : Severity

module _ {F : Type 0} (measures : Measures F) where
  -- `_severity`, over the group's signature and environment.
  unfoldable pub severity : String → String → F → Severity
  severity sig env max_err =
      if (str_eq sig "flapping_probe" || str_eq sig "cpu_blip")
        && measures.lt max_err measures.one_percent
      then p4
      else if str_eq sig "suspicious_log_instruction"
      then p1
      else if str_eq env "prod"
          && (measures.lt measures.five_percent max_err
              || occurs_in "spike" sig
              || occurs_in "exhausted" sig)
      then p1
      else if str_eq env "prod"
      then p2
      else p3
