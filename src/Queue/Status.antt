-- ===== src/Queue/Status.antt =====
-- What a call does to the entries of the queue.
use text.Mathlib.Text.{◌==◌ as str_eq}
use mathlib.Core.Path.{subst}
use proof_ops.Common.{
  String, true, ◌≡◌, refl, ap, sym, ◌∙◌, Bool-cases, inl, inr, Option, some, none, List, [], ◌∷◌,
  is_empty, if◌then◌else◌, arith, eq_iff, Result, ok, err,
}
use proof_ops.Contracts.Value.{Value, mapping, Fields, no_binding, binding}
use proof_ops.Queue.Entry.{Status, pending, approved, expired, Entry, Mistake, Services, find, put}
use proof_ops.Queue.Store.{staged_of, stage, read_item}

-- What becomes of a status: `pending` is decided, and what was approved may expire.
pub data Later : Status → Status → Type 0 where
  stays : {s : Status} → Later s s
  decides : {s : Status} → Later pending s
  lapses : Later approved expired

pub Later-trans : {s t u : Status} → Later s t → Later t u → Later s u
Later-trans stays k = k
Later-trans decides k = decides
Later-trans lapses stays = lapses

-- The entries of a queue stay, with their request and action, and their status moves on.
pub record Kept (e : Entry) (l : List (String × Entry)) (id : String) : Type 0 where
  pub now_is : Entry
  pub placed : find id l ≡ some now_is
  pub same_request : now_is.request ≡ e.request
  pub same_action : now_is.action ≡ e.action
  pub moved : Later e.status now_is.status

-- No id stands twice in the queue.
abbrev pub Unique : List (String × Entry) → Type 0
Unique [] = Unit
Unique ((k, e) ∷ rest) = (find k rest ≡ none) × Unique rest

pub record Evolves (l m : List (String × Entry)) : Type 0 where
  pub keeps : (id : String) (e : Entry) → find id l ≡ some e → Kept e m id
  pub once : Unique m

pub find-put :
    {V : Type 0} (k j : String) (v : V) (l : List (String × V))
    → find k (put j v l) ≡ (if str_eq j k then some v else find k l)
unfolding find put
find-put k j v [] = refl
find-put k j v ((i, x) ∷ rest) =
    ground (arith, eq_iff i j, eq_iff i k, eq_iff j k, find-put k j v rest)

pub Unique-put :
    (k : String) (e : Entry) (l : List (String × Entry)) → Unique l → Unique (put k e l)
unfolding find put
Unique-put k e [] u = (refl, tt)
Unique-put k e ((j, x) ∷ rest) u = elim (Bool-cases (str_eq j k)) [
  | inl b ↦ rw b u
  | inr b ↦
      rw b
        (ground (arith, eq_iff j k, eq_iff k j, find-put j k e rest, u.0), Unique-put k e rest u.1)
]

pub stage-Unique :
    (services : Services) (l : List (String × Entry)) (fs : Fields) {m : List (String × Entry)}
    → Unique l
    → stage services l fs ≡ ok m
    → Unique m
unfolding stage
stage-Unique services l no_binding u h = subst Unique (ground arith) u
stage-Unique services l (binding id v fs) {m} u h =
    go (read_item services id v) h
      (λ e. stage-Unique services (put id e l) fs (Unique-put id e l u))
  where
    go :
        (x : Result Mistake Entry)
        → (elim x [ err y ↦ err y | ok e ↦ stage services (put id e l) fs ]) ≡ ok m
        → ((e : Entry) → stage services (put id e l) fs ≡ ok m → Unique m)
        → Unique m
    go (err y) p k = cc
    go (ok e) p k = k e p

pub staged_of-Unique :
    (services : Services) (doc : Option (Option Value)) {m : List (String × Entry)}
    → staged_of services doc ≡ ok m
    → Unique m
unfolding staged_of
staged_of-Unique services (some (some (mapping fs))) h = stage-Unique services [] fs tt h
staged_of-Unique services _ h = cc

pub Evolves-refl : (l : List (String × Entry)) → Unique l → Evolves l l
Evolves-refl l u = record {
  keeps = λ id e h. record {
    now_is = e;
    placed = h;
    same_request = refl;
    same_action = refl;
    moved = stays;
  };
  once = u;
}

pub Evolves-put :
    {l m : List (String × Entry)} (id : String) {e : Entry} (e' : Entry)
    → Evolves l m
    → find id m ≡ some e
    → e'.request ≡ e.request
    → e'.action ≡ e.action
    → Later e.status e'.status
    → Evolves l (put id e' m)
Evolves-put {l} {m} id {e} e' ev h r a later = record {
  keeps = go;
  once = Unique-put id e' m ev.once;
}
  where
    go : (k : String) (x : Entry) → find k l ≡ some x → Kept x (put id e' m) k
    go k x p =
        let q = ev.keeps k x p in
        elim (Bool-cases (str_eq id k)) [
          | inl same ↦
              let j : q.now_is ≡ e = ground (arith, eq_iff id k, q.placed, h) in
              record {
                now_is = e';
                placed = find-put k id e' m ∙ ap (λ b. if b then some e' else find k m) same;
                same_request = r ∙ ap (λ y. y.request) (sym j) ∙ q.same_request;
                same_action = a ∙ ap (λ y. y.action) (sym j) ∙ q.same_action;
                moved = Later-trans q.moved (subst (λ y. Later y.status e'.status) (sym j) later);
              }
          | inr other ↦ record {
            now_is = q.now_is;
            placed =
                find-put k id e' m ∙ ap (λ b. if b then some e' else find k m) other ∙ q.placed;
            same_request = q.same_request;
            same_action = q.same_action;
            moved = q.moved;
          }
        ]

-- A new id leaves the others as they are.
pub Evolves-new :
    {l m : List (String × Entry)} (id : String) (e' : Entry)
    → Evolves l m
    → find id m ≡ none
    → Evolves l (put id e' m)
Evolves-new {l} {m} id e' ev h = record { keeps = go; once = Unique-put id e' m ev.once }
  where
    go : (k : String) (x : Entry) → find k l ≡ some x → Kept x (put id e' m) k
    go k x p =
        let q = ev.keeps k x p in
        record {
          now_is = q.now_is;
          placed = ground (arith, find-put k id e' m, eq_iff id k, q.placed, h);
          same_request = q.same_request;
          same_action = q.same_action;
          moved = q.moved;
        }

pub Evolves-trans : {k l m : List (String × Entry)} → Evolves k l → Evolves l m → Evolves k m
Evolves-trans {k} {l} {m} f g = record { keeps = go; once = g.once }
  where
    go : (id : String) (e : Entry) → find id k ≡ some e → Kept e m id
    go id e h =
        let p = f.keeps id e h in
        let q = g.keeps id p.now_is p.placed in
        record {
          now_is = q.now_is;
          placed = q.placed;
          same_request = q.same_request ∙ p.same_request;
          same_action = q.same_action ∙ p.same_action;
          moved = Later-trans p.moved q.moved;
        }

empty_find : (k : String) {e : Entry} → find k [] ≡ some e → ⊥
unfolding find
empty_find k h = cc

-- Nothing was in a queue that evolved into an empty one.
pub Evolves-any :
    {l m : List (String × Entry)} (m' : List (String × Entry))
    → is_empty m ≡ true
    → Evolves l m
    → Unique m'
    → Evolves l m'
Evolves-any {m = []} m' empty ev u = record {
  keeps = λ k x p. absurd (empty_find k (ev.keeps k x p).placed);
  once = u;
}
Evolves-any {m = x ∷ m} m' empty ev u = cc
