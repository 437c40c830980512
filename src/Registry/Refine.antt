-- ===== src/Registry/Refine.antt =====
-- src/tools/Registry.cpp against its abstract view, a function from keys to strings.
use libbundle.Prelude.{
  ◌≡◌, ◌∙◌, refl, sym, ap, Bool, true, false, Option, none, some, List, [], ◌∷◌, Bytes,
  if◌then◌else◌, Option-cases, inl, inr,
}
use mathlib.Core.Path.{fun_ext}
use libbundle.Tables.{
  bytes_key, value_at, contains_key, emplace, is_present, update, value_at-without,
}
use libbundle.Clib.{c_str}
use libbundle.Registry.{Registry, set_value, get_value, find_key, remove_key, clear}

-- A call from outside.
pub data Command : Type 0 where
  call_set : Bytes → Bytes → Command
  call_get call_find call_remove : Bytes → Command
  call_clear : Command

-- What a call returns.
pub data Answer : Type 0 where
  said : Bool → Answer
  text : Option Bytes → Answer
  nothing : Answer

abbrev pub perform : Command → Registry → Answer × Registry
perform (call_set k v) r = (said (set_value k v r).0, (set_value k v r).1)
perform (call_get k) r = (text (get_value k r), r)
perform (call_find k) r = (said (find_key k r), r)
perform (call_remove k) r = (nothing, remove_key k r)
perform call_clear r = (nothing, clear r)

abbrev pub Mapping : Type 0
Mapping = Bytes → Option Bytes

-- The calls on a function: only a key without a value gets one.
abbrev pub specified : Command → Mapping → Answer × Mapping
specified (call_set k v) f =
    if is_present (f k) then (said false, f) else (said true, update f k (some (c_str v)))
specified (call_get k) f = (text (f k), f)
specified (call_find k) f = (said (is_present (f k)), f)
specified (call_remove k) f = (nothing, update f k none)
specified call_clear f = (nothing, λ k. none)

module _ {S : Type 0} (step : Command → S → Answer × S) where
  -- The answers to a list of calls, and the state behind them.
  abbrev pub run : List Command → S → List Answer × S
  run [] s = ([], s)
  run (c ∷ cs) s = let next = step c s in let rest = run cs next.1 in (next.0 ∷ rest.0, rest.1)

abbrev pub lookups : Registry → Mapping
lookups r k = get_value k r

-- One call.
perform-specified :
    (c : Command) (r : Registry)
    → (specified c (lookups r)).0 ≡ (perform c r).0
      × (specified c (lookups r)).1 ≡ lookups (perform c r).1
unfolding set_value get_value find_key remove_key emplace contains_key value_at
perform-specified (call_set k v) r = elim (Option-cases (value_at r k)) [
  | inl e ↦ rw e (refl, refl)
  | inr (w, e) ↦ rw e (refl, refl)
]
perform-specified (call_get k) r = (refl, refl)
perform-specified (call_find k) r = (refl, refl)
perform-specified (call_remove k) r = (refl, fun_ext λ j. sym (value_at-without r k j))
perform-specified call_clear r = (refl, refl)

-- For every list of calls of `setValue`, `getValue`, `findKey`, `removeKey` and `clear` on every table, the
-- calls return what they return on the function from keys to values that the table stands for, and the table
-- behind them stands for the function behind them. There, a value is set only where there is none.
pub run-specified :
    (cs : List Command) (r : Registry)
    → (run specified cs (lookups r)).0 ≡ (run perform cs r).0
      × (run specified cs (lookups r)).1 ≡ lookups (run perform cs r).1
run-specified [] r = (refl, refl)
run-specified (c ∷ cs) r =
    let one = perform-specified c r in
    let more = run-specified cs (perform c r).1 in
    (
      ap (λ a. a ∷ (run specified cs (specified c (lookups r)).1).0) one.0
          ∙ ap (λ f. (perform c r).0 ∷ (run specified cs f).0) one.1
          ∙ ap (λ a. (perform c r).0 ∷ a) more.0,
      ap (λ f. (run specified cs f).1) one.1 ∙ more.1,
    )
