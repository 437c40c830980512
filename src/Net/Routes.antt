-- ===== src/Net/Routes.antt =====
-- The tasks that src/net/MessageQueueService.cpp makes, and the messages that it hands to them.
use libbundle.Prelude.{
  subst, ℕ, ◌≤◌, ◌≡◌, ◌∙◌, ◌⊎◌, refl, sym, ap, Bool, true, false, ◌||◌, ◌&&◌, leb, take, Option,
  none, some, List, [], ◌∷◌, ◌++◌, Bytes, ◌==◌, ==_iff, if◌then◌else◌, length, All, arith,
  Bool-cases, Option-cases, inl, inr,
}
use mathlib.Core.Path.{ap₂}
use libbundle.ByteBuffer.{of_le}
use libbundle.Tables.{nat_key, value_at, contains_key, emplace}
use libbundle.Net.Queue.{
  Arrived, recv_failed, arrived, Checked, outside, refused, accepted, check_size, Tasks, spawn_task,
  task_for, handle_arrived, handle_all,
}

-- The length field is there.
abbrev pub HasLength : Arrived → Type 0
HasLength recv_failed = Unit
HasLength (arrived routeid q) = 4 ≤ length q

-- Each task stands under its own id.
abbrev pub IsOwn : Tasks → Type 0
IsOwn tasks = All (λ p. p.1 ≡ p.0) tasks

abbrev pub is_accepted : Checked → Bool
is_accepted accepted = true
is_accepted refused = false
is_accepted outside = false

-- A message that has as many bytes as its first four say, and not fewer than the twelve of a header.
abbrev pub is_valid : Bytes → Bool
is_valid q = leb 12 (length q) && (of_le (take 4 q) == length q)

-- The valid messages, with their routes, and whether there is one of a route.
abbrev pub valid_messages : List Arrived → List (ℕ × Bytes)
valid_messages [] = []
valid_messages (recv_failed ∷ more) = valid_messages more
valid_messages (arrived routeid q ∷ more) =
    let rest = valid_messages more in if is_valid q then (routeid, q) ∷ rest else rest

check_size-is_valid : (q : Bytes) → 4 ≤ length q → is_accepted (check_size q) ≡ is_valid q
unfolding check_size
check_size-is_valid q h = ground arith

-- The messages that pass the checks.
abbrev checked_messages : List Arrived → List (ℕ × Bytes)
checked_messages [] = []
checked_messages (recv_failed ∷ more) = checked_messages more
checked_messages (arrived routeid q ∷ more) =
    let rest = checked_messages more in
    if is_accepted (check_size q) then (routeid, q) ∷ rest else rest

checked-valid :
    (received : List Arrived)
    → All HasLength received
    → checked_messages received ≡ valid_messages received
checked-valid [] l = refl
checked-valid (recv_failed ∷ more) (la, l) = checked-valid more l
checked-valid (arrived routeid q ∷ more) (la, l) =
    ap₂ (λ b rest. if b then (routeid, q) ∷ rest else rest) (check_size-is_valid q la)
      (checked-valid more l)

abbrev pub has_route : ℕ → List (ℕ × Bytes) → Bool
has_route k [] = false
has_route k ((routeid, q) ∷ ms) = routeid == k || has_route k ms

own_value : (tasks : Tasks) (k t : ℕ) → IsOwn tasks → value_at tasks k ≡ some t → t ≡ k
unfolding value_at
own_value [] k t h e = ground arith
own_value ((i, v) ∷ tasks) k t (hi, h) e = grind (arith, own_value tasks k t h, ==_iff i k, hi)

-- What one message does.
After : Tasks → List (ℕ × Bytes) → Option (List (ℕ × Bytes) × Tasks) → Type 0
After tasks calls o =
    (tasks' : Tasks) × (o ≡ some (calls, tasks'))
    × IsOwn tasks'
    × ((k : ℕ) → contains_key tasks' k ≡ (contains_key tasks k || has_route k calls))

-- What a message makes of the task of its route.
abbrev called_with : Bytes → Option (ℕ × Tasks) → Option (List (ℕ × Bytes) × Tasks)
called_with q none = none
called_with q (some made) = some ((made.0, q) ∷ [], made.1)

handle_accepted :
    (routeid : ℕ) (q : Bytes) (tasks : Tasks) (made : ℕ × Tasks)
    → check_size q ≡ accepted
    → task_for routeid tasks ≡ some made
    → handle_arrived (arrived routeid q) tasks ≡ some ((made.0, q) ∷ [], made.1)
unfolding handle_arrived
handle_accepted routeid q tasks made c e = rw (handle_arrived, c, e) refl

handle_refused :
    (routeid : ℕ) (q : Bytes) (tasks : Tasks)
    → check_size q ≡ refused
    → handle_arrived (arrived routeid q) tasks ≡ some ([], tasks)
unfolding handle_arrived
handle_refused routeid q tasks c = rw (handle_arrived, c) refl

task_for_known :
    (routeid t : ℕ) (tasks : Tasks)
    → value_at tasks routeid ≡ some t
    → task_for routeid tasks ≡ some (t, tasks)
unfolding task_for
task_for_known routeid t tasks e = rw (task_for, e) refl

spawn_new :
    (routeid : ℕ) (tasks : Tasks)
    → value_at tasks routeid ≡ none
    → spawn_task routeid tasks ≡ (some routeid, (routeid, routeid) ∷ tasks)
unfolding spawn_task emplace contains_key
spawn_new routeid tasks e = rw (spawn_task, emplace, contains_key, e) refl

task_for_new :
    (routeid : ℕ) (tasks : Tasks)
    → value_at tasks routeid ≡ none
    → task_for routeid tasks ≡ some (routeid, (routeid, routeid) ∷ tasks)
unfolding task_for
task_for_new routeid tasks e =
    rw (task_for, e, spawn_new routeid tasks e)
      (ap (λ p. some (routeid, p.1)) (spawn_new routeid tasks e))

contains_known :
    (tasks : Tasks) (routeid t k : ℕ)
    → value_at tasks routeid ≡ some t
    → contains_key tasks k ≡ (contains_key tasks k || (routeid == k || false))
unfolding contains_key
contains_known tasks routeid t k e = elim (Bool-cases (routeid == k)) [
  | inl same ↦
      let there : value_at tasks k ≡ some t =
        ap (value_at tasks) (sym ((==_iff routeid k).0 same)) ∙ e in
      rw (same, there) refl
  | inr differs ↦ rw differs (ground arith)
]

contains_new :
    (tasks : Tasks) (routeid k : ℕ)
    → contains_key ((routeid, routeid) ∷ tasks) k
      ≡ (contains_key tasks k || (routeid == k || false))
unfolding contains_key value_at
contains_new tasks routeid k = ground arith

check_size_cases : (q : Bytes) → 4 ≤ length q → (check_size q ≡ refused) ⊎ (check_size q ≡ accepted)
unfolding check_size
check_size_cases q h = ground arith

handle_known :
    (routeid t : ℕ) (q : Bytes) (tasks : Tasks)
    → IsOwn tasks
    → check_size q ≡ accepted
    → value_at tasks routeid ≡ some t
    → After tasks ((routeid, q) ∷ []) (handle_arrived (arrived routeid q) tasks)
unfolding After
handle_known routeid t q tasks h c e = (
  tasks,
  handle_accepted routeid q tasks (t, tasks) c (task_for_known routeid t tasks e)
      ∙ ap (λ n. some ((n, q) ∷ [], tasks)) (own_value tasks routeid t h e),
  h,
  λ k. contains_known tasks routeid t k e,
)

handle_new :
    (routeid : ℕ) (q : Bytes) (tasks : Tasks)
    → IsOwn tasks
    → check_size q ≡ accepted
    → value_at tasks routeid ≡ none
    → After tasks ((routeid, q) ∷ []) (handle_arrived (arrived routeid q) tasks)
unfolding After
handle_new routeid q tasks h c e = (
  (routeid, routeid) ∷ tasks,
  handle_accepted routeid q tasks (routeid, (routeid, routeid) ∷ tasks) c
      (task_for_new routeid tasks e),
  (refl, h),
  λ k. contains_new tasks routeid k,
)

handle_nothing :
    (a : Arrived) (tasks : Tasks)
    → IsOwn tasks
    → handle_arrived a tasks ≡ some ([], tasks)
    → After tasks [] (handle_arrived a tasks)
unfolding After
handle_nothing a tasks h e = (tasks, e, h, λ k. ground arith)

handle_single :
    (a : Arrived) (tasks : Tasks)
    → HasLength a
    → IsOwn tasks
    → After tasks (checked_messages (a ∷ [])) (handle_arrived a tasks)
unfolding handle_arrived
handle_single recv_failed tasks l h = handle_nothing recv_failed tasks h refl
handle_single (arrived routeid q) tasks l h =
    let Then : Checked → Type 0 = λ c.
      After tasks (if is_accepted c then (routeid, q) ∷ [] else [])
        (handle_arrived (arrived routeid q) tasks) in
    elim (check_size_cases q l) [
      | inl bad ↦
          subst Then (sym bad)
            (handle_nothing (arrived routeid q) tasks h (handle_refused routeid q tasks bad))
      | inr ok ↦ elim (Option-cases (value_at tasks routeid)) [
        | inl e ↦ subst Then (sym ok) (handle_new routeid q tasks h ok e)
        | inr (t, e) ↦ subst Then (sym ok) (handle_known routeid t q tasks h ok e)
      ]
    ]

checked_messages_cons :
    (a : Arrived) (more : List Arrived)
    → checked_messages (a ∷ more) ≡ checked_messages (a ∷ []) ++ checked_messages more
checked_messages_cons recv_failed more = refl
checked_messages_cons (arrived routeid q) more = ground arith

has_route-append :
    (k : ℕ) (ms ns : List (ℕ × Bytes)) → has_route k (ms ++ ns) ≡ (has_route k ms || has_route k ns)
has_route-append k [] ns = refl
has_route-append k ((routeid, q) ∷ ms) ns = ground (arith, has_route-append k ms ns)

or_assoc : (a b c : Bool) → ((a || b) || c) ≡ (a || (b || c))
or_assoc a b c = ground arith

handle_cons :
    (a : Arrived) (more : List Arrived) (tasks tasks1 tasks2 : Tasks) (one rest : List (ℕ × Bytes))
    → handle_arrived a tasks ≡ some (one, tasks1)
    → handle_all more tasks1 ≡ some (rest, tasks2)
    → handle_all (a ∷ more) tasks ≡ some (one ++ rest, tasks2)
unfolding handle_all
handle_cons a more tasks tasks1 tasks2 one rest e f = rw (handle_all, e, f) refl

handle_all_checked :
    (received : List Arrived) (tasks : Tasks)
    → All HasLength received
    → IsOwn tasks
    → (tasks' : Tasks) × (handle_all received tasks ≡ some (checked_messages received, tasks'))
      × IsOwn tasks'
      × ((k : ℕ)
          → contains_key tasks' k
            ≡ (contains_key tasks k || has_route k (checked_messages received)))
unfolding After
handle_all_checked [] tasks l h = (tasks, unfold handle_all in refl, h, λ k. ground arith)
handle_all_checked (a ∷ more) tasks (la, l) h =
    let (tasks1, e, h1, c1) = handle_single a tasks la h in
    let (tasks2, f, h2, c2) = handle_all_checked more tasks1 l h1 in
    let here = checked_messages (a ∷ []) in
    let there = checked_messages more in
    (
      tasks2,
      handle_cons a more tasks tasks1 tasks2 here there e f
          ∙ ap (λ ms. some (ms, tasks2)) (sym (checked_messages_cons a more)),
      h2,
      λ k.
          c2 k
          ∙ ap (λ b. b || has_route k there) (c1 k)
          ∙ or_assoc (contains_key tasks k) (has_route k here) (has_route k there)
          ∙ ap (λ b. contains_key tasks k || b)
              (sym (has_route-append k here there)
                ∙ ap (has_route k) (sym (checked_messages_cons a more))),
    )

-- Whatever arrives, in messages of at least four bytes: the parser is called for exactly the messages whose length
-- is what they say and not below that of a header, in their order and each with the task of its route; and
-- afterwards there are tasks for exactly the routes that had one before or have sent such a message, each under
-- its own id.
pub handle_all_lem :
    (received : List Arrived) (tasks : Tasks)
    → All HasLength received
    → IsOwn tasks
    → (tasks' : Tasks) × (handle_all received tasks ≡ some (valid_messages received, tasks'))
      × IsOwn tasks'
      × ((k : ℕ)
          → contains_key tasks' k ≡ (contains_key tasks k || has_route k (valid_messages received)))
handle_all_lem received tasks l h =
    subst
      (λ ms.
        (tasks' : Tasks) × (handle_all received tasks ≡ some (ms, tasks'))
        × IsOwn tasks'
        × ((k : ℕ) → contains_key tasks' k ≡ (contains_key tasks k || has_route k ms)))
      (checked-valid received l) (handle_all_checked received tasks l h)
