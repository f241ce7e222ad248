-- ===== src/Server/Threads/Shutdown.antt =====
-- SIGINT ends all network threads.
use server_programming.Base.{
  ℕ, zero, suc, ◌+◌, ◌-◌, ◌*◌, ◌≤◌, ◌≡◌, ◌⊎◌, refl, sym, ap, ◌∙◌, inl, inr, true, Bool-cases, some,
  Option-cases, List, [], ◌∷◌, ◌++◌, arith, ltb, length, subst, append_assoc, append-nil,
}
use server_programming.Server.Threads.{
  Entry, null, work, Threads, max_threads, run, post_to_completion_queue, post_nulls,
  signal_handler, take_entry, get_completion_info, next_round, caught, Event, take, back, throw,
  completes, happen, all_happen, cost, thread_steps, can_go,
}

unfoldable nulls : List Entry → ℕ
nulls [] = 0
nulls (null ∷ entries) = suc (nulls entries)
nulls (work ∷ entries) = nulls entries

-- The entries up to the last null one that the threads will take are enough to end them all, and
-- `m` bounds the steps until then.
record Ends (t : Threads) (m : ℕ) : Type 0 where
  front : List Entry
  behind : List Entry
  split : t.entries ≡ front ++ behind
  enough : t.waiting + t.busy ≤ nulls front
  bound : 2 * length front + t.busy ≤ m

waits : (t u : Threads) → get_completion_info t ≡ some u → 1 ≤ t.waiting
unfolding get_completion_info
waits t u e = ground arith

got :
    (t u : Threads) (first : Entry) (rest : List Entry)
    → t.entries ≡ first ∷ rest
    → get_completion_info t ≡ some u
    → take_entry first (record t { entries = rest }) ≡ u
unfolding get_completion_info
got t u first rest split e = ground arith

take-Ends :
    (t u : Threads) (m : ℕ) → get_completion_info t ≡ some u → Ends t m → (1 ≤ m) × Ends u (m - 1)
unfolding get_completion_info nulls take_entry
take-Ends t u m e ends = by_front ends.front ends.split ends.enough ends.bound
  where
    by_front :
        (front : List Entry)
        → t.entries ≡ front ++ ends.behind
        → t.waiting + t.busy ≤ nulls front
        → 2 * length front + t.busy ≤ m
        → (1 ≤ m) × Ends u (m - 1)
    by_front [] split enough bound = absurd (ground (arith, waits t u e))
    by_front (null ∷ front) split enough bound = (
      ground (arith, waits t u e),
      subst (λ v. Ends v (m - 1)) (got t u null _ split e)
          (record {
            front = front;
            behind = ends.behind;
            split = refl;
            enough = ground (arith, waits t u e);
            bound = ground (arith, waits t u e);
          }),
    )
    by_front (work ∷ front) split enough bound = (
      ground (arith, waits t u e),
      subst (λ v. Ends v (m - 1)) (got t u work _ split e)
          (record {
            front = front;
            behind = ends.behind;
            split = refl;
            enough = ground (arith, waits t u e);
            bound = ground (arith, waits t u e);
          }),
    )

next_round-cases :
    (t u : Threads)
    → next_round t ≡ some u
    → (1 ≤ t.busy)
      × (u.entries ≡ t.entries)
      × (u.waiting + u.busy ≤ t.waiting + t.busy)
      × (suc u.busy ≤ t.busy)
unfolding next_round
next_round-cases t u e = elim (Bool-cases (ltb 0 t.busy)) [
  | inr idle ↦ absurd (ground arith)
  | inl busy ↦ elim (Bool-cases t.loop) [ inl on ↦ ground arith | inr off ↦ ground arith ]
]

caught-cases :
    (t u : Threads)
    → caught t ≡ some u
    → (1 ≤ t.busy)
      × (u.entries ≡ t.entries)
      × (u.waiting + u.busy ≤ t.waiting + t.busy)
      × (suc u.busy ≤ t.busy)
unfolding caught
caught-cases t u e = ground arith

-- A busy thread goes on or ends.
fewer-Ends :
    (t u : Threads) (m : ℕ)
    → (1 ≤ t.busy)
      × (u.entries ≡ t.entries)
      × (u.waiting + u.busy ≤ t.waiting + t.busy)
      × (suc u.busy ≤ t.busy)
    → Ends t m
    → (1 ≤ m) × Ends u (m - 1)
fewer-Ends t u m (some_busy, entries, fewer, less) ends = (
  omega (arith, ends.bound),
  record {
    front = ends.front;
    behind = ends.behind;
    split = entries ∙ ends.split;
    enough = omega (arith, ends.enough);
    bound = omega (arith, ends.bound);
  },
)

happen-Ends :
    (event : Event) (t u : Threads) (m : ℕ)
    → happen event t ≡ some u
    → Ends t m
    → (cost event ≤ m) × Ends u (m - cost event)
unfolding happen cost post_to_completion_queue
happen-Ends take t u m e ends = take-Ends t u m e ends
happen-Ends back t u m e ends = fewer-Ends t u m (next_round-cases t u e) ends
happen-Ends throw t u m e ends = fewer-Ends t u m (caught-cases t u e) ends
happen-Ends completes t u m e ends =
    let posted : post_to_completion_queue t work ≡ u = ground arith in
    (
      omega arith,
      subst (λ v. Ends v (m - 0)) posted
          (record {
            front = ends.front;
            behind = ends.behind ++ (work ∷ []);
            split =
                ap (λ (l : List Entry). l ++ (work ∷ [])) ends.split
                ∙ append_assoc ends.front ends.behind (work ∷ []);
            enough = ends.enough;
            bound = omega (arith, ends.bound);
          }),
    )

all-Ends :
    (events : List Event) (t u : Threads) (m : ℕ)
    → all_happen events t ≡ some u
    → Ends t m
    → (thread_steps events ≤ m) × Ends u (m - thread_steps events)
unfolding all_happen thread_steps
all-Ends [] t u m e ends =
    (omega arith, subst (Ends u) (omega arith) (subst (λ v. Ends v m) (ground arith) ends))
all-Ends (event ∷ events) t u m e ends = elim (Option-cases (happen event t)) [
  | inl stuck ↦ absurd (ground (arith, stuck))
  | inr (v, first) ↦
      let (few, ends') = happen-Ends event t v m first ends in
      let (more, ends'') =
        all-Ends events v u (m - cost event) (rw (first, all_happen) at e) ends' in
      (omega arith, subst (Ends u) (omega arith) ends'')
]

nulls-post : (entries : List Entry) → nulls (entries ++ (null ∷ [])) ≡ suc (nulls entries)
unfolding nulls
nulls-post [] = refl
nulls-post (null ∷ entries) = ap suc (nulls-post entries)
nulls-post (work ∷ entries) = nulls-post entries

posted :
    (count : ℕ) (t : Threads)
    → let u = post_nulls count t in
      (u.waiting ≡ t.waiting) × (u.busy ≡ t.busy) × (nulls u.entries ≡ nulls t.entries + count)
unfolding post_nulls post_to_completion_queue
posted zero t = (refl, refl, omega arith)
posted (suc count) t =
    let (waiting, busy, all) = posted count (post_to_completion_queue t null) in
    (waiting, busy, all ∙ omega (arith, nulls-post t.entries))

signal-Ends :
    (t : Threads)
    → t.waiting + t.busy ≤ max_threads
    → Ends (signal_handler t) (2 * length (signal_handler t).entries + t.busy)
unfolding signal_handler
signal-Ends t few =
    let (waiting, busy, all) = posted max_threads t in
    record {
      front = (signal_handler t).entries;
      behind = [];
      split = sym (append-nil (signal_handler t).entries);
      enough = omega arith;
      bound = omega arith;
    }

-- The threads are never more than at the start.
happen-few :
    (event : Event) (t u : Threads)
    → happen event t ≡ some u
    → u.waiting + u.busy ≤ t.waiting + t.busy
unfolding happen post_to_completion_queue take_entry get_completion_info
happen-few take t u e = by_entries t.entries refl
  where
    by_entries :
        (entries : List Entry) → t.entries ≡ entries → u.waiting + u.busy ≤ t.waiting + t.busy
    by_entries [] split = absurd (ground arith)
    by_entries (null ∷ rest) split =
        subst (λ (v : Threads). v.waiting + v.busy ≤ t.waiting + t.busy) (got t u null rest split e)
          (omega arith)
    by_entries (work ∷ rest) split =
        subst (λ (v : Threads). v.waiting + v.busy ≤ t.waiting + t.busy) (got t u work rest split e)
          (omega (arith, waits t u e))
happen-few back t u e = (next_round-cases t u e).2
happen-few throw t u e = (caught-cases t u e).2
happen-few completes t u e = ground arith

Ends-over : (t : Threads) (m : ℕ) → Ends t m → (t.waiting + t.busy ≡ 0) ⊎ (can_go t ≡ true)
unfolding can_go get_completion_info next_round nulls
Ends-over t m ends = elim (Bool-cases (ltb 0 t.busy)) [
  | inl busy ↦ inr (ground arith)
  | inr idle ↦ elim (Bool-cases (ltb 0 t.waiting)) [
    | inr none_waits ↦ inl (ground arith)
    | inl waits ↦ inr (by_front ends.front ends.split (ground (arith, ends.enough)) waits)
  ]
]
  where
    by_front :
        (front : List Entry)
        → t.entries ≡ front ++ ends.behind
        → 1 ≤ nulls front
        → ltb 0 t.waiting ≡ true
        → can_go t ≡ true
    by_front [] split some_null waits = absurd (ground arith)
    by_front (first ∷ front) split some_null waits = ground arith

all-few :
    (events : List Event) (t u : Threads)
    → all_happen events t ≡ some u
    → u.waiting + u.busy ≤ t.waiting + t.busy
unfolding all_happen
all-few [] t u e = ground arith
all-few (event ∷ events) t u e = elim (Option-cases (happen event t)) [
  | inl stuck ↦ absurd (ground (arith, stuck))
  | inr (v, first) ↦
      let later = all-few events v u (rw (first, all_happen) at e) in
      let now = happen-few event t v first in omega (arith, later, now)
]

-- Whatever happens from the start of the network threads until SIGINT and then, in whatever order: the
-- threads take at most twice as many more steps as there are entries when the handler of the signal
-- has returned, and one for each thread that was busy; and until every thread has ended, some thread
-- can take a step.
pub threads_end :
    (before after : List Event) (t u : Threads)
    → all_happen before run ≡ some t
    → all_happen after (signal_handler t) ≡ some u
    → (thread_steps after ≤ 2 * length (signal_handler t).entries + t.busy)
      × ((u.waiting + u.busy ≡ 0) ⊎ (can_go u ≡ true))
unfolding run
threads_end before after t u started stopped =
    let ends = signal-Ends t (omega (arith, all-few before run t started)) in
    let (few, ends') = all-Ends after (signal_handler t) u _ stopped ends in
    (few, Ends-over u _ ends')
