-- ===== src/Server/Timer/Order.antt =====
-- The timer's queue as a schedule: sorted by start time, and no event is lost or made up.
use mathlib.Core.List.{Perm}
use mathlib.Core.List.Perm
use server_programming.Base.{
  ℕ, suc, ◌≤◌, ◌≡◌, refl, inl, inr, Bool-cases, Option, none, some, List, [], ◌∷◌, arith, leb,
}
use server_programming.Server.Timer.{TimerEvent, add_timer_event, take_due, less}

-- No event starts before `t`, and each starts no later than the next.
abbrev pub SortedFrom : ℕ → List TimerEvent → Type 0
SortedFrom t [] = Unit {0}
SortedFrom t (e ∷ queue) = (t ≤ e.start_time) × SortedFrom e.start_time queue

abbrev pub IsSorted : List TimerEvent → Type 0
IsSorted = SortedFrom 0

-- An event that starts no earlier than `t` keeps the queue sorted.
add-SortedFrom :
    (t : ℕ) (e : TimerEvent) (queue : List TimerEvent)
    → t ≤ e.start_time
    → SortedFrom t queue
    → SortedFrom t (add_timer_event e queue)
unfolding add_timer_event
add-SortedFrom t e [] h s = (h, tt)
add-SortedFrom t e (f ∷ queue) h s = ground (arith, add-SortedFrom f.start_time e queue)

add-perm : (e : TimerEvent) (queue : List TimerEvent) → Perm (add_timer_event e queue) (e ∷ queue)
unfolding add_timer_event
add-perm e [] = Perm.refl (e ∷ [])
add-perm e (f ∷ queue) = elim (Bool-cases (less f e)) [
  | inl before ↦ rw before (Perm.refl (e ∷ f ∷ queue))
  | inr behind ↦ rw behind (Perm.trans (Perm.cons f (add-perm e queue)) (Perm.swap e f queue))
]

-- A new event keeps the queue sorted, and the queue holds the old events and the new one.
pub add_timer_event-IsSorted :
    (e : TimerEvent) (queue : List TimerEvent)
    → IsSorted queue
    → IsSorted (add_timer_event e queue) × Perm (add_timer_event e queue) (e ∷ queue)
add_timer_event-IsSorted e queue s = (add-SortedFrom 0 e queue (omega arith) s, add-perm e queue)

pub SortedFrom-weaken :
    (t u : ℕ) (queue : List TimerEvent) → t ≤ u → SortedFrom u queue → SortedFrom t queue
SortedFrom-weaken t u [] h s = tt
SortedFrom-weaken t u (e ∷ queue) h s = (omega arith, s.1)

-- What `take_due` gives of a sorted queue: the due event that starts first, and the rest, still
-- sorted; or nothing, exactly if no event is due.
pub data Due (now : ℕ) (queue : List TimerEvent)
    : Option TimerEvent × List TimerEvent → Type 0 where
  due :
      (e : TimerEvent) (rest : List TimerEvent)
      → queue ≡ e ∷ rest
      → e.start_time ≤ now
      → SortedFrom e.start_time rest
      → Due now queue (some e, rest)
  waiting : SortedFrom (suc now) queue → Due now queue (none, queue)

-- Of a sorted queue `take_due` takes the event that starts first if it is due, and leaves the rest
-- sorted; it takes nothing exactly if no event of the queue is due.
pub take_due-Due :
    (now : ℕ) (queue : List TimerEvent) → IsSorted queue → Due now queue (take_due now queue)
unfolding take_due
take_due-Due now [] s = waiting tt
take_due-Due now (e ∷ queue) s = elim (Bool-cases (leb e.start_time now)) [
  | inl ready ↦ rw ready (due e queue refl (ground arith) s.1)
  | inr later ↦ rw later (waiting (ground arith, s.1))
]
