-- ===== src/Server/Threads.antt =====
-- The network threads of the server and the queue that they share: how they start and how they are
-- told to end (GameServer/Server/IOCPServer.cpp, GameServer/Network/IOCP.cpp). The threads do the
-- same, so the model counts how many of them wait for an entry, handle one, and have ended. The
-- completion port hands its entries out in their order, each to one thread.
pub mod Shutdown
use server_programming.Base.{
  ℕ, zero, suc, ◌+◌, ◌-◌, Bool, true, false, Option, none, some, List, [], ◌∷◌, ◌++◌, ltb,
  if◌then◌else◌,
}

-- An entry without a record, and one with a record, whose operation has succeeded or failed.
pub data Entry : Type 0 where
  null work : Entry

pub record Threads : Type 0 where
  pub waiting : ℕ
  pub busy : ℕ
  pub ended : ℕ
  pub entries : List Entry
  pub loop : Bool

abbrev pub max_threads : ℕ
max_threads = 6

-- `Run`
unfoldable pub run : Threads
run = record { waiting = max_threads; busy = 0; ended = 0; entries = []; loop = true }

unfoldable pub post_to_completion_queue : Threads → Entry → Threads
post_to_completion_queue t e = record t { entries = t.entries ++ (e ∷ []) }

-- The loop of `SignalHandler`, and the handler of SIGINT.
unfoldable pub post_nulls : ℕ → Threads → Threads
unfolding post_to_completion_queue
post_nulls zero t = t
post_nulls (suc count) t = post_nulls count (post_to_completion_queue t null)

unfoldable pub signal_handler : Threads → Threads
unfolding post_nulls
signal_handler t = post_nulls max_threads t

-- A waiting thread gets the first entry. After a null one it ends, as the loop's test fails.
unfoldable pub take_entry : Entry → Threads → Threads
take_entry null t = record t { waiting = t.waiting - 1; ended = t.ended + 1; loop = false }
take_entry work t = record t { waiting = t.waiting - 1; busy = t.busy + 1 }

-- `GetCompletionInfo`, `none` while no thread waits or there is no entry.
unfoldable pub get_completion_info : Threads → Option Threads
unfolding take_entry
get_completion_info t = elim t.entries [
  | [] ↦ none
  | e ∷ rest ↦ if ltb 0 t.waiting then some (take_entry e (record t { entries = rest })) else none
]

-- A handler returns, which it is taken to do, and the loop's test follows.
unfoldable pub next_round : Threads → Option Threads
next_round t =
    if ltb 0 t.busy
    then some (
        if t.loop
        then record t { busy = t.busy - 1; waiting = t.waiting + 1 }
        else record t { busy = t.busy - 1; ended = t.ended + 1 })
    else none

-- A handler throws, and the thread ends.
unfoldable pub caught : Threads → Option Threads
caught t = if ltb 0 t.busy then some (record t { busy = t.busy - 1; ended = t.ended + 1 }) else none

-- What can happen: a thread's step, or an operation that completes.
pub data Event : Type 0 where
  take back throw completes : Event

unfoldable pub happen : Event → Threads → Option Threads
unfolding get_completion_info next_round caught post_to_completion_queue
happen take t = get_completion_info t
happen back t = next_round t
happen throw t = caught t
happen completes t = some (post_to_completion_queue t work)

unfoldable pub all_happen : List Event → Threads → Option Threads
unfolding happen
all_happen [] t = some t
all_happen (e ∷ events) t = elim (happen e t) [ none ↦ none | some u ↦ all_happen events u ]

-- How many of the events are steps of threads.
unfoldable pub cost : Event → ℕ
cost take = 1
cost back = 1
cost throw = 1
cost completes = 0

unfoldable pub thread_steps : List Event → ℕ
unfolding cost
thread_steps [] = 0
thread_steps (e ∷ events) = cost e + thread_steps events

-- Some thread can take its next step.
unfoldable pub can_go : Threads → Bool
unfolding get_completion_info next_round
can_go t = elim (get_completion_info t) [
  | some u ↦ true
  | none ↦ elim (next_round t) [ some u ↦ true | none ↦ false ]
]
