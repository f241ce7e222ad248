-- ===== src/Server/Timer.antt =====
-- GameServer/Server/Timer.h and Timer.cpp: the queue of timed events. `std::priority_queue` is a
-- list kept in the order of the start times, the earliest first; it says nothing of the order of
-- equal times, where the model takes the older event first. The clock is an argument.
pub mod Order
use server_programming.Base.{
  ℕ, Bool, true, false, Option, none, some, List, [], ◌∷◌, leb, ltb, if◌then◌else◌,
}

pub data EventType : Type 0 where
  npc_move npc_revive : EventType

pub record TimerEvent : Type 0 where
  pub object_id : ℕ
  pub target_id : ℕ
  pub type : EventType
  pub start_time : ℕ

-- `operator<`, by which the queue's top is the event that starts first.
abbrev pub less : TimerEvent → TimerEvent → Bool
less a b = ltb b.start_time a.start_time

-- `AddTimerEvent`
unfoldable pub add_timer_event : TimerEvent → List TimerEvent → List TimerEvent
add_timer_event e [] = e ∷ []
add_timer_event e (f ∷ queue) =
    let rest = add_timer_event e queue in if less f e then e ∷ f ∷ queue else f ∷ rest

unfoldable pub is_queue_empty : List TimerEvent → Bool
is_queue_empty [] = true
is_queue_empty (e ∷ queue) = false

-- One pass of the inner loop of `TimerThreadFunc`: the event to handle, if the first one is due.
unfoldable pub take_due : ℕ → List TimerEvent → Option TimerEvent × List TimerEvent
take_due now [] = (none, [])
take_due now (e ∷ queue) = if leb e.start_time now then (some e, queue) else (none, e ∷ queue)
