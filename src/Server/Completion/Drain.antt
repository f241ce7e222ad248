-- ===== src/Server/Completion/Drain.antt =====
-- The timer's thread handles every event that is due (GameServer/Server/Timer.cpp).
pub mod Rounds
use mathlib.Core.List.{Mem}
use server_programming.Base.{
  ℕ, zero, suc, ◌+◌, ◌≤◌, ◌<◌, ◌≡◌, refl, sym, ap, ◌∙◌, subst, ap₂, ◌⊎◌, inl, inr, Bool, true,
  false, ◌&&◌, ◌||◌, Bool-cases, Option, none, some, List, [], ◌∷◌, arith, length, leb, ltb, ◌==◌,
  if◌then◌else◌,
}
use server_programming.Server.PlayerInfo.{max_user}
use server_programming.Server.Session.{revive, init_state, sleep}
use server_programming.Server.Timer.{TimerEvent, EventType, add_timer_event, take_due, less}
use server_programming.Server.Timer.Order.{
  IsSorted, SortedFrom, add_timer_event-IsSorted, SortedFrom-weaken,
}
use server_programming.Server.World.{
  World, modify, post_npc_move_event, send_put_object_packet, add_timer,
}
use server_programming.Server.Npc.{sees, greet, greet_players, chase_or_sleep, revive_npc}
use server_programming.Server.Completion.{handle_event, timer_step}

-- Rounds of the timer's inner loop, one after the other
unfoldable pub timer_rounds : ℕ → World → World
unfolding timer_step
timer_rounds zero w = w
timer_rounds (suc n) w = timer_rounds n (timer_step w)

-- How many events are due.
unfoldable pub due_count : ℕ → List TimerEvent → ℕ
due_count now [] = 0
due_count now (e ∷ queue) =
    let rest = due_count now queue in if leb e.start_time now then suc rest else rest

-- The clock, the queue and the moves posted stay the same.
record SameClock (w w' : World) : Type 0 where
  same_now : w'.now ≡ w.now
  same_timers : w'.timers ≡ w.timers
  same_posted : w'.posted ≡ w.posted

greet_players-SameClock :
    (id count first : ℕ) (acc : Option ℕ × World)
    → SameClock acc.1 (greet_players id count first acc).1
unfolding greet_players greet send_put_object_packet
greet_players-SameClock id zero first acc = record {
  same_now = refl;
  same_timers = refl;
  same_posted = refl;
}
greet_players-SameClock id (suc count) first (target, w) =
    let rest = greet_players-SameClock id count (suc first) (greet id first (target, w)) in
    record {
      same_now = rest.same_now ∙ ground arith;
      same_timers = rest.same_timers ∙ ground arith;
      same_posted = rest.same_posted ∙ ground arith;
    }

-- Whether the move of an NPC is posted.
unfoldable pub has_post : TimerEvent → List (ℕ × ℕ) → Bool
has_post e [] = false
has_post e ((id, target) ∷ posted) = id == e.object_id && target == e.target_id || has_post e posted

abbrev pub is_revival : EventType → Bool
is_revival EventType.npc_move = false
is_revival EventType.npc_revive = true

-- Every event of the queue that is due and is an NPC's move is posted.
unfoldable pub moves_posted : ℕ → List (ℕ × ℕ) → List TimerEvent → Bool
unfolding has_post
moves_posted now posted [] = true
moves_posted now posted (e ∷ queue) =
    (ltb now e.start_time || is_revival e.type || has_post e posted)
    && moves_posted now posted queue

-- The queue as it was, or with one event more, which is not due
abbrev pub Grown : ℕ → List TimerEvent → List TimerEvent → Type 0
Grown now queue queue' =
    (queue' ≡ queue) ⊎ (e : TimerEvent) × (queue' ≡ add_timer_event e queue) × (now < e.start_time)

-- What the handling of an event does to the clock, the queue and the moves posted.
pub record Handled (w : World) (e : TimerEvent) (w' : World) : Type 0 where
  pub still_now : w'.now ≡ w.now
  pub grown : Grown w.now w.timers w'.timers
  pub still_posted : (f : TimerEvent) → has_post f w.posted ≡ true → has_post f w'.posted ≡ true
  pub serves : (is_revival e.type || has_post e w'.posted) ≡ true

revive_npc-Grown :
    (w : World) (id : ℕ)
    → ((revive_npc w id).now ≡ w.now)
      × Grown w.now w.timers (revive_npc w id).timers
      × ((revive_npc w id).posted ≡ w.posted)
unfolding revive_npc add_timer
revive_npc-Grown w id =
    chase (greet_players id max_user 0 start) (greet_players-SameClock id max_user 0 start)
  where
    start : Option ℕ × World
    start = (none, modify w id revive)

    chase :
        (acc : Option ℕ × World)
        → SameClock (modify w id revive) acc.1
        → ((chase_or_sleep id acc).now ≡ w.now)
          × Grown w.now w.timers (chase_or_sleep id acc).timers
          × ((chase_or_sleep id acc).posted ≡ w.posted)
    chase (none, w') same = (same.same_now, inl same.same_timers, same.same_posted)
    chase (some target, w') same = (
      same.same_now,
      inr (
        record {
          object_id = id;
          target_id = target;
          type = EventType.npc_move;
          start_time = w'.now + 1000;
        },
        ap
            (add_timer_event (record {
              object_id = id;
              target_id = target;
              type = EventType.npc_move;
              start_time = w'.now + 1000;
            }))
            same.same_timers,
        omega (arith, same.same_now),
      ),
      same.same_posted,
    )

pub handle_event-Handled : (w : World) (e : TimerEvent) → Handled w e (handle_event w e)
unfolding handle_event post_npc_move_event has_post
handle_event-Handled w e = by_type e.type refl
  where
    by_type :
        (type : EventType)
        → e.type ≡ type
        → Handled w e (elim type [
          | EventType.npc_move ↦ post_npc_move_event w e.object_id e.target_id
          | EventType.npc_revive ↦ revive_npc w e.object_id
        ])
    by_type EventType.npc_move kind = record {
      still_now = refl;
      grown = inl refl;
      still_posted = λ f h. ground arith;
      serves = ground arith;
    }
    by_type EventType.npc_revive kind =
        let (same_now, grown, same_posted) = revive_npc-Grown w e.object_id in
        record {
          still_now = same_now;
          grown = grown;
          still_posted = λ f h. rw same_posted h;
          serves = rw kind refl;
        }

-- Events that are not due, in a queue
pub later_none :
    (now : ℕ) (posted : List (ℕ × ℕ)) (queue : List TimerEvent)
    → SortedFrom (suc now) queue
    → ((take_due now queue).0 ≡ none)
      × (due_count now queue ≡ 0)
      × (moves_posted now posted queue ≡ true)
unfolding take_due due_count moves_posted
later_none now posted [] s = (refl, refl, refl)
later_none now posted (e ∷ queue) s =
    let (a, b, c) =
      later_none now posted queue (SortedFrom-weaken (suc now) e.start_time queue s.0 s.1) in
    (ground arith, ground arith, ground arith)

pub count_add :
    (now : ℕ) (posted : List (ℕ × ℕ)) (e : TimerEvent) (queue : List TimerEvent)
    → now < e.start_time
    → (due_count now (add_timer_event e queue) ≡ due_count now queue)
      × (moves_posted now posted (add_timer_event e queue) ≡ moves_posted now posted queue)
unfolding add_timer_event due_count moves_posted
count_add now posted e [] late = (ground arith, ground arith)
count_add now posted e (f ∷ queue) late =
    let (a, b) = count_add now posted e queue late in
    elim (Bool-cases (less f e)) [
      | inl before ↦ rw before (ground arith, ground arith)
      | inr behind ↦ rw behind (ground (arith, a), ground (arith, b))
    ]

-- No event of a sorted queue is due if there are none.
pub count_none :
    (now : ℕ) (queue : List TimerEvent)
    → IsSorted queue
    → due_count now queue ≡ 0
    → SortedFrom (suc now) queue
unfolding due_count
count_none now [] s e = tt
count_none now (f ∷ queue) s e = ground arith
