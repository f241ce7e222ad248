-- ===== src/Server/Completion/Drain/Rounds.antt =====
-- The rounds of the timer's thread (GameServer/Server/Timer.cpp).
use server_programming.Base.{
  ℕ, zero, suc, ◌≤◌, ◌≡◌, refl, sym, ap, ◌∙◌, subst, inl, inr, true, Bool-cases, Option, none, some,
  List, [], ◌∷◌, arith, length, leb,
}
use server_programming.Server.Timer.{TimerEvent, take_due}
use server_programming.Server.Timer.Order.{
  IsSorted, SortedFrom, add_timer_event-IsSorted, SortedFrom-weaken,
}
use server_programming.Server.World.{World}
use server_programming.Server.Completion.{handle_event, timer_step}
use server_programming.Server.Completion.Drain.{
  timer_rounds, due_count, has_post, moves_posted, Grown, handle_event-Handled, later_none,
  count_add, count_none,
}

-- A round, by what it takes from the queue
abbrev round : World → List TimerEvent → Option TimerEvent → World
round w queue none = w
round w queue (some e) = handle_event (record w { timers = queue }) e

step_round :
    (w : World) → timer_step w ≡ round w (take_due w.now w.timers).1 (take_due w.now w.timers).0
unfolding timer_step
step_round w = by_event (take_due w.now w.timers).0
  where
    by_event :
        (event : Option TimerEvent)
        → (elim event [
          | none ↦ w
          | some e ↦ handle_event (record w { timers = (take_due w.now w.timers).1 }) e
        ])
          ≡ round w (take_due w.now w.timers).1 event
    by_event none = refl
    by_event (some e) = refl

step_waiting : (w : World) → SortedFrom (suc w.now) w.timers → timer_step w ≡ w
step_waiting w s =
    step_round w ∙ ap (round w (take_due w.now w.timers).1) (later_none w.now [] w.timers s).0

step_due :
    (w : World) (e : TimerEvent) (rest : List TimerEvent)
    → w.timers ≡ e ∷ rest
    → e.start_time ≤ w.now
    → timer_step w ≡ handle_event (record w { timers = rest }) e
unfolding take_due
step_due w e rest head due =
    let taken : take_due w.now (e ∷ rest) ≡ (some e, rest) = ground arith in
    step_round w
    ∙ ap (λ (r : Option TimerEvent × List TimerEvent). round w r.1 r.0)
        (ap (take_due w.now) head ∙ taken)

still_served :
    (now : ℕ) (posted posted' : List (ℕ × ℕ)) (queue : List TimerEvent)
    → ((f : TimerEvent) → has_post f posted ≡ true → has_post f posted' ≡ true)
    → moves_posted now posted queue ≡ true
    → moves_posted now posted' queue ≡ true
unfolding moves_posted
still_served now posted posted' [] keep h = refl
still_served now posted posted' (e ∷ queue) keep h =
    ground (arith, keep e, still_served now posted posted' queue keep)

queue-Grown :
    (now : ℕ) (posted : List (ℕ × ℕ)) (queue queue' : List TimerEvent)
    → Grown now queue queue'
    → IsSorted queue
    → IsSorted queue'
      × (due_count now queue' ≡ due_count now queue)
      × (moves_posted now posted queue' ≡ moves_posted now posted queue)
queue-Grown now posted queue queue' (inl same) s = rw same (s, refl, refl)
queue-Grown now posted queue queue' (inr (e, more, late)) s =
    let (same_count, same_posts) = count_add now posted e queue late in
    rw more ((add_timer_event-IsSorted e queue s).0, same_count, same_posts)

-- What is left after rounds of the timer's inner loop.
record Drained (w w' : World) : Type 0 where
  kept_now : w'.now ≡ w.now
  none_due : SortedFrom (suc w'.now) w'.timers
  kept_posts : (f : TimerEvent) → has_post f w.posted ≡ true → has_post f w'.posted ≡ true
  all_posted : moves_posted w.now w'.posted w.timers ≡ true

-- The first event is handled, and then the others.
drain_due :
    (w : World) (e : TimerEvent) (rest : List TimerEvent) (w' : World)
    → w.timers ≡ e ∷ rest
    → IsSorted rest
    → Drained (handle_event (record w { timers = rest }) e) w'
    → Drained w w'
unfolding moves_posted
drain_due w e rest w' head s d =
    let h = handle_event-Handled (record w { timers = rest }) e in
    let w₁ : World = handle_event (record w { timers = rest }) e in
    let after : moves_posted w.now w'.posted w₁.timers ≡ true =
      subst (λ t. moves_posted t w'.posted w₁.timers ≡ true) h.still_now d.all_posted in
    let others = (queue-Grown w.now w'.posted rest w₁.timers h.grown s).2 in
    record {
      kept_now = d.kept_now ∙ h.still_now;
      none_due = d.none_due;
      kept_posts = λ f p. d.kept_posts f (h.still_posted f p);
      all_posted =
          ap (moves_posted w.now w'.posted) head
          ∙ ground (arith, h.serves, d.kept_posts e, sym others ∙ after);
    }

drain_lem :
    (n : ℕ) (w : World)
    → IsSorted w.timers
    → due_count w.now w.timers ≤ n
    → Drained w (timer_rounds n w)
unfolding timer_rounds due_count
drain_lem zero w s few =
    let late = count_none w.now w.timers s (omega (arith, few)) in
    record {
      kept_now = refl;
      none_due = late;
      kept_posts = λ f h. h;
      all_posted = (later_none w.now w.posted w.timers late).2;
    }
drain_lem (suc n) w s few = by_head w.timers refl (drain_lem n) s few
  where
    waiting :
        ((v : World)
          → IsSorted v.timers
          → due_count v.now v.timers ≤ n
          → Drained v (timer_rounds n v))
        → SortedFrom (suc w.now) w.timers
        → Drained w (timer_rounds n (timer_step w))
    waiting later late =
        subst (λ v. Drained w (timer_rounds n v)) (sym (step_waiting w late))
          (later w s (omega (arith, (later_none w.now [] w.timers late).1)))

    by_head :
        (queue : List TimerEvent)
        → w.timers ≡ queue
        → ((v : World)
            → IsSorted v.timers
            → due_count v.now v.timers ≤ n
            → Drained v (timer_rounds n v))
        → IsSorted queue
        → due_count w.now queue ≤ suc n
        → Drained w (timer_rounds n (timer_step w))
    by_head [] head later sorted few' = waiting later (rw head tt)
    by_head (e ∷ rest) head later sorted few' = elim (Bool-cases (leb e.start_time w.now)) [
      | inr late ↦ waiting later (rw head (ground arith, sorted.1))
      | inl due ↦
          let h = handle_event-Handled (record w { timers = rest }) e in
          let w₁ : World = handle_event (record w { timers = rest }) e in
          let sorted_rest : IsSorted rest =
            SortedFrom-weaken 0 e.start_time rest (omega arith) sorted.1 in
          let (sorted', count, _) = queue-Grown w.now [] rest w₁.timers h.grown sorted_rest in
          subst (λ v. Drained w (timer_rounds n v)) (sym (step_due w e rest head (ground arith)))
            (drain_due w e rest _ head sorted_rest
              (later w₁ sorted' (rw (h.still_now, count) (ground arith))))
    ]

count_all : (now : ℕ) (queue : List TimerEvent) → due_count now queue ≤ length queue
unfolding due_count
count_all now [] = omega arith
count_all now (e ∷ queue) = ground (arith, count_all now queue)

-- The timer's thread, whose queue is in order, handles in as many rounds as there are events in the
-- queue, in which no time passes, every event that is due: then no event is due, and all moves of NPCs
-- that were due are posted to the completion port.
pub timer_drains :
    (w : World)
    → IsSorted w.timers
    → let w' = timer_rounds (length w.timers) w in
      (w'.now ≡ w.now)
      × SortedFrom (suc w'.now) w'.timers
      × (moves_posted w.now w'.posted w.timers ≡ true)
timer_drains w s =
    let d = drain_lem (length w.timers) w s (count_all w.now w.timers) in
    (d.kept_now, d.none_due, d.all_posted)
