-- ===== src/System/Keep/Npcs.antt =====
-- What NPCs do.
use server_programming.Base.{
  ℕ, zero, suc, ◌≡◌, ◌⊎◌, refl, inl, inr, Bool-cases, true, Option, none, some, List, [], arith,
  ◌==◌,
}
use server_programming.Base.Sets.{mem}
use server_programming.Server.PlayerInfo.{max_user}
use server_programming.Server.Geometry.{
  is_npc, move_position, get_direction_to_target, move_position-stays,
}
use server_programming.Server.Session.{
  Session, ingame, sleep, is_state, is_same_position, is_attack_time_out, revive, init_state,
  compare_and_change_state,
}
use server_programming.Server.World.{World, modify}
use server_programming.Server.Timer.{npc_move}
use server_programming.Server.Npc.{
  activate_npc, handle_npc_attack, sees, visit, attack_in_sight, show_npc, hide_npc, step_npc,
  move_npc, forget_dead, handle_dead_npc, greet, greet_players, chase_or_sleep, revive_npc,
}
use server_programming.System.Keep.{Leaves, Plain, is_awake, for_each-keeps, for_range-keeps}

self_eq : (id : ℕ) → (id == id) ≡ true
self_eq id = ground arith

activated-Plain : (s : Session) → Plain s (compare_and_change_state s sleep ingame).1
unfolding compare_and_change_state is_state
activated-Plain s = record {
  same_view = ground arith;
  same_x = ground arith;
  same_y = ground arith;
  awake = ground arith;
}

seen_awake :
    (w : World) (id player : ℕ) → sees w id player ≡ true → is_awake (w.clients player) ≡ true
unfolding sees
seen_awake w id player near = ground arith

module _ {P : World → Type 0} {Rises : ℕ → Type 0} (k : Leaves P Rises) where
  pub activate_npc-keeps : (npc player : ℕ) (w : World) → P w → P (activate_npc w npc player)
  unfolding activate_npc
  activate_npc-keeps npc player w h =
      let next =
        k.session w npc (λ s. (compare_and_change_state s sleep ingame).1)
          (activated-Plain (w.clients npc)) h in
      elim (Bool-cases (compare_and_change_state (w.clients npc) sleep ingame).0) [
        | inl changed ↦ rw changed (k.timer _ npc player npc_move 1000 (λ e. cc) next)
        | inr active ↦ rw active next
      ]

  pub handle_npc_attack-keeps :
      (npc player : ℕ) (w : World)
      → (is_npc npc ≡ true) ⊎ (is_awake (w.clients player) ≡ true)
      → P w
      → P (handle_npc_attack w npc player)
  unfolding handle_npc_attack
  handle_npc_attack-keeps npc player w allowed h =
      let info = (w.clients player).info in
      elim (Bool-cases (is_same_position (w.clients npc) info.x info.y)) [
        | inr apart ↦ rw apart h
        | inl here ↦ elim (Bool-cases (is_attack_time_out (w.clients npc) w.now)) [
          | inr pause ↦ rw (here, pause) h
          | inl ready ↦ rw (here, ready) (k.struck npc player w allowed here h)
        ]
      ]

  show_npc-keeps : (id : ℕ) (old : List ℕ) (pl : ℕ) (w : World) → P w → P (show_npc id old pl w)
  unfolding show_npc
  show_npc-keeps id old pl w h = elim (Bool-cases (mem pl old)) [
    | inl seen ↦ rw seen (k.move w pl id h)
    | inr new ↦ rw new (k.show w pl id h)
  ]

  hide_npc-keeps : (id : ℕ) (new : List ℕ) (pl : ℕ) (w : World) → P w → P (hide_npc id new pl w)
  unfolding hide_npc
  hide_npc-keeps id new pl w h = elim (Bool-cases (mem pl new)) [
    | inl near ↦ rw near h
    | inr far ↦ rw far (k.hide w pl id h)
  ]

  visit-keeps : (id player : ℕ) (acc : List ℕ × World) → P acc.1 → P (visit id player acc).1
  unfolding visit
  visit-keeps id player (l, w) h = elim (Bool-cases (sees w id player)) [
    | inl near ↦
        rw (near, sees) (handle_npc_attack-keeps id player w (inr (seen_awake w id player near)) h)
    | inr far ↦ rw far h
  ]

  attack_in_sight-keeps :
      (id count first : ℕ) (acc : List ℕ × World)
      → P acc.1
      → P (attack_in_sight id count first acc).1
  unfolding attack_in_sight
  attack_in_sight-keeps id zero first acc h = h
  attack_in_sight-keeps id (suc count) first acc h =
      attack_in_sight-keeps id count (suc first) (visit id first acc) (visit-keeps id first acc h)

  step_npc-keeps : (id target : ℕ) (w : World) → P w → P (step_npc w id target)
  unfolding step_npc
  step_npc-keeps id target w h =
      let info = (w.clients id).info in
      let next = move_position info (get_direction_to_target info (w.clients target).info) in
      rw (self_eq id) at (
        k.shift w id (λ s. record s { info = next })
          (record {
            same_view = refl;
            same_state = refl;
            stays = λ inside. move_position-stays info _ inside.0 inside.1;
          })
          h)

  pub move_npc-keeps : (id target : ℕ) (w : World) → P w → P (move_npc w id target)
  unfolding move_npc
  move_npc-keeps id target w h = for_each-keeps _ (hide_npc id _) (hide_npc-keeps id _) _ (
      for_each-keeps _ (show_npc id _) (show_npc-keeps id _) _ (
        attack_in_sight-keeps id max_user 0 ([], step_npc w id target)
          (step_npc-keeps id target w h)))

  forget_dead-keeps : (id player : ℕ) (w : World) → P w → P (forget_dead id player w)
  unfolding forget_dead
  forget_dead-keeps id player w h = elim (Bool-cases (sees w id player)) [
    | inl near ↦ rw near (k.hide w player id h)
    | inr far ↦ rw far h
  ]

  pub handle_dead_npc-keeps : (id : ℕ) (w : World) → P w → P (handle_dead_npc w id)
  unfolding handle_dead_npc
  handle_dead_npc-keeps id w = for_range-keeps max_user 0 (forget_dead id) (forget_dead-keeps id) w

  greet-keeps : (id player : ℕ) (acc : Option ℕ × World) → P acc.1 → P (greet id player acc).1
  unfolding greet
  greet-keeps id player (target, w) h = elim (Bool-cases (sees w id player)) [
    | inl near ↦ rw near (k.show w player id h)
    | inr far ↦ rw far h
  ]

  greet_players-keeps :
      (id count first : ℕ) (acc : Option ℕ × World)
      → P acc.1
      → P (greet_players id count first acc).1
  unfolding greet_players
  greet_players-keeps id zero first acc h = h
  greet_players-keeps id (suc count) first acc h =
      greet_players-keeps id count (suc first) (greet id first acc) (greet-keeps id first acc h)

  chase_or_sleep-keeps :
      (id : ℕ) (acc : Option ℕ × World) → Rises id → P acc.1 → P (chase_or_sleep id acc)
  unfolding chase_or_sleep
  chase_or_sleep-keeps id (none, w) r =
      k.rise w id (λ s. init_state s sleep) r (λ s. refl) (λ s. (refl, refl))
  chase_or_sleep-keeps id (some target, w) r = k.timer w id target npc_move 1000 (λ e. cc)

  pub revive_npc-keeps : (id : ℕ) (w : World) → Rises id → P w → P (revive_npc w id)
  unfolding revive_npc
  revive_npc-keeps id w r h = chase_or_sleep-keeps id _ r (
      greet_players-keeps id max_user 0 (none, modify w id revive)
        (k.rise w id revive r (λ s. refl) (λ s. (refl, refl)) h))
