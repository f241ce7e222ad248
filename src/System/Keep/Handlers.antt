-- ===== src/System/Keep/Handlers.antt =====
-- The packets of players, and their logins.
use server_programming.Base.{
  ℕ, zero, suc, ◌%◌, ◌≡◌, refl, ap, ◌∙◌, inl, inr, true, Bool-cases, Option, none, some, List, [],
  ◌∷◌, arith, length, ltb, subst,
}
use server_programming.Base.Int.{ℤ, pos, negsuc, eqb_ℤ, leb_ℤ, to_short, eqb_ℤ→eq}
use server_programming.Server.PlayerInfo.{PlayerInfo, world_width, world_height}
use server_programming.Server.Geometry.{is_npc, move_position, move_position-stays}
use server_programming.Server.Session.{
  Session, accept, ingame, dead, is_state, compare_and_change_state, set_attack_duration,
  is_same_position, is_attack_time_out, is_dead, decrease_hp, increase_exp,
  increase_level_with_condition, level_up, exp_needed, gain, init_state, exp_gain,
}
use server_programming.Server.Session
use server_programming.Server.Timer.{npc_revive}
use server_programming.Server.DbHandler.{connect_with_id}
use server_programming.Server.World.{World, event_npc_hurt, modify}
use server_programming.Server.Clients.{
  is_gm, put_in_game, enter_game, login_player, process_login_packet,
}
use server_programming.Server.Packets.{
  reward, bury, end_kill, kill_npc, level_fuel, wound, hit_npc, hit_tile, hit_tiles, attack_one,
  process_attack_packet, attack, settle, move_client, teleport_client, say_to, chat_around,
}
use server_programming.System.Keep.{Leaves, Plain, relocate, lua-keeps, for_each-keeps}
use server_programming.System.Keep.Npcs.{handle_dead_npc-keeps}
use server_programming.System.Keep.Sights.{
  sights-keeps, disappeared-keeps, gather-keeps, send_near_players_info-keeps, disconnect_session,
}

-- A session with the same state, view list and place
pub same-Plain :
    (s s' : Session)
    → s'.view_list ≡ s.view_list
    → s'.info.x ≡ s.info.x
    → s'.info.y ≡ s.info.y
    → s'.state ≡ s.state
    → Plain s s'
unfolding is_state
same-Plain s s' view x y state = record {
  same_view = view;
  same_x = x;
  same_y = y;
  awake = rw state (λ a. a);
}

Plain-trans : {s t u : Session} → Plain s t → Plain t u → Plain s u
Plain-trans a b = record {
  same_view = b.same_view ∙ a.same_view;
  same_x = b.same_x ∙ a.same_x;
  same_y = b.same_y ∙ a.same_y;
  awake = λ e. a.awake (b.awake e);
}

level_up-Plain : (s : Session) → Plain s (level_up s)
unfolding level_up
level_up-Plain s = same-Plain s _ refl refl refl refl

gain-Plain : (s : Session) (amount : ℤ) → Plain s (gain s amount)
unfolding gain
gain-Plain s amount = same-Plain s _ refl refl refl refl

increase_level-Plain :
    (fuel : ℕ) (s t : Session) → increase_level_with_condition fuel s ≡ some t → Plain s t
unfolding increase_level_with_condition
increase_level-Plain zero s t e = absurd (ground arith)
increase_level-Plain (suc fuel) s t e =
    elim (Bool-cases (leb_ℤ (exp_needed s.info.level) s.info.exp)) [
      | inl more ↦
          Plain-trans (level_up-Plain s) (increase_level-Plain fuel (level_up s) t (ground arith))
      | inr over ↦ subst (Plain s) (ground arith) (same-Plain s s refl refl refl refl)
    ]

dead_session : (s : Session) → Plain s (init_state s dead)
unfolding init_state is_state
dead_session s = record { same_view = refl; same_x = refl; same_y = refl; awake = λ e. cc }

module _ {P : World → Type 0} {Rises : ℕ → Type 0} (k : Leaves P Rises) where
  enter_game-keeps : (id : ℕ) (w : World) → P (put_in_game w id) → P (enter_game w id)
  unfolding enter_game
  enter_game-keeps id w h =
      elim (Bool-cases (compare_and_change_state (w.clients id) accept ingame).0) [
        | inl fresh ↦ rw fresh (send_near_players_info-keeps k _ id (k.login_ok _ id h))
        | inr stale ↦ rw stale h
      ]

  login_player-keeps :
      (w : World) (name : List ℕ) (answer : Option (ℤ × PlayerInfo)) (id : ℕ)
      → connect_with_id w.database name ≡ answer
      → P w
      → P (login_player w answer id)
  unfolding login_player
  login_player-keeps w name none id e h = k.fails w h
  login_player-keeps w name (some (code, info)) id e h = elim (Bool-cases (eqb_ℤ code (pos 1))) [
    | inl known ↦
        let row = e ∙ ap (λ (c : ℤ). some (c, info)) (eqb_ℤ→eq code (pos 1) known) in
        rw known (enter_game-keeps id _ (k.player w id name info row h))
    | inr refused ↦
        rw refused
          (k.session _ id Session.disconnect (disconnect_session _) (k.login_fail w id code h))
  ]

  pub login-keeps : (w : World) (name : List ℕ) (id : ℕ) → P w → P (process_login_packet w name id)
  unfolding process_login_packet
  login-keeps w name id h = elim (Bool-cases (is_gm name)) [
    | inr player ↦ rw player (login_player-keeps w name (connect_with_id w.database name) id refl h)
    | inl gm ↦ elim (Bool-cases (ltb (length name) 20)) [
      | inl fits ↦ rw (gm, fits) (enter_game-keeps id _ (k.gm w id name h))
      | inr long ↦ rw (gm, long) (k.fails w h)
    ]
  ]

  end_kill-keeps :
      (id pid : ℕ) (level : ℤ) (w : World) (s : Option Session)
      → is_npc pid ≡ true
      → ((t : Session) → s ≡ some t → Plain (w.clients id) t)
      → P w
      → P (end_kill id pid level s w)
  unfolding end_kill bury reward
  end_kill-keeps id pid level w none npc plain h = k.fails w h
  end_kill-keeps id pid level w (some s) npc plain h =
      k.timer _ pid id npc_revive 3000 (λ e. npc)
        (k.session _ pid (λ t. init_state t dead) (dead_session _)
          (handle_dead_npc-keeps k pid _ (
            k.battle_result _ id pid (exp_gain level) (pos 2)
              (k.status_change _ id (k.session w id (λ _. s) (plain s refl) h)))))

  kill_npc-keeps : (id pid : ℕ) (w : World) → is_npc pid ≡ true → P w → P (kill_npc id pid w)
  unfolding kill_npc increase_exp
  kill_npc-keeps id pid w npc =
      let level = (w.clients pid).info.level in
      end_kill-keeps id pid level w (increase_exp level_fuel (w.clients id) level) npc (λ t e.
        Plain-trans (gain-Plain (w.clients id) (exp_gain level))
          (increase_level-Plain level_fuel (gain (w.clients id) (exp_gain level)) t e))

  wound-keeps : (id pid : ℕ) (w : World) → P w → P (wound id pid w)
  unfolding wound decrease_hp
  wound-keeps id pid w h =
      let power = (w.clients id).attack_power in
      lua-keeps k _ pid event_npc_hurt id (
        k.battle_result _ id pid power (pos 0)
          (k.session w pid (λ t. decrease_hp t power) (same-Plain _ _ refl refl refl refl) h))

  hit_npc-keeps : (id pid : ℕ) (w : World) → is_npc pid ≡ true → P w → P (hit_npc id pid w)
  unfolding hit_npc
  hit_npc-keeps id pid w npc h = elim (Bool-cases (is_dead ((wound id pid w).clients pid))) [
    | inl over ↦ rw over (kill_npc-keeps id pid _ npc (wound-keeps id pid w h))
    | inr alive ↦ rw alive (wound-keeps id pid w h)
  ]

  hit_tiles-keeps :
      (id pid : ℕ) (area : List (ℤ × ℤ)) (w : World)
      → is_npc pid ≡ true
      → P w
      → P (hit_tiles id pid area w)
  unfolding hit_tiles hit_tile
  hit_tiles-keeps id pid [] w npc h = h
  hit_tiles-keeps id pid ((col, row) ∷ area) w npc h =
      elim (Bool-cases (is_same_position (w.clients pid) (to_short col) (to_short row))) [
        | inl here ↦ rw here (hit_tiles-keeps id pid area _ npc (hit_npc-keeps id pid w npc h))
        | inr away ↦ rw away (hit_tiles-keeps id pid area w npc h)
      ]

  attack_one-keeps :
      (id : ℕ) (area : List (ℤ × ℤ)) (pid : ℕ) (w : World) → P w → P (attack_one id area pid w)
  unfolding attack_one
  attack_one-keeps id area pid w h = elim (Bool-cases (is_npc pid)) [
    | inl npc ↦ rw npc (hit_tiles-keeps id pid area w npc h)
    | inr player ↦ rw player h
  ]

  pub attack-keeps : (id : ℕ) (w : World) → P w → P (attack w id)
  unfolding attack process_attack_packet set_attack_duration
  attack-keeps id w h = elim (Bool-cases (is_attack_time_out (w.clients id) w.now)) [
    | inl ready ↦ rw ready (
        k.battle_result _ id 0 (pos 0) (negsuc 0) (
          for_each-keeps _ _ (attack_one-keeps id _) _ (
            k.session w id (λ s. set_attack_duration s w.now 1000)
              (same-Plain _ _ refl refl refl refl) h)))
    | inr pause ↦ rw pause h
  ]

  settle-keeps :
      (id : ℕ) (f : Session → Session) (w : World)
      → P (relocate w id f)
      → P (settle (modify w id f) id (w.clients id).info)
  unfolding settle
  settle-keeps id f w h =
      disappeared-keeps k _ _ _ id
        (sights-keeps k _ _ _ id (k.move _ id id (gather-keeps k id _ _ h)))

  pub move_client-keeps :
      (id : ℕ) (direction time : ℤ) (w : World) → P w → P (move_client w id direction time)
  unfolding move_client
  move_client-keeps id direction time w h =
      settle-keeps id
        (λ s. record s { info = move_position s.info direction; last_move_time = time }) w
        (k.shift w id
          (λ s. record s { info = move_position s.info direction; last_move_time = time })
          (record {
            same_view = refl;
            same_state = refl;
            stays = λ inside. move_position-stays (w.clients id).info direction inside.0 inside.1;
          })
          h)

  pub teleport_client-keeps : (id : ℕ) (w : World) → P w → P (teleport_client w id)
  unfolding teleport_client
  teleport_client-keeps id w h =
      let x' = pos (w.rand w.rand_calls % world_width) in
      let y' = pos (w.rand (suc w.rand_calls) % world_height) in
      let w' : World = record w { rand_calls = suc (suc w.rand_calls) } in
      settle-keeps id (λ s. let info = s.info in record s { info = record info { x = x'; y = y' } })
        w'
        (k.shift w' id
          (λ s. let info = s.info in record s { info = record info { x = x'; y = y' } })
          (record {
            same_view = refl;
            same_state = refl;
            stays = λ inside. ((refl, omega arith), (refl, omega arith));
          })
          (k.core w w'
            (record {
              same_clients = refl;
              same_sectors = refl;
              same_timers = refl;
              same_sent = refl;
              same_fault = refl;
              same_database = refl;
            })
            h))

  say_to-keeps :
      (id : ℕ) (message : List ℕ) (pid : ℕ) (w : World) → P w → P (say_to id message pid w)
  unfolding say_to
  say_to-keeps id message pid w h = elim (Bool-cases (is_npc pid)) [
    | inl npc ↦ rw npc h
    | inr player ↦ rw player (k.chat w pid id message h)
  ]

  pub chat_around-keeps :
      (id : ℕ) (message : List ℕ) (w : World) → P w → P (chat_around w id message)
  unfolding chat_around
  chat_around-keeps id message w h =
      for_each-keeps _ (say_to id message) (say_to-keeps id message) _ (k.chat w id id message h)
