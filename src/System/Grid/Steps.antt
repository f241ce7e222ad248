-- ===== src/System/Grid/Steps.antt =====
-- Every change that a step makes keeps the sectors in order.
use server_programming.Base.{
  ℕ, ◌≡◌, refl, sym, ◌⊎◌, inl, inr, Bool, true, Bool-cases, Option-cases, arith, ◌==◌,
}
use server_programming.Base.Int.{ℤ, pos, eqb_ℤ→eq}
use server_programming.Server.Geometry.{is_npc}
use server_programming.Server.Session.{
  Session, insert_view_id, erase_view_id, is_same_position, decrease_hp, revive,
  set_attack_duration,
}
use server_programming.Server.World.{
  World, LuaEvent, lua_message, event_npc_attack, modify, execute_lua_func, add_timer,
}
use server_programming.Server.World.Frame.{clients-lua}
use server_programming.Server.Npc.{strike, npc_attack}
use server_programming.Server.Clients.{as_gm, as_player}
use server_programming.System.Keep.{Leaves, InWorld, is_awake}
use server_programming.System.Grid.{
  IsPlaced, rest-IsPlaced, stay-IsPlaced, relocate-IsPlaced, enter-IsPlaced,
}
use server_programming.System.Grid.Changes.{
  revives-add, revives-take, revives-due, row-InWorld, fail-IsPlaced, move-IsPlaced,
  remove-IsPlaced, status_change-IsPlaced, battle_result-IsPlaced, login_ok-IsPlaced,
  login_fail-IsPlaced, chat-IsPlaced, put_object-IsPlaced, view-IsPlaced, be_seen-IsPlaced,
  forget-IsPlaced,
}

-- A blow, with what follows for a player that it kills, leaves him where he is.
strike-x : (s : Session) (power : ℤ) → (strike s power).info.x ≡ s.info.x
unfolding strike decrease_hp revive
strike-x s power = ground arith

strike-y : (s : Session) (power : ℤ) → (strike s power).info.y ≡ s.info.y
unfolding strike decrease_hp revive
strike-y s power = ground arith

module _ {S : ℕ → Bool} (npcs : (id : ℕ) → is_npc id ≡ true → S id ≡ true) where
  lua-IsPlaced :
      (w : World) (id : ℕ) (e : LuaEvent) (p : ℕ)
      → IsPlaced S w
      → IsPlaced S (execute_lua_func w id e p)
  unfolding execute_lua_func
  lua-IsPlaced w id e p h = elim (Option-cases (w.clients id).lua) [
    | inl silent ↦ rw (silent, execute_lua_func) h
    | inr (my_id, speaks) ↦
        rw (speaks, execute_lua_func) (chat-IsPlaced w p my_id (lua_message e) h)
  ]

  -- Who is struck is inside the world.
  struck-InWorld :
      (npc player : ℕ) (w : World)
      → (is_npc npc ≡ true) ⊎ (is_awake (w.clients player) ≡ true)
      → is_same_position (w.clients npc) (w.clients player).info.x (w.clients player).info.y ≡ true
      → IsPlaced S w
      → InWorld (w.clients player).info
  unfolding is_same_position
  struck-InWorld npc player w (inr awake) here h = (h.clients player).awake_in awake
  struck-InWorld npc player w (inl n) here h =
      let (x, y) : ((w.clients player).info.x ≡ (w.clients npc).info.x)
          × ((w.clients player).info.y ≡ (w.clients npc).info.y) =
        (sym (eqb_ℤ→eq _ _ (ground arith)), sym (eqb_ℤ→eq _ _ (ground arith))) in
      rw (x, y) ((h.clients npc).inside (npcs npc n))

  npc_attack-IsPlaced :
      (npc player : ℕ) (w : World)
      → InWorld (w.clients player).info
      → IsPlaced S w
      → IsPlaced S (npc_attack w npc player)
  unfolding npc_attack set_attack_duration
  npc_attack-IsPlaced npc player w place h = status_change-IsPlaced _ player (
      battle_result-IsPlaced _ player npc power (pos 1) (
        stay-IsPlaced paused player (λ s. strike s power) (strike-x (paused.clients player) power)
          (strike-y (paused.clients player) power) (λ a. place_stays)
          (view-IsPlaced spoken npc (λ s. set_attack_duration s w.now 1000) refl refl
            (lua-IsPlaced w npc event_npc_attack player h))))
    where
      spoken : World
      spoken = execute_lua_func w npc event_npc_attack player

      paused : World
      paused = modify spoken npc (λ s. set_attack_duration s w.now 1000)

      power : ℤ
      power = (paused.clients npc).attack_power

      place_stays : InWorld (paused.clients player).info
      place_stays = elim (Bool-cases (player == npc)) [
        | inl self ↦ rw (self, clients-lua) place
        | inr other ↦ rw (other, clients-lua) place
      ]

  pub steps-IsPlaced : Leaves (IsPlaced S) (λ id. S id ≡ true)
  unfolding add_timer as_gm as_player set_attack_duration insert_view_id erase_view_id
  steps-IsPlaced = record {
    core = λ w w' same.
        rest-IsPlaced w w' same.same_clients same.same_sectors same.same_timers same.same_database;
    session = λ w id f plain h.
        stay-IsPlaced w id f plain.same_x plain.same_y
          (λ a. (h.clients id).awake_in (plain.awake a)) h;
    rise = λ w id f r list place h.
        stay-IsPlaced w id f (place (w.clients id)).0 (place (w.clients id)).1
          (λ a. (h.clients id).inside r) h;
    shift = relocate-IsPlaced;
    fails = fail-IsPlaced;
    move = move-IsPlaced;
    status_change = status_change-IsPlaced;
    battle_result = battle_result-IsPlaced;
    login_ok = login_ok-IsPlaced;
    login_fail = login_fail-IsPlaced;
    chat = chat-IsPlaced;
    show = λ w id pid h.
        put_object-IsPlaced _ id pid (view-IsPlaced w id (λ s. insert_view_id s pid) refl refl h);
    hide = λ w id pid h.
        remove-IsPlaced _ id pid (view-IsPlaced w id (λ s. erase_view_id s pid) refl refl h);
    seen = be_seen-IsPlaced;
    forgets = forget-IsPlaced;
    timer = λ w id target type duration npc h. record {
      grid = h.grid;
      clients = h.clients;
      timers = revives-add _ w.timers npc h.timers;
      rows = h.rows;
    };
    take = λ w h. record {
      grid = h.grid;
      clients = h.clients;
      timers = revives-take w.now w.timers h.timers;
      rows = h.rows;
    };
    due =
        λ w e h found revive. npcs e.object_id (revives-due w.now w.timers e h.timers found revive);
    struck = λ npc player w allowed here h.
        npc_attack-IsPlaced npc player w (struck-InWorld npc player w allowed here h) h;
    gm = λ w id name.
        enter-IsPlaced w id (λ s. as_gm s name) ((refl, omega arith), (refl, omega arith));
    player = λ w id name info row h.
        enter-IsPlaced w id (λ s. as_player s info w.now)
          (row-InWorld w.database name info h.rows row) h;
  }
