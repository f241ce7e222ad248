-- ===== src/Server/Npc.antt =====
-- The methods of `IOCPServer` about NPCs (GameServer/Server/IOCPServer.cpp).
pub mod Strike
use server_programming.Base.{
  ℕ, zero, suc, ◌+◌, ◌-◌, ◌/◌, ◌%◌, ltb, Bool, not, ◌&&◌, Option, none, some, List, [], ◌∷◌,
  if◌then◌else◌,
}
use server_programming.Base.Decimal.{decimal}
use server_programming.Base.Sets.{mem, insert}
use server_programming.Base.Int.{ℤ, pos}
use server_programming.Server.PlayerInfo.{
  PlayerInfo, max_user, max_npc, npc_id_start, world_width, world_height,
}
use server_programming.Server.Geometry.{is_near, get_direction_to_target, move_position}
use server_programming.Server.SectorManager.{move_id, insert_id}
use server_programming.Server.Session.{
  Session, ingame, sleep, npc, is_state, is_same_position, is_attack_time_out, set_attack_duration,
  decrease_hp, is_dead, revive, insert_view_id, erase_view_id, init_state, compare_and_change_state,
  init_lua_engine,
}
use server_programming.Server.Timer.{npc_move}
use server_programming.Server.World.{
  World, event_npc_attack, modify, for_each, for_range, send_put_object_packet, send_move_packet,
  send_remove_packet, send_battle_result_packet, send_status_change_packet, add_timer,
  execute_lua_func,
}

unfoldable pub activate_npc : World → ℕ → ℕ → World
unfolding compare_and_change_state add_timer
activate_npc w npc_id player_id =
    let changed = (compare_and_change_state (w.clients npc_id) sleep ingame).0 in
    let w' = modify w npc_id (λ s. (compare_and_change_state s sleep ingame).1) in
    if changed then add_timer w' npc_id player_id npc_move 1000 else w'

-- `DecreaseHP`, and `Revive` of a player that this kills
unfoldable pub strike : Session → ℤ → Session
unfolding decrease_hp is_dead revive
strike s power = let hit = decrease_hp s power in if is_dead hit then revive hit else hit

-- What `HandleNPCAttack` does once its two tests are passed.
unfoldable pub npc_attack : World → ℕ → ℕ → World
npc_attack w npc_id player_id =
    let w₁ = execute_lua_func w npc_id event_npc_attack player_id in
    let w₂ = modify w₁ npc_id (λ s. set_attack_duration s w.now 1000) in
    let power = (w₂.clients npc_id).attack_power in
    let w₃ = modify w₂ player_id (λ s. strike s power) in
    send_status_change_packet (send_battle_result_packet w₃ player_id npc_id power (pos 1))
      player_id

unfoldable pub handle_npc_attack : World → ℕ → ℕ → World
handle_npc_attack w npc_id player_id =
    let info = (w.clients player_id).info in
    if not (is_same_position (w.clients npc_id) info.x info.y)
    then w
    else if not (is_attack_time_out (w.clients npc_id) w.now)
    then w
    else npc_attack w npc_id player_id

-- The test of the loops over the players: in the game, and near the NPC.
unfoldable pub sees : World → ℕ → ℕ → Bool
unfolding is_state
sees w id player_id =
    is_state (w.clients player_id) ingame && is_near (w.clients id).info (w.clients player_id).info

-- The loop that fills `old_viewlist`, over `count` players from `first` on.
unfoldable pub players_in_sight : World → ℕ → ℕ → ℕ → List ℕ
players_in_sight w id zero first = []
players_in_sight w id (suc count) first =
    let rest = players_in_sight w id count (suc first) in
    if sees w id first then insert first rest else rest

-- The loop that fills `new_viewlist`, and attacks on the way.
unfoldable pub visit : ℕ → ℕ → List ℕ × World → List ℕ × World
unfolding sees
visit id player_id (seen, w) =
    if sees w id player_id
    then (insert (w.clients player_id).id seen, handle_npc_attack w id player_id)
    else (seen, w)

unfoldable pub attack_in_sight : ℕ → ℕ → ℕ → List ℕ × World → List ℕ × World
attack_in_sight id zero first acc = acc
attack_in_sight id (suc count) first acc = attack_in_sight id count (suc first) (visit id first acc)

-- One step of each of the last two loops of `MoveNPC`
unfoldable pub show_npc : ℕ → List ℕ → ℕ → World → World
unfolding insert_view_id
show_npc id old_viewlist pl w =
    if mem pl old_viewlist
    then send_move_packet w pl id
    else send_put_object_packet (modify w pl (λ s. insert_view_id s id)) pl id

unfoldable pub hide_npc : ℕ → List ℕ → ℕ → World → World
unfolding erase_view_id
hide_npc id new_viewlist pl w =
    if mem pl new_viewlist
    then w
    else send_remove_packet (modify w pl (λ s. erase_view_id s id)) pl id

-- The step of the NPC itself
unfoldable pub step_npc : World → ℕ → ℕ → World
step_npc w id target =
    let prev = (w.clients id).info in
    let next = move_position prev (get_direction_to_target prev (w.clients target).info) in
    let w' = modify w id (λ s. record s { info = next }) in
    record w' { sectors = move_id w.sectors id prev.x prev.y next.x next.y }

unfoldable pub move_npc : World → ℕ → ℕ → World
unfolding step_npc
move_npc w id target =
    let old_viewlist = players_in_sight w id max_user 0 in
    let (new_viewlist, w') = attack_in_sight id max_user 0 ([], step_npc w id target) in
    for_each old_viewlist (hide_npc id new_viewlist)
      (for_each new_viewlist (show_npc id old_viewlist) w')

unfoldable pub forget_dead : ℕ → ℕ → World → World
unfolding erase_view_id
forget_dead id player_id w =
    if sees w id player_id
    then send_remove_packet (modify w player_id (λ s. erase_view_id s id)) player_id id
    else w

unfoldable pub handle_dead_npc : World → ℕ → World
handle_dead_npc w id = for_range max_user 0 (forget_dead id) w

-- One step of the loop of `ReviveNPC`, which keeps the first player near as the target.
unfoldable pub greet : ℕ → ℕ → Option ℕ × World → Option ℕ × World
unfolding insert_view_id
greet id player_id (target, w) =
    if sees w id player_id
    then (
      elim target [ none ↦ some player_id | some t ↦ some t ],
      send_put_object_packet (modify w player_id (λ s. insert_view_id s id)) player_id id,
    )
    else (target, w)

unfoldable pub greet_players : ℕ → ℕ → ℕ → Option ℕ × World → Option ℕ × World
greet_players id zero first acc = acc
greet_players id (suc count) first acc = greet_players id count (suc first) (greet id first acc)

unfoldable pub chase_or_sleep : ℕ → Option ℕ × World → World
unfolding init_state
chase_or_sleep id (none, w) = modify w id (λ s. init_state s sleep)
chase_or_sleep id (some target, w) = add_timer w id target npc_move 1000

unfoldable pub revive_npc : World → ℕ → World
unfolding revive chase_or_sleep
revive_npc w id = chase_or_sleep id (greet_players id max_user 0 (none, modify w id revive))

-- The body of the loop of `InitNPC`
unfoldable pub init_one_npc : ℕ → World → World
unfolding init_lua_engine
init_one_npc id w =
    let x = pos (w.rand w.rand_calls % world_width) in
    let y = pos (w.rand (suc w.rand_calls) % world_height) in
    let info : PlayerInfo = record {
      name = b'N' ∷ decimal 7 (id - npc_id_start + 1) [];
      level = pos 5;
      x = x;
      y = y;
      hp = pos 30;
      max_hp = pos 30;
      exp = (w.clients id).info.exp;
    } in
    let w' = modify w id (λ s.
      init_lua_engine
        (record s { info = info; type = npc; state = sleep; attack_power = pos 10 })) in
    record w' { sectors = insert_id w.sectors id x y; rand_calls = suc (suc w.rand_calls) }

unfoldable pub init_npc : World → World
init_npc w = for_range max_npc npc_id_start init_one_npc w
