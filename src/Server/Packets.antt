-- ===== src/Server/Packets.antt =====
-- `ProcessPackets` and the packets of a player (GameServer/Server/IOCPServer.cpp). A packet is the
-- memory from its first byte on: a field beyond its stated size reads what follows in the buffer.
pub mod Loop
pub mod Stream
pub mod Settle
pub mod Move
pub mod Order
pub mod Attack
mod Buffers
use server_programming.Base.{
  ℕ, zero, suc, ◌+◌, ◌-◌, ◌*◌, ◌%◌, Bool, true, false, not, ◌&&◌, ◌||◌, Option, none, some, List,
  [], ◌∷◌, ◌==◌, if◌then◌else◌,
}
use server_programming.Base.Int.{ℤ, pos, negsuc, ◌+ℤ◌, ◌-ℤ◌, leb_ℤ, to_short, to_char, to_int}
use server_programming.Network.BufferQueue.{
  BufferQueue, Memory, byte_at, clear, readable, buf_read_ptr,
}
use server_programming.Network.Bytes.{c_string, read_int}
use server_programming.Server.PlayerInfo.{PlayerInfo, world_width, world_height}
use server_programming.Server.Geometry.{is_npc, move_position}
use server_programming.Server.SectorManager.{move_id}
use server_programming.Server.Session.{
  Session, dead, is_same_position, is_attack_time_out, set_attack_duration, decrease_hp, is_dead,
  increase_exp, exp_gain, init_state,
}
use server_programming.Server.Timer.{npc_revive}
use server_programming.Server.World.{
  World, event_npc_hurt, modify, for_each, fail, send_move_packet, send_status_change_packet,
  send_battle_result_packet, send_chat_packet, add_timer, execute_lua_func,
}
use server_programming.Server.Npc.{handle_dead_npc}
use server_programming.Server.Sight.{
  gather, near_sectors, handle_players_in_sight, handle_disappeared_players,
}
use server_programming.Server.Clients.{process_login_packet}

-- The levels that a loop of level-ups can pass: those of a `short`, and the first ones once more.
abbrev pub level_fuel : ℕ
level_fuel = 65600

-- The player's new record and experience are announced.
unfoldable pub reward : ℕ → ℕ → ℤ → Session → World → World
unfolding send_status_change_packet send_battle_result_packet
reward id pid amount s w =
    send_battle_result_packet (send_status_change_packet (modify w id (λ _. s)) id) id pid amount
      (pos 2)

-- `HandleDeadNPC`, the state, and the timer for the revival.
unfoldable pub bury : ℕ → ℕ → World → World
unfolding init_state add_timer
bury id pid w =
    add_timer (modify (handle_dead_npc w pid) pid (λ t. init_state t dead)) pid id npc_revive 3000

-- The NPC `pid` dies by the hand of `id`, whose record afterwards is given if the level-ups end.
unfoldable pub end_kill : ℕ → ℕ → ℤ → Option Session → World → World
end_kill id pid op_level none w = fail w
end_kill id pid op_level (some s) w = bury id pid (reward id pid (exp_gain op_level) s w)

unfoldable pub kill_npc : ℕ → ℕ → World → World
kill_npc id pid w =
    let op_level = (w.clients pid).info.level in
    end_kill id pid op_level (increase_exp level_fuel (w.clients id) op_level) w

-- The player `id` hits the NPC `pid`.
unfoldable pub wound : ℕ → ℕ → World → World
unfolding decrease_hp send_battle_result_packet execute_lua_func
wound id pid w =
    let power = (w.clients id).attack_power in
    let w₁ = modify w pid (λ t. decrease_hp t power) in
    execute_lua_func (send_battle_result_packet w₁ id pid power (pos 0)) pid event_npc_hurt id

unfoldable pub hit_npc : ℕ → ℕ → World → World
unfolding is_dead
hit_npc id pid w =
    let w' = wound id pid w in if is_dead (w'.clients pid) then kill_npc id pid w' else w'

-- One of the nine tiles that the attack reaches; `IsSamePosition` takes its column and row as `short`.
unfoldable pub hit_tile : ℕ → ℕ → ℤ × ℤ → World → World
unfolding is_same_position to_short
hit_tile id pid (col, row) w =
    if is_same_position (w.clients pid) (to_short col) (to_short row) then hit_npc id pid w else w

-- The tiles of the two loops over rows and columns, from (col, row) on
abbrev pub tiles : ℤ → ℤ → List (ℤ × ℤ)
tiles col row =
    (col, row)
    ∷ (col +ℤ pos 1, row)
    ∷ (col +ℤ pos 2, row)
    ∷ (col, row +ℤ pos 1)
    ∷ (col +ℤ pos 1, row +ℤ pos 1)
    ∷ (col +ℤ pos 2, row +ℤ pos 1)
    ∷ (col, row +ℤ pos 2)
    ∷ (col +ℤ pos 1, row +ℤ pos 2)
    ∷ (col +ℤ pos 2, row +ℤ pos 2)
    ∷ []

unfoldable pub hit_tiles : ℕ → ℕ → List (ℤ × ℤ) → World → World
hit_tiles id pid [] w = w
hit_tiles id pid (t ∷ ts) w = hit_tiles id pid ts (hit_tile id pid t w)

-- The body of the loop over the view list
unfoldable pub attack_one : ℕ → List (ℤ × ℤ) → ℕ → World → World
attack_one id area pid w = if not (is_npc pid) then w else hit_tiles id pid area w

unfoldable pub process_attack_packet : World → ℕ → List ℕ → World
unfolding send_battle_result_packet
process_attack_packet w id viewlist =
    let info = (w.clients id).info in
    let area = tiles (info.x -ℤ pos 1) (info.y -ℤ pos 1) in
    send_battle_result_packet (for_each viewlist (attack_one id area) w) id 0 (pos 0) (negsuc 0)

unfoldable pub attack : World → ℕ → World
unfolding is_attack_time_out set_attack_duration
attack w id =
    if is_attack_time_out (w.clients id) w.now
    then process_attack_packet (modify w id (λ s. set_attack_duration s w.now 1000)) id
        (w.clients id).view_list
    else w

-- The player stands at a new place: the sectors, those in sight, and the view lists follow.
unfoldable pub settle : World → ℕ → PlayerInfo → World
settle w id prev =
    let next = (w.clients id).info in
    let w₁ = record w { sectors = move_id w.sectors id prev.x prev.y next.x next.y } in
    let (nearlist, w₂) = gather id (near_sectors w₁ id) ([], w₁) in
    let w₃ = send_move_packet w₂ id id in
    let viewlist = (w₃.clients id).view_list in
    handle_disappeared_players (handle_players_in_sight w₃ nearlist viewlist id) nearlist viewlist
      id

unfoldable pub move_client : World → ℕ → ℤ → ℤ → World
unfolding settle
move_client w id direction move_time =
    let prev = (w.clients id).info in
    settle
      (modify w id
        (λ s. record s { info = move_position s.info direction; last_move_time = move_time }))
      id prev

unfoldable pub teleport_client : World → ℕ → World
unfolding settle
teleport_client w id =
    let prev = (w.clients id).info in
    let x' = pos (w.rand w.rand_calls % world_width) in
    let y' = pos (w.rand (suc w.rand_calls) % world_height) in
    let w' =
      modify w id (λ s. let info = s.info in record s { info = record info { x = x'; y = y' } }) in
    settle (record w' { rand_calls = suc (suc w.rand_calls) }) id prev

unfoldable pub say_to : ℕ → List ℕ → ℕ → World → World
say_to id message pid w = if is_npc pid then w else send_chat_packet w pid id message

unfoldable pub chat_around : World → ℕ → List ℕ → World
unfolding send_chat_packet
chat_around w id message =
    let w' = send_chat_packet w id id message in
    for_each (w'.clients id).view_list (say_to id message) w'

-- The `switch` on the type of the packet; `none` is its `default`.
unfoldable pub handle_packet : World → ℕ → Memory → Option World
unfolding c_string to_char
handle_packet w id packet =
    let type = packet 1 in
    if type == 1
    then some (process_login_packet w (c_string 20 packet 2) id)
    else if type == 2
    then some (move_client w id (to_char (pos (packet 2))) (read_int packet 3))
    else if type == 5
    then some (teleport_client w id)
    else if type == 4
    then some (chat_around w id (c_string 100 packet 2))
    else if type == 3
    then some (attack w id)
    else none

-- The memory from an address on
abbrev pub from : Memory → ℤ → Memory
from m base i = byte_at m (base +ℤ pos i)

abbrev pub set_buffer : World → ℕ → BufferQueue → World
set_buffer w id q = modify w id (λ s. record s { recv_buffer = q })

-- The end of a round, by the result of the handler: whether the loop goes on, and the world.
unfoldable pub end_round : World → ℕ → BufferQueue → Option World → Bool × World
unfolding clear
end_round w id q none = (false, set_buffer w id (clear q))
end_round w id q (some w') = (true, w')

-- The rest of a round after `BufReadPtr`. The type of a packet is read before the test for
-- `nullptr`.
unfoldable pub on_packet : World → ℕ → Option ℤ × BufferQueue → Bool × World
unfolding end_round
on_packet w id (none, q) = (false, fail (set_buffer w id (clear q)))
on_packet w id (some base, q) =
    end_round (set_buffer w id q) id q (handle_packet (set_buffer w id q) id (from q.buffer base))

unfoldable pub process_one : World → ℕ → Bool × World
unfolding on_packet
process_one w id = on_packet w id (buf_read_ptr (w.clients id).recv_buffer)

-- The loop, with fuel for its rounds.
unfoldable pub process_packets : ℕ → World → ℕ → Option World
process_packets zero w id = none
process_packets (suc fuel) w id =
    let (more, w') = process_one w id in
    let rest = process_packets fuel w' id in
    if not (readable (w.clients id).recv_buffer) then some w else if more then rest else some w'
