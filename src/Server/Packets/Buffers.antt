-- ===== src/Server/Packets/Buffers.antt =====
-- No packet handler touches a receive buffer: only the loop that calls them does.
mod Sight
mod Attack
use server_programming.Base.{
  ℕ, zero, suc, ◌≡◌, refl, ap, ◌∙◌, inl, inr, Bool-cases, Option, none, some, Option-cases, List,
  [], ◌∷◌, arith, ◌≤◌,
}
use server_programming.Base.Int.{ℤ, pos, to_char}
use server_programming.Network.BufferQueue.{Memory}
use server_programming.Server.PlayerInfo.{PlayerInfo}
use server_programming.Server.Geometry.{move_position}
use server_programming.Server.SectorManager.{Sector, get_ids_in_sector}
use server_programming.Server.Session.{
  Session, level_up, increase_level_with_condition, increase_exp, exp_gain, is_attack_time_out,
  set_attack_duration,
}
use server_programming.Server.DbHandler.{connect_with_id}
use server_programming.Server.World.Frame.{clients-chat}
use server_programming.Server.Packets.Settle.{relocated}
use server_programming.Server.Packets.Move.{thrown}
use server_programming.Server.World.{
  World, modify, for_each, for_range, send_move_packet, send_put_object_packet, send_remove_packet,
  send_status_change_packet, send_battle_result_packet, execute_lua_func, send_chat_packet,
  send_login_ok_packet, send_login_fail_packet, fail,
}
use server_programming.Server.Npc.{
  activate_npc, strike, npc_attack, handle_npc_attack, forget_dead, handle_dead_npc,
}
use server_programming.Server.Sight.{
  meet, part, meet_npc, gather_one, gather_ids, gather, near_sectors, handle_players_in_sight,
  handle_disappeared_players, show_other, introduce, introduce_sectors, send_near_players_info,
}
use server_programming.Server.Clients.{
  put_in_game, as_gm, as_player, enter_game, login_player, process_login_packet,
}
use server_programming.Network.Bytes.{c_string, read_int}
use server_programming.Server.Packets.{
  reward, bury, end_kill, wound, kill_npc, hit_npc, hit_tile, hit_tiles, attack_one,
  process_attack_packet, attack, settle, move_client, teleport_client, say_to, chat_around,
  handle_packet,
}
use server_programming.Server.Packets.Buffers.Sight.{
  Keeps, for_each-Keeps, handle_dead_npc-Keeps, gather-Keeps, meet-Keeps, part-Keeps,
  modified-Keeps, process_login_packet-Keeps,
}
use server_programming.Server.Packets.Buffers.Attack.{attack-Keeps}

-- Moves and chat.
settle-Keeps : (w : World) (id : ℕ) (prev : PlayerInfo) → Keeps w (settle w id prev)
unfolding settle handle_players_in_sight handle_disappeared_players send_move_packet
settle-Keeps w id prev j =
    for_each-Keeps (w₃.clients id).view_list (part found.0 id) (part-Keeps found.0 id) _ j
    ∙ for_each-Keeps found.0 (meet (w₃.clients id).view_list id)
        (meet-Keeps (w₃.clients id).view_list id) w₃ j
    ∙ gather-Keeps id (near_sectors w₁ id) ([], w₁) j
  where
    w₁ : World
    w₁ = relocated w id prev

    found : List ℕ × World
    found = gather id (near_sectors w₁ id) ([], w₁)

    w₃ : World
    w₃ = send_move_packet found.1 id id

move_client-Keeps :
    (w : World) (id : ℕ) (direction move_time : ℤ) → Keeps w (move_client w id direction move_time)
unfolding move_client
move_client-Keeps w id direction move_time j =
    settle-Keeps _ id (w.clients id).info j
    ∙ modified-Keeps w id
        (λ s. record s { info = move_position s.info direction; last_move_time = move_time })
        (λ s. refl) j

teleport_client-Keeps : (w : World) (id : ℕ) → Keeps w (teleport_client w id)
unfolding teleport_client
teleport_client-Keeps w id j = settle-Keeps (thrown w id) id (w.clients id).info j ∙ ground arith

say_to-Keeps : (id : ℕ) (message : List ℕ) (pid : ℕ) (w : World) → Keeps w (say_to id message pid w)
unfolding say_to send_chat_packet
say_to-Keeps id message pid w j = ground arith

chat_around-Keeps : (w : World) (id : ℕ) (message : List ℕ) → Keeps w (chat_around w id message)
unfolding chat_around
chat_around-Keeps w id message j =
    for_each-Keeps _ (say_to id message) (say_to-Keeps id message)
      (send_chat_packet w id id message) j
    ∙ ap (λ (c : ℕ → Session). (c j).recv_buffer) (clients-chat w id id message)

-- Every packet.
pub handle_packet-Keeps :
    (w w' : World) (id : ℕ) (packet : Memory) → handle_packet w id packet ≡ some w' → Keeps w w'
unfolding handle_packet
handle_packet-Keeps w w' id packet e j = ground (
  arith,
  process_login_packet-Keeps (c_string 20 packet 2) id w j,
  move_client-Keeps w id (to_char (pos (packet 2))) (read_int packet 3) j,
  teleport_client-Keeps w id j,
  chat_around-Keeps w id (c_string 100 packet 2) j,
  attack-Keeps id w j,
)

-- The five types that the `switch` knows.
pub handle_packet-known :
    (w : World) (id : ℕ) (packet : Memory)
    → 1 ≤ packet 1
    → packet 1 ≤ 5
    → (w' : World) × (handle_packet w id packet ≡ some w')
unfolding handle_packet
handle_packet-known w id packet low high = elim (Option-cases (handle_packet w id packet)) [
  | inl unknown ↦ absurd (ground arith)
  | inr known ↦ known
]
