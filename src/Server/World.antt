-- ===== src/Server/World.antt =====
-- The state of `IOCPServer` and its sending methods (GameServer/Server/IOCPServer.h and .cpp). One
-- handler runs at a time, and the clock stands still meanwhile. `rand()` is a stream of numbers,
-- the database a function. `fault` is set where the source leaves its defined behaviour: an index
-- outside an array, or a string that a checked copy (`strcpy_s`) rejects, which ends the process.
pub mod Frame
use server_programming.Base.{
  ℕ, zero, suc, ◌+◌, ◌<◌, Bool, true, false, ◌&&◌, ◌||◌, Option, none, some, List, [], ◌∷◌, ltb,
  leb, ◌==◌, if◌then◌else◌, length,
}
use server_programming.Base.Int.{ℤ, pos, negsuc}
use server_programming.Network.Protocol.{
  Packet, login_ok, login_fail, put_object, move, remove_object, status_change, battle_result, chat,
}
use server_programming.Server.PlayerInfo.{PlayerInfo}
use server_programming.Server.Geometry.{is_npc}
use server_programming.Server.SectorManager.{SectorManager}
use server_programming.Server.Session.{Session}
use server_programming.Server.Timer.{TimerEvent, EventType, add_timer_event}
use server_programming.Server.DbHandler.{Database}

-- `sent` holds the receiver of each packet, the newest first; `receiving` the ids whose socket was
-- asked for data; `registered` the sockets given to the completion port with their ids, and `accepts`
-- how often the listening socket was asked for a client; `posted` the NPC moves posted to the
-- completion port with their targets; `updates` what was written to the database.
pub record World : Type 0 where
  pub clients : ℕ → Session
  pub sectors : SectorManager
  pub timers : List TimerEvent
  pub sent : List (ℕ × Packet)
  pub receiving : List ℕ
  pub registered : List (ℕ × ℕ)
  pub accepts : ℕ
  pub posted : List (ℕ × ℕ)
  pub updates : List PlayerInfo
  pub database : Database
  pub rand : ℕ → ℕ
  pub rand_calls : ℕ
  pub now : ℕ
  pub fault : Bool

-- An assignment to `gClients[id]`
abbrev pub modify : World → ℕ → (Session → Session) → World
modify w id f = record w { clients = λ j. if j == id then f (w.clients j) else w.clients j }

-- `for (id : ids) body`
unfoldable pub for_each : List ℕ → (ℕ → World → World) → World → World
for_each [] body w = w
for_each (id ∷ ids) body w = for_each ids body (body id w)

-- `for (int i = first; i < first + count; i++) body`
unfoldable pub for_range : ℕ → ℕ → (ℕ → World → World) → World → World
for_range zero first body w = w
for_range (suc count) first body w = for_range count (suc first) body (body first w)

unfoldable pub fail : World → World
fail w = record w { fault = true }

-- `gClients[id]->SendMsg`
unfoldable pub send_msg : World → ℕ → Packet → World
send_msg w id p = record w { sent = (id, p) ∷ w.sent }

unfoldable pub send_login_ok_packet : World → ℕ → World
unfolding send_msg
send_login_ok_packet w id =
    let info = (w.clients id).info in
    send_msg w id (login_ok id info.x info.y info.level info.hp info.max_hp info.exp)

-- The id is -1, `none`, where no slot is free: an index outside of `gClients`.
unfoldable pub send_login_fail_packet : World → Option ℕ → ℤ → World
unfolding send_msg fail
send_login_fail_packet w none reason = fail w
send_login_fail_packet w (some id) reason = send_msg w id (login_fail reason)

-- `strcpy_s` into the 20 characters of `name`
unfoldable pub send_put_object_packet : World → ℕ → ℕ → World
unfolding send_msg fail
send_put_object_packet w sender target =
    let info = (w.clients target).info in
    if ltb (length info.name) 20
    then send_msg w sender
        (put_object target info.x info.y (if is_npc target then 1 else 0) info.name)
    else fail w

unfoldable pub send_move_packet : World → ℕ → ℕ → World
unfolding send_msg
send_move_packet w sender target =
    let s = w.clients target in send_msg w sender (move target s.info.x s.info.y s.last_move_time)

unfoldable pub send_remove_packet : World → ℕ → ℕ → World
unfolding send_msg
send_remove_packet w sender target = send_msg w sender (remove_object target)

unfoldable pub send_status_change_packet : World → ℕ → World
unfolding send_msg
send_status_change_packet w sender =
    let info = (w.clients sender).info in
    send_msg w sender (status_change info.level info.hp info.max_hp info.exp)

unfoldable pub send_battle_result_packet : World → ℕ → ℕ → ℤ → ℤ → World
unfolding send_msg
send_battle_result_packet w sender target val type =
    send_msg w sender (battle_result type target val)

-- `strcpy_s` into the 100 characters of `message`
unfoldable pub send_chat_packet : World → ℕ → ℕ → List ℕ → World
unfolding send_msg fail
send_chat_packet w sender target msg =
    if ltb (length msg) 100 then send_msg w sender (chat target msg) else fail w

unfoldable pub add_timer : World → ℕ → ℕ → EventType → ℕ → World
add_timer w obj_id player_id type duration = record w {
  timers =
      add_timer_event
        (record {
          object_id = obj_id;
          target_id = player_id;
          type = type;
          start_time = w.now + duration;
        })
        w.timers;
}

-- `gTimer` handing a due NPC move to the completion port
unfoldable pub post_npc_move_event : World → ℕ → ℕ → World
post_npc_move_event w object_id target_id = record w { posted = (object_id, target_id) ∷ w.posted }

-- The events of Script/npc.lua, with the texts `attack_msg` and `hurt_msg`.
pub data LuaEvent : Type 0 where
  event_npc_attack event_npc_hurt : LuaEvent

abbrev pub lua_message : LuaEvent → List ℕ
lua_message event_npc_attack =
    b'T' ∷ b'a' ∷ b'k' ∷ b'e' ∷ b' ' ∷ b't' ∷ b'h' ∷ b'i' ∷ b's' ∷ b'!' ∷ []
lua_message event_npc_hurt = b'A' ∷ b'h' ∷ b'h' ∷ []

-- `API_SendMessage`, which the script calls with its `myid`, the player and the text.
unfoldable pub api_send_message : World → ℕ → ℕ → List ℕ → World
unfolding send_chat_packet
api_send_message w my_id user_id mess = send_chat_packet w user_id my_id mess

-- `ExecuteLuaFunc` of the session `id`
unfoldable pub execute_lua_func : World → ℕ → LuaEvent → ℕ → World
unfolding api_send_message
execute_lua_func w id event player_id = elim (w.clients id).lua [
  | none ↦ w
  | some my_id ↦ api_send_message w my_id player_id (lua_message event)
]
