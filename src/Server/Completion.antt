-- ===== src/Server/Completion.antt =====
-- The threads of the server: what a completed operation and a due timer event set off, start and
-- end (GameServer/Server/IOCPServer.cpp, Timer.cpp, GameServer/Network/WSAOverlappedEx.h).
pub mod Drain
use server_programming.Base.{
  ℕ, zero, suc, ◌+◌, Bool, true, false, not, ◌&&◌, ◌||◌, Option, none, some, List, [], ◌∷◌, ◌==◌,
  if◌then◌else◌,
}
use server_programming.Base.Int.{pos}
use server_programming.Network.BufferQueue.Contents.{receive}
use server_programming.Server.PlayerInfo.{
  max_user, max_npc, npc_id_start, sector_width, sector_height,
}
use server_programming.Server.Geometry.{is_npc}
use server_programming.Server.SectorManager
use server_programming.Server.Session.{free, ingame, sleep, is_state, init_state}
use server_programming.Server.Session
use server_programming.Server.Timer.{TimerEvent, EventType, take_due}
use server_programming.Server.DbHandler.{Database}
use server_programming.Server.World.{
  World, modify, for_range, send_login_fail_packet, post_npc_move_event, add_timer,
}
use server_programming.Server.Npc.{sees, move_npc, revive_npc, init_npc}
use server_programming.Server.Clients.{get_available_id, recv_msg, accept_new_client, disconnect}
use server_programming.Server.Packets.{process_packets}

-- A completed operation of `enum class OP`: the bytes that the socket received; the bytes sent and
-- those asked for; the socket accepted; the target of an NPC's move.
pub data Operation : Type 0 where
  recv : List ℕ → Operation
  send : (sent asked : ℕ) → Operation
  accept : ℕ → Operation
  npc_move player_move : ℕ → Operation

-- The loop that looks for a player who keeps the NPC moving.
unfoldable pub keep_alive : World → ℕ → ℕ → ℕ → Bool
unfolding sees
keep_alive w id zero first = false
keep_alive w id (suc count) first = sees w id first || keep_alive w id count (suc first)

unfoldable pub on_npc_move : World → ℕ → ℕ → World
unfolding is_state init_state add_timer
on_npc_move w id target =
    let w' = move_npc w id target in
    if not (is_state (w.clients id) ingame)
    then w
    else if keep_alive w' id npc_id_start 0
    then add_timer w' id target EventType.npc_move 1000
    else modify w' id (λ s. init_state s sleep)

-- The last call of the case waits for the next client.
unfoldable pub async_accept : World → World
async_accept w = record w { accepts = suc w.accepts }

unfoldable pub on_accept : Option ℕ × World → ℕ → World
unfolding async_accept
on_accept (none, w) sck = async_accept (send_login_fail_packet w none (pos 1))
on_accept (some id, w) sck = async_accept (accept_new_client w id sck)

-- The bytes stand in the session's buffer when the operation completes.
unfoldable pub on_recv : ℕ → World → ℕ → List ℕ → Option World
on_recv fuel w id [] = some (disconnect w id)
on_recv fuel w id (b ∷ bytes) =
    elim (process_packets fuel
      (modify w id (λ s. record s { recv_buffer = receive s.recv_buffer (b ∷ bytes) })) id) [
        | none ↦ none
        | some w' ↦ some (recv_msg w' id)
      ]

-- `none` where the fuel for the packets runs out.
unfoldable pub handle_completion_info : ℕ → World → Operation → ℕ → Option World
unfolding on_recv on_accept
handle_completion_info fuel w (recv bytes) id = on_recv fuel w id bytes
handle_completion_info fuel w (send sent asked) id =
    some (if sent == asked then w else disconnect w id)
handle_completion_info fuel w (accept sck) id = some (on_accept (get_available_id w) sck)
handle_completion_info fuel w (npc_move target) id = some (on_npc_move w id target)
handle_completion_info fuel w (player_move target) id = some w

-- One round of `NetworkThreadFunc`, for an entry that is not null.
unfoldable pub network_step : ℕ → World → (success : Bool) → Operation → ℕ → Option World
network_step fuel w true op id = handle_completion_info fuel w op id
network_step fuel w false op id = some (disconnect w id)

-- The `switch` of `TimerThreadFunc`
unfoldable pub handle_event : World → TimerEvent → World
unfolding post_npc_move_event
handle_event w e = elim e.type [
  | EventType.npc_move ↦ post_npc_move_event w e.object_id e.target_id
  | EventType.npc_revive ↦ revive_npc w e.object_id
]

-- One round of the inner loop of `TimerThreadFunc`
unfoldable pub timer_step : World → World
unfolding take_due handle_event
timer_step w =
    let (event, queue) = take_due w.now w.timers in
    elim event [ none ↦ w | some e ↦ handle_event (record w { timers = queue }) e ]

-- The constructor of `IOCPServer`
unfoldable pub start : Database → (ℕ → ℕ) → ℕ → World
unfolding init_npc
start database rand now = init_npc (record {
  clients = Session.new now;
  sectors = SectorManager.new sector_width sector_height;
  timers = [];
  sent = [];
  receiving = [];
  registered = [];
  accepts = 0;
  posted = [];
  updates = [];
  database = database;
  rand = rand;
  rand_calls = 0;
  now = now;
  fault = false;
})

-- The destructor
unfoldable pub stop_one : ℕ → World → World
unfolding is_state
stop_one id w = if not (is_npc id) && not (is_state (w.clients id) free) then disconnect w id else w

unfoldable pub stop : World → World
stop w = for_range (max_user + max_npc) 0 stop_one w
