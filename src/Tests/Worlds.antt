-- ===== src/Tests/Worlds.antt =====
-- The server at concrete worlds.
use server_programming.Base.{
  ℕ, ◌≡◌, refl, List, [], ◌∷◌, none, some, arith, true, false, not, ◌&&◌, ◌||◌, ◌==◌, if◌then◌else◌,
}
use server_programming.Base.Sets.{mem}
use server_programming.Base.Int.{pos, ◌-ℤ◌, quot}
use server_programming.Network.BufferQueue.{BufferQueue, Memory}
use server_programming.Server.Geometry.{is_npc}
use server_programming.Server.SectorManager.{
  Sector, same_sector, get_sector_index, get_ids_in_sector,
}
use server_programming.Server.Session.{
  Session, State, free, ingame, player, is_state, increase_level_with_condition,
}
use server_programming.Server.Session.Level.{Promoted, increase_level_total}
use server_programming.Server.DbHandler.{exec_error}
use server_programming.Server.World.{World}
use server_programming.Server.Sight.{
  is_visible, handle_players_in_sight, handle_disappeared_players,
}
use server_programming.Server.Sight.Gather.{in_sectors, mem-gather}
use server_programming.Server.Sight.{gather}
use server_programming.Server.Sight.Views.{views, IsMutual, views_follow_sight}
use server_programming.Server.Packets.{hit_npc, tiles, attack_one, move_client, process_packets}
use server_programming.Server.Packets.Settle.{IsTracked}
use server_programming.Server.Packets.Move.{stepped, views-move_client}
use server_programming.Server.Packets.Loop.{
  Reads, Framed, partial, packet, process_packets_total, zero_size_diverges,
}
use server_programming.Server.Packets.Attack.{beside, attack_one_lem}

-- A receive buffer with the three bytes of a teleport packet, the first of them its size, and one more.
abbrev bytes : ℕ → Memory
bytes size i = if i == 0 then size else if i == 1 then 5 else 2

abbrev received : ℕ → BufferQueue
received size = record {
  read_index = pos 0;
  write_index = pos 3;
  remain_size = pos 1021;
  buffer = bytes size;
}

-- A client at a position with a view list and a receive buffer.
abbrev pub session : ℕ → State → ℕ → List ℕ → ℕ → Session
session id state x view_list size = record {
  id = id;
  info = record {
    name = [];
    level = pos 1;
    x = pos x;
    y = pos 4;
    hp = pos 150;
    max_hp = pos 150;
    exp = pos 120;
  };
  attack_power = pos 5;
  type = player;
  last_move_time = pos 0;
  socket = 1;
  socket_open = true;
  lua = none;
  recv_buffer = received size;
  view_list = view_list;
  state = state;
  attacked_time = 0;
  attack_duration = 0;
}

-- Players 0 and 1 look at each other; player 0 has sent a packet of the size.
abbrev players : ℕ → ℕ → Session
players size id =
    if id == 0
    then session 0 ingame 3 (1 ∷ []) size
    else if id == 1
    then session 1 ingame 5 (0 ∷ []) 2
    else session id free 0 [] 2

abbrev first : Sector
first = record { row = pos 0; col = pos 0 }

-- Both stand in the first sector.
abbrev pub world : ℕ → World
world size = record {
  clients = players size;
  sectors = record {
    width = 20;
    height = 20;
    ids = λ s. if same_sector s first then 0 ∷ 1 ∷ [] else [];
  };
  timers = [];
  sent = [];
  receiving = [];
  registered = [];
  accepts = 0;
  posted = [];
  updates = [];
  database = λ _. exec_error;
  rand = λ n. n;
  rand_calls = 30;
  now = 5000;
  fault = false;
}

world-IsTracked : (size : ℕ) → IsTracked (world size)
unfolding is_state get_ids_in_sector get_sector_index quot mem
world-IsTracked size = record {
  grid = (refl, refl);
  in_x = λ j a. ground arith;
  in_y = λ j a. ground arith;
  held = λ j a. ground arith;
}

world-IsMutual : (size : ℕ) → IsMutual (world size) 0
unfolding is_npc mem
world-IsMutual size = record { not_self = refl; both = λ j p. ground arith }

views-move_client_example :
    (let w' = stepped (world 3) 0 (pos 3) (pos 77) in
      views (move_client (world 3) 0 (pos 3) (pos 77)) 1 0 ≡ (
        if 1 == 0
        then is_visible w' 0 0
        else if 0 == 0 && not (is_npc 1)
        then is_visible w' 0 1
        else views (world 3) 1 0))
unfolding is_state
views-move_client_example =
    views-move_client (world 3) 0 (pos 3) (pos 77) (world-IsTracked 3) refl (world-IsMutual 3) 1 0

-- Player 1 is out of sight, and client 2 comes into sight.
views_follow_sight_example :
    (let w' =
        handle_disappeared_players
          (handle_players_in_sight (world 3) (2 ∷ []) (1 ∷ []) 0)
          (2 ∷ [])
          (1 ∷ [])
          0 in
      views w' 2 0 ≡ (
        if 2 == 0
        then mem 0 (2 ∷ [])
        else if 0 == 0 && not (is_npc 2)
        then mem 2 (2 ∷ [])
        else views (world 3) 2 0))
unfolding mem
views_follow_sight_example = views_follow_sight (world 3) (2 ∷ []) 0 refl (world-IsMutual 3) 2 0

received-Reads : (size : ℕ) → Reads (received size) (bytes size) 0 3
received-Reads size = record {
  read_eq = refl;
  write_eq = refl;
  remain_eq = refl;
  memory_eq = refl;
  inside = omega arith;
}

-- The packet has two of the three bytes, and the third one begins another.
received-Framed : Framed (bytes 2) 0 3
received-Framed =
    packet 0 1 2 refl (omega arith) (omega arith) (partial 2 1 (omega arith) (omega arith))

process_packets_total_example : (w' : World) × (process_packets 4 (world 2) 0 ≡ some w')
process_packets_total_example =
    process_packets_total 4 (world 2) 0 (bytes 2) 0 3 (received-Reads 2) received-Framed
      (omega arith)

zero_size_diverges_example : process_packets 1000 (world 0) 0 ≡ none
zero_size_diverges_example =
    zero_size_diverges 1000 (world 0) 0 (bytes 0) 0 3 (received-Reads 0) (omega arith) refl
      (omega arith) (omega arith)

-- The player has the experience for level 2.
increase_level_total_example :
    (t : Session) × (increase_level_with_condition 26 (players 3 0) ≡ some t)
    × Promoted (players 3 0) 0 120 t
increase_level_total_example =
    increase_level_total 26
      (record { level_eq = refl; exp_eq = refl; level_ok = omega arith; exp_ok = omega arith })
      (omega arith)

-- The world with an NPC beside player 0.
abbrev hunting : World
hunting = record (world 3) {
  clients = λ j. if j == 10000 then session 10000 ingame 4 [] 2 else players 3 j;
}

attack_one_lem_example : attack_one 0 (tiles (pos 3 -ℤ pos 1) (pos 4 -ℤ pos 1)) 10000 hunting ≡ (
    if is_npc 10000 && (beside (pos 4) (pos 3) && beside (pos 4) (pos 4))
    then hit_npc 0 10000 hunting
    else hunting)
attack_one_lem_example =
    attack_one_lem 0 10000 (players 3 0).info hunting (omega arith, omega arith)
      (omega arith, omega arith)

mem-gather_example :
    mem 1 (gather 0 (first ∷ []) ([], world 3)).0
    ≡ (in_sectors (world 3).sectors (first ∷ []) 1 && is_visible (world 3) 0 1 || mem 1 [])
mem-gather_example = mem-gather 0 (first ∷ []) ([], world 3) 1
