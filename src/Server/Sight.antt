-- ===== src/Server/Sight.antt =====
-- Who sees whom: the view lists of the players as they move, log in and leave
-- (GameServer/Server/IOCPServer.cpp).
pub mod Views
pub mod Gather
use server_programming.Base.{
  ℕ, Bool, true, false, not, ◌&&◌, ◌||◌, List, [], ◌∷◌, ◌==◌, if◌then◌else◌,
}
use server_programming.Base.Sets.{mem, insert}
use server_programming.Server.Geometry.{is_near, is_npc}
use server_programming.Server.SectorManager.{Sector, get_near_sector_indexes, get_ids_in_sector}
use server_programming.Server.Session.{
  Session, ingame, sleep, is_state, insert_view_id, erase_view_id, find_and_insert_view_id,
  find_and_erase_view_id,
}
use server_programming.Server.World.{
  World, modify, for_each, send_put_object_packet, send_move_packet, send_remove_packet,
}
use server_programming.Server.Npc.{activate_npc, handle_npc_attack}

-- The two `continue`s of the loops over a sector: active, not oneself, and near.
unfoldable pub is_visible : World → ℕ → ℕ → Bool
unfolding is_state
is_visible w id other =
    (is_state (w.clients other) ingame || is_state (w.clients other) sleep)
    && not (other == id)
    && is_near (w.clients other).info (w.clients id).info

-- An NPC in sight is woken, and may attack.
unfoldable pub meet_npc : ℕ → ℕ → World → World
meet_npc id other w =
    if is_npc other then handle_npc_attack (activate_npc w other id) other id else w

-- One id of a sector, in the loop of the move packet
unfoldable pub gather_one : ℕ → ℕ → List ℕ × World → List ℕ × World
unfolding is_visible meet_npc
gather_one id other (nearlist, w) =
    if is_visible w id other then (insert other nearlist, meet_npc id other w) else (nearlist, w)

unfoldable pub gather_ids : ℕ → List ℕ → List ℕ × World → List ℕ × World
gather_ids id [] acc = acc
gather_ids id (other ∷ ids) acc = gather_ids id ids (gather_one id other acc)

-- The ids of a sector are copied when the loop reaches the sector.
unfoldable pub gather : ℕ → List Sector → List ℕ × World → List ℕ × World
unfolding get_ids_in_sector
gather id [] acc = acc
gather id (s ∷ sectors) acc =
    gather id sectors (gather_ids id (get_ids_in_sector acc.1.sectors s) acc)

unfoldable pub near_sectors : World → ℕ → List Sector
near_sectors w id =
    let info = (w.clients id).info in get_near_sector_indexes w.sectors info.x info.y

-- The body of the loop of `HandlePlayersInSight`: first one's own list, then the other player's.
unfoldable pub see : List ℕ → ℕ → ℕ → World → World
unfolding insert_view_id
see viewlist my_id pid w =
    if mem pid viewlist
    then w
    else send_put_object_packet (modify w my_id (λ s. insert_view_id s pid)) my_id pid

unfoldable pub be_seen : ℕ → ℕ → World → World
unfolding find_and_insert_view_id
be_seen my_id pid w =
    let inserted = (find_and_insert_view_id (w.clients pid) my_id).0 in
    let w' = modify w pid (λ s. (find_and_insert_view_id s my_id).1) in
    if inserted then send_put_object_packet w' pid my_id else send_move_packet w' pid my_id

unfoldable pub meet : List ℕ → ℕ → ℕ → World → World
unfolding see be_seen
meet viewlist my_id pid w =
    let w' = see viewlist my_id pid w in if is_npc pid then w' else be_seen my_id pid w'

unfoldable pub handle_players_in_sight : World → List ℕ → List ℕ → ℕ → World
handle_players_in_sight w sights viewlist my_id = for_each sights (meet viewlist my_id) w

-- The body of the loop of `HandleDisappearedPlayers`
unfoldable pub lose_sight : ℕ → ℕ → World → World
unfolding erase_view_id
lose_sight my_id pid w = send_remove_packet (modify w my_id (λ s. erase_view_id s pid)) my_id pid

unfoldable pub be_lost : ℕ → ℕ → World → World
unfolding find_and_erase_view_id
be_lost my_id pid w =
    let erased = (find_and_erase_view_id (w.clients pid) my_id).0 in
    let w' = modify w pid (λ s. (find_and_erase_view_id s my_id).1) in
    if erased then send_remove_packet w' pid my_id else w'

unfoldable pub part : List ℕ → ℕ → ℕ → World → World
unfolding lose_sight be_lost
part sights my_id pid w =
    if mem pid sights
    then w
    else let w' = lose_sight my_id pid w in if is_npc pid then w' else be_lost my_id pid w'

unfoldable pub handle_disappeared_players : World → List ℕ → List ℕ → ℕ → World
handle_disappeared_players w sights viewlist my_id = for_each viewlist (part sights my_id) w

-- `InsertViewID` and `SendPutObjectPacket`
unfoldable pub show_other : ℕ → ℕ → World → World
unfolding insert_view_id
show_other target other w =
    send_put_object_packet (modify w target (λ s. insert_view_id s other)) target other

-- One id of a sector, in `SendNearPlayersInfo`
unfoldable pub introduce : ℕ → ℕ → World → World
introduce target other w =
    let w₁ = show_other target other w in
    if not (is_visible w target other)
    then w
    else if is_npc other
    then handle_npc_attack (activate_npc w₁ other target) other target
    else show_other other target w₁

unfoldable pub introduce_sectors : ℕ → List Sector → World → World
unfolding get_ids_in_sector
introduce_sectors target [] w = w
introduce_sectors target (s ∷ sectors) w =
    introduce_sectors target sectors (for_each (get_ids_in_sector w.sectors s) (introduce target) w)

unfoldable pub send_near_players_info : World → ℕ → World
send_near_players_info w target = introduce_sectors target (near_sectors w target) w
