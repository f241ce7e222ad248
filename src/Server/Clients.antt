-- ===== src/Server/Clients.antt =====
-- How clients come and go: free slots, login, disconnection (GameServer/Server/IOCPServer.cpp).
pub mod Slots
use server_programming.Base.{
  ℕ, zero, suc, ◌+◌, Bool, true, false, not, ◌&&◌, ◌||◌, Option, none, some, List, [], ◌∷◌, ltb,
  ◌==◌, if◌then◌else◌, length,
}
use server_programming.Base.Int.{ℤ, pos, negsuc, ◌*ℤ◌, eqb_ℤ}
use server_programming.Server.PlayerInfo.{PlayerInfo, max_user, max_npc}
use server_programming.Server.Geometry.{is_npc}
use server_programming.Server.SectorManager.{insert_id}
use server_programming.Server.Session.{
  Session, free, accept, ingame, is_state, same_state, compare_and_change_state, assign_accepted_id,
  set_attack_duration, find_and_erase_view_id,
}
use server_programming.Server.Session
use server_programming.Server.DbHandler.{connect_with_id}
use server_programming.Server.World.{
  World, modify, for_each, for_range, fail, send_login_ok_packet, send_login_fail_packet,
  send_remove_packet,
}
use server_programming.Server.Sight.{send_near_players_info}

-- `GetAvailableID` over `count` slots from `first` on: `none` for -1.
unfoldable pub find_free : ℕ → ℕ → World → Option ℕ × World
unfolding compare_and_change_state
find_free zero first w = (none, w)
find_free (suc count) first w =
    let changed = (compare_and_change_state (w.clients first) free accept).0 in
    let w' = modify w first (λ s. (compare_and_change_state s free accept).1) in
    let rest = find_free count (suc first) w' in if changed then (some first, w') else rest

unfoldable pub get_available_id : World → Option ℕ × World
get_available_id w = find_free max_user 0 w

-- `RecvMsg`: the session asks its socket for data.
unfoldable pub recv_msg : World → ℕ → World
recv_msg w id = record w { receiving = id ∷ w.receiving }

unfoldable pub accept_new_client : World → ℕ → ℕ → World
unfolding assign_accepted_id recv_msg
accept_new_client w id sck =
    let w' = modify w id (λ s. assign_accepted_id s id sck) in
    recv_msg (record w' { registered = (sck, id) ∷ w.registered }) id

-- `strncmp(name, "GM", 2) == 0`
unfoldable pub is_gm : List ℕ → Bool
is_gm (g ∷ m ∷ rest) = g == b'G' && m == b'M'
is_gm _ = false

-- The body of the loop of `Disconnect` over the view list
unfoldable pub say_goodbye : ℕ → ℕ → World → World
unfolding is_state find_and_erase_view_id
say_goodbye id pid w =
    let erased = (find_and_erase_view_id (w.clients pid) id).0 in
    let w' = modify w pid (λ s. (find_and_erase_view_id s id).1) in
    if is_npc pid || not (is_state (w.clients pid) ingame)
    then w
    else if erased
    then send_remove_packet w' pid id
    else w'

unfoldable pub disconnect : World → ℕ → World
unfolding is_gm Session.disconnect
disconnect w id =
    let w₁ = for_each (w.clients id).view_list (say_goodbye id) w in
    let w₂ : World =
      if is_gm (w₁.clients id).info.name
      then w₁
      else record w₁ { updates = (w₁.clients id).info ∷ w₁.updates } in
    modify w₂ id Session.disconnect

-- The record of a game master. `strncpy_s` rejects a name that does not fit with its NUL.
unfoldable pub as_gm : Session → List ℕ → Session
as_gm s name = record s {
  info = record {
    name = name;
    level = pos 1000;
    x = pos 100;
    y = pos 100;
    hp = pos 1000;
    max_hp = pos 10000;
    exp = pos 100;
  };
  attack_power = pos 1000;
}

unfoldable pub as_player : Session → PlayerInfo → ℕ → Session
unfolding set_attack_duration
as_player s info now =
    set_attack_duration (record s { info = info; attack_power = info.level *ℤ pos 5 }) now 1000

-- The end of `ProcessLoginPacket`, for both kinds of user: the player is put on the grid, and the
-- exchange of his state is tried.
unfoldable pub put_in_game : World → ℕ → World
unfolding compare_and_change_state
put_in_game w my_id =
    let info = (w.clients my_id).info in
    let w₁ = record w { sectors = insert_id w.sectors my_id info.x info.y } in
    modify w₁ my_id (λ s. (compare_and_change_state s accept ingame).1)

unfoldable pub enter_game : World → ℕ → World
unfolding compare_and_change_state
enter_game w my_id =
    let changed = (compare_and_change_state (w.clients my_id) accept ingame).0 in
    let w' = put_in_game w my_id in
    if changed then send_near_players_info (send_login_ok_packet w' my_id) my_id else w'

-- The answer to a login that the database does not refuse and refuses.
unfoldable pub login_player : World → Option (ℤ × PlayerInfo) → ℕ → World
unfolding as_player Session.disconnect
login_player w none my_id = fail w
login_player w (some (code, info)) my_id =
    if eqb_ℤ code (pos 1)
    then enter_game (modify w my_id (λ s. as_player s info w.now)) my_id
    else modify (send_login_fail_packet w (some my_id) code) my_id Session.disconnect

-- The name is that of the packet, up to its NUL.
unfoldable pub process_login_packet : World → List ℕ → ℕ → World
unfolding is_gm as_gm
process_login_packet w name my_id =
    if is_gm name
    then (if ltb (length name) 20
        then enter_game (modify w my_id (λ s. as_gm s name)) my_id
        else fail w)
    else login_player w (connect_with_id w.database name) my_id
