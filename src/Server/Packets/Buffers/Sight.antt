-- ===== src/Server/Packets/Buffers/Sight.antt =====
-- The handlers of NPCs, sight and login leave every receive buffer as it is.
use server_programming.Base.{ℕ, zero, suc, ◌≡◌, refl, ◌∙◌, Option, none, some, List, [], ◌∷◌, arith}
use server_programming.Base.Int.{ℤ}
use server_programming.Server.PlayerInfo.{PlayerInfo}
use server_programming.Server.SectorManager.{Sector, get_ids_in_sector}
use server_programming.Server.Session.{Session, set_attack_duration}
use server_programming.Server.DbHandler.{connect_with_id}
use server_programming.Server.World.{
  World, modify, for_each, for_range, send_move_packet, send_put_object_packet, send_remove_packet,
  send_status_change_packet, send_battle_result_packet, execute_lua_func, send_login_ok_packet,
  send_login_fail_packet, fail,
}
use server_programming.Server.Npc.{
  activate_npc, strike, npc_attack, handle_npc_attack, forget_dead, handle_dead_npc,
}
use server_programming.Server.Sight.{
  meet, part, meet_npc, gather_one, gather_ids, gather, near_sectors, show_other, introduce,
  introduce_sectors, send_near_players_info,
}
use server_programming.Server.Clients.{
  put_in_game, as_gm, as_player, enter_game, login_player, process_login_packet,
}

-- Every receive buffer is as before.
abbrev pub Keeps : World → World → Type 0
Keeps w w' = (j : ℕ) → (w'.clients j).recv_buffer ≡ (w.clients j).recv_buffer

pub for_each-Keeps :
    (ids : List ℕ) (body : ℕ → World → World)
    → ((i : ℕ) (w : World) → Keeps w (body i w))
    → (w : World) → Keeps w (for_each ids body w)
unfolding for_each
for_each-Keeps [] body h w j = refl
for_each-Keeps (i ∷ ids) body h w j = for_each-Keeps ids body h (body i w) j ∙ h i w j

for_range-Keeps :
    (count first : ℕ) (body : ℕ → World → World)
    → ((i : ℕ) (w : World) → Keeps w (body i w))
    → (w : World) → Keeps w (for_range count first body w)
unfolding for_range
for_range-Keeps zero first body h w j = refl
for_range-Keeps (suc count) first body h w j =
    for_range-Keeps count (suc first) body h (body first w) j ∙ h first w j

-- NPCs.
activate_npc-Keeps : (npc player : ℕ) (w : World) → Keeps w (activate_npc w npc player)
unfolding activate_npc
activate_npc-Keeps npc player w j = ground arith

npc_attack-Keeps : (npc player : ℕ) (w : World) → Keeps w (npc_attack w npc player)
unfolding npc_attack execute_lua_func set_attack_duration strike send_battle_result_packet
    send_status_change_packet
npc_attack-Keeps npc player w j = ground arith

handle_npc_attack-Keeps : (npc player : ℕ) (w : World) → Keeps w (handle_npc_attack w npc player)
unfolding handle_npc_attack
handle_npc_attack-Keeps npc player w j = ground (arith, npc_attack-Keeps npc player w j)

meet_npc-Keeps : (me other : ℕ) (w : World) → Keeps w (meet_npc me other w)
unfolding meet_npc
meet_npc-Keeps me other w j = ground (
  arith,
  activate_npc-Keeps other me w j,
  handle_npc_attack-Keeps other me (activate_npc w other me) j,
)

forget_dead-Keeps : (npc player : ℕ) (w : World) → Keeps w (forget_dead npc player w)
unfolding forget_dead send_remove_packet
forget_dead-Keeps npc player w j = ground arith

pub handle_dead_npc-Keeps : (npc : ℕ) (w : World) → Keeps w (handle_dead_npc w npc)
unfolding handle_dead_npc
handle_dead_npc-Keeps npc w = for_range-Keeps _ 0 (forget_dead npc) (forget_dead-Keeps npc) w

-- Sight.
gather_one-Keeps : (me other : ℕ) (acc : List ℕ × World) → Keeps acc.1 (gather_one me other acc).1
unfolding gather_one
gather_one-Keeps me other (l, w) j = ground (arith, meet_npc-Keeps me other w j)

gather_ids-Keeps :
    (me : ℕ) (ids : List ℕ) (acc : List ℕ × World) → Keeps acc.1 (gather_ids me ids acc).1
unfolding gather_ids
gather_ids-Keeps me [] acc j = refl
gather_ids-Keeps me (o ∷ ids) acc j =
    gather_ids-Keeps me ids (gather_one me o acc) j ∙ gather_one-Keeps me o acc j

pub gather-Keeps :
    (me : ℕ) (ss : List Sector) (acc : List ℕ × World) → Keeps acc.1 (gather me ss acc).1
unfolding gather
gather-Keeps me [] acc j = refl
gather-Keeps me (s ∷ ss) acc j =
    gather-Keeps me ss _ j ∙ gather_ids-Keeps me (get_ids_in_sector acc.1.sectors s) acc j

pub meet-Keeps : (viewlist : List ℕ) (me pid : ℕ) (w : World) → Keeps w (meet viewlist me pid w)
unfolding meet send_move_packet send_put_object_packet
meet-Keeps viewlist me pid w j = ground arith

pub part-Keeps : (sights : List ℕ) (me pid : ℕ) (w : World) → Keeps w (part sights me pid w)
unfolding part send_remove_packet
part-Keeps sights me pid w j = ground arith

show_other-Keeps : (me other : ℕ) (w : World) → Keeps w (show_other me other w)
unfolding show_other send_put_object_packet
show_other-Keeps me other w j = ground arith

introduce-Keeps : (me other : ℕ) (w : World) → Keeps w (introduce me other w)
unfolding introduce
introduce-Keeps me other w j = ground (
  arith,
  show_other-Keeps me other w j,
  show_other-Keeps other me (show_other me other w) j,
  activate_npc-Keeps other me (show_other me other w) j,
  handle_npc_attack-Keeps other me (activate_npc (show_other me other w) other me) j,
)

introduce_sectors-Keeps :
    (me : ℕ) (ss : List Sector) (w : World) → Keeps w (introduce_sectors me ss w)
unfolding introduce_sectors
introduce_sectors-Keeps me [] w j = refl
introduce_sectors-Keeps me (s ∷ ss) w j =
    introduce_sectors-Keeps me ss _ j
    ∙ for_each-Keeps (get_ids_in_sector w.sectors s) (introduce me) (introduce-Keeps me) w j

-- Login.
put_in_game-Keeps : (me : ℕ) (w : World) → Keeps w (put_in_game w me)
unfolding put_in_game
put_in_game-Keeps me w j = ground arith

near-Keeps : (me : ℕ) (w : World) → Keeps w (send_near_players_info w me)
unfolding send_near_players_info
near-Keeps me w j = introduce_sectors-Keeps me (near_sectors w me) w j

enter_game-Keeps : (me : ℕ) (w : World) → Keeps w (enter_game w me)
unfolding enter_game send_login_ok_packet
enter_game-Keeps me w j =
    ground (
      arith,
      put_in_game-Keeps me w j,
      near-Keeps me (send_login_ok_packet (put_in_game w me) me) j,
    )

pub modified-Keeps :
    (w : World) (id : ℕ) (f : Session → Session)
    → ((s : Session) → (f s).recv_buffer ≡ s.recv_buffer)
    → Keeps w (modify w id f)
modified-Keeps w id f h j = ground (arith, h (w.clients j))

login_player-Keeps :
    (answer : Option (ℤ × PlayerInfo)) (me : ℕ) (w : World) → Keeps w (login_player w answer me)
unfolding login_player send_login_fail_packet fail
login_player-Keeps none me w j = refl
login_player-Keeps (some (code, info)) me w j =
    ground (arith, enter_game-Keeps me (modify w me (λ s. as_player s info w.now)) j)

pub process_login_packet-Keeps :
    (name : List ℕ) (me : ℕ) (w : World) → Keeps w (process_login_packet w name me)
unfolding process_login_packet fail
process_login_packet-Keeps name me w j = ground (
  arith,
  enter_game-Keeps me (modify w me (λ s. as_gm s name)) j,
  login_player-Keeps (connect_with_id w.database name) me w j,
)
