-- ===== src/Tests/Attacks.antt =====
-- The attack of an NPC at concrete sessions, and a slot that is used again.
use server_programming.Base.{
  arith, ◌⊎◌, ◌<◌, ◌≤◌, ◌-◌, ◌≡◌, refl, [], ◌==◌, if◌then◌else◌, ℕ, true, false, List, ◌∷◌,
}
use server_programming.Base.Int.{pos, negsuc}
use server_programming.Server.Session.{Session, accept, ingame}
use server_programming.Server.World.{World}
use server_programming.Server.Npc.{handle_npc_attack}
use server_programming.Server.Npc.Strike.{attacks, handle_npc_attack_lem}
use server_programming.Base.Sets.{mem}
use server_programming.Network.Protocol.{Packet}
use server_programming.Server.Clients.{
  find_free, get_available_id, disconnect, accept_new_client, process_login_packet,
}
use server_programming.Server.Sight.{handle_players_in_sight}
use server_programming.System.Screen.{screen}
use server_programming.System.Screen.Reuse.{reused_slot_hides}
use server_programming.Tests.Worlds.{session, world}

-- A client that has not logged in, on the tile of an NPC.
abbrev stranger : Session
stranger = let s = session 0 accept 4 [] 2 in record s { info = record s.info { hp = negsuc 0 } }

abbrev ambush : World
ambush = record (world 3) {
  clients = λ j.
      if j == 10000
      then record (session 10000 ingame 4 [] 2) { attack_power = pos 10 }
      else stranger;
}

handle_npc_attack_lem_example :
    let s' = (handle_npc_attack ambush 10000 0).clients 0 in
    (attacks ambush 10000 0 ≡ false) × (s' ≡ stranger)
    ⊎ (attacks ambush 10000 0 ≡ true)
      × ((10 < 0) × (s'.info.hp ≡ pos (0 - 10)) × (s'.state ≡ accept)
          ⊎ (0 ≤ 10) × (s'.info.hp ≡ pos 150) × (s'.state ≡ ingame))
handle_npc_attack_lem_example =
    handle_npc_attack_lem ambush 10000 0 10 refl refl (omega arith) (omega arith)

-- The slot of player 0, who looked at player 1, after he has left and the slot is given away
abbrev given : World
given = (get_available_id (disconnect (world 3) 0)).1

reused_slot_hides_example :
    let login = process_login_packet (accept_new_client given 0 5) (b'G' ∷ b'M' ∷ []) 0 in
    let viewlist = (login.clients 0).view_list in
    (mem 1 viewlist ≡ true)
    × ((sent : List (ℕ × Packet)) (sights : List ℕ)
        → screen sent 0 1 ≡ false
        → screen (handle_players_in_sight (record login { sent = sent }) sights viewlist 0).sent 0 1
          ≡ false)
unfolding disconnect get_available_id mem find_free
reused_slot_hides_example =
    reused_slot_hides (world 3) 0 1 refl refl given refl 5 (b'G' ∷ b'M' ∷ [])
