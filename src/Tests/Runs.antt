-- ===== src/Tests/Runs.antt =====
-- A run of the server from its start.
use server_programming.Base.{
  ℕ, zero, suc, ◌<◌, ◌≡◌, refl, ap, ◌∙◌, List, [], some, arith, true, false, Option,
}
use server_programming.Server.PlayerInfo.{max_npc, npc_id_start}
use server_programming.Server.Session.{Session, free, compare_and_change_state, assign_accepted_id}
use server_programming.Server.Session
use server_programming.Server.DbHandler.{Database, Row, fetched}
use server_programming.Server.World.{World, modify, for_each, for_range}
use server_programming.Server.Npc.{init_one_npc, init_npc}
use server_programming.Server.Clients.{
  find_free, get_available_id, accept_new_client, say_goodbye, disconnect,
}
use server_programming.Server.Sight.Views.{views}
use server_programming.Server.Completion.{
  accept, recv, on_recv, network_step, handle_completion_info, on_accept, async_accept, start,
}
use server_programming.Client.NetClient.Screen.{displays}
use server_programming.System.Runs.{Reached, begin, next, network}
use server_programming.System.Grid.{IsSound}
use server_programming.System.Grid.Runs.{reached-IsTracked}
use server_programming.Server.Packets.Settle.{IsTracked}
use server_programming.Base.Int.{pos}
use server_programming.System.Screen.Play.{play, scene_shows_views}
use server_programming.Tests.Clients.{client}

-- Every player is stored at one place.
abbrev row : Row
row = record {
  level = pos 1;
  x = pos 5;
  y = pos 7;
  hp = pos 10;
  max_hp = pos 10;
  exp = pos 0;
  connected = false;
}

abbrev database : Database
database name = fetched row

database-IsSound : IsSound database
database-IsSound name r e =
    let (x, y) : (r.x ≡ pos 5) × (r.y ≡ pos 7) = (ground arith, ground arith) in
    rw (x, y) ((refl, omega arith), (refl, omega arith))

abbrev started : World
started = start database (λ _. 0) 0

-- The slot 0 and the fault are as before the NPCs were made.
npcs_keep :
    (count first : ℕ) (w : World)
    → 0 < first
    → ((for_range count first init_one_npc w).clients 0 ≡ w.clients 0)
      × ((for_range count first init_one_npc w).fault ≡ w.fault)
unfolding for_range init_one_npc
npcs_keep zero first w h = (refl, refl)
npcs_keep (suc count) first w h =
    let (a, b) = npcs_keep count (suc first) (init_one_npc first w) (omega arith) in
    (a ∙ ground arith, b)

started-slot : (started.clients 0 ≡ Session.new 0 0) × (started.fault ≡ false)
unfolding start init_npc
started-slot = npcs_keep max_npc npc_id_start _ (omega arith)

-- The slot 0 is free, and is taken.
abbrev taken : World
taken = modify started 0 (λ s. (compare_and_change_state s free Session.accept).1)

new_free : (compare_and_change_state (Session.new 0 0) free Session.accept).0 ≡ true
unfolding compare_and_change_state Session.new
new_free = refl

first_slot :
    (count first : ℕ) (w : World)
    → (compare_and_change_state (w.clients first) free Session.accept).0 ≡ true
    → find_free (suc count) first w
      ≡ (some first, modify w first (λ s. (compare_and_change_state s free Session.accept).1))
unfolding find_free
first_slot count first w e = rw e refl

slot_taken : get_available_id started ≡ (some 0, taken)
unfolding get_available_id
slot_taken = first_slot 9999 0 started is_free
  where
    is_free : (compare_and_change_state (started.clients 0) free Session.accept).0 ≡ true
    is_free =
        ap (λ (s : Session). (compare_and_change_state s free Session.accept).0) started-slot.0
        ∙ new_free

-- The first client is accepted on the socket 7, and hangs up.
abbrev accepted : World
accepted = async_accept (accept_new_client taken 0 7)

abbrev left : World
left = disconnect accepted 0

accept_step : network_step 9 started true (accept 7) 0 ≡ some accepted
unfolding network_step handle_completion_info on_accept
accept_step = ap (λ (r : Option ℕ × World). some (on_accept r 7)) slot_taken

leave_step : network_step 9 accepted true (recv []) 0 ≡ some left
unfolding network_step handle_completion_info on_recv
leave_step = refl

reached_left : Reached database (λ _. 0) 0 left
reached_left =
    next (next begin (network 9 true (accept 7) 0 accept_step))
      (network 9 true (recv []) 0 leave_step)

leave-fault :
    (w : World)
    → (disconnect w 0).fault ≡ (for_each (w.clients 0).view_list (say_goodbye 0) w).fault
unfolding disconnect
leave-fault w = ground arith

quiet_leave : (w : World) → (w.clients 0).view_list ≡ [] → (disconnect w 0).fault ≡ w.fault
unfolding for_each
quiet_leave w e = leave-fault w ∙ ap (λ (l : List ℕ). (for_each l (say_goodbye 0) w).fault) e

-- A slot that is taken keeps its view list.
accepted_lem :
    (w : World)
    → let w' = async_accept (
        accept_new_client
          (modify w 0 (λ s. (compare_and_change_state s free Session.accept).1))
          0
          7) in
      ((w'.clients 0).view_list ≡ (w.clients 0).view_list) × (w'.fault ≡ w.fault)
unfolding accept_new_client assign_accepted_id async_accept compare_and_change_state
accepted_lem w = (ground arith, refl)

new-view_list : (Session.new 0 0).view_list ≡ []
unfolding Session.new
new-view_list = refl

sees_nobody : (accepted.clients 0).view_list ≡ []
sees_nobody =
    (accepted_lem started).0 ∙ ap (λ (s : Session). s.view_list) started-slot.0 ∙ new-view_list

no_fault : left.fault ≡ false
no_fault = quiet_leave accepted sees_nobody ∙ (accepted_lem started).1 ∙ started-slot.1

-- The client who was accepted has seen nobody, and his slot's view list is empty.
scene_shows_views_example : displays (play (λ rest. 3) client left.sent 0).scene 1 ≡ views left 0 1
scene_shows_views_example = scene_shows_views reached_left no_fault (λ rest. 3) client refl 0 1 refl

-- The NPCs of the run stand in the sectors of their positions.
reached-IsTracked_example : IsTracked left
reached-IsTracked_example = reached-IsTracked database-IsSound reached_left
