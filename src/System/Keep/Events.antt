-- ===== src/System/Keep/Events.antt =====
-- One step of the server, whichever thread takes it.
use server_programming.Base.{
  ℕ, zero, suc, ◌≡◌, refl, inl, inr, Bool, true, false, Bool-cases, Option, none, some, List, [],
  ◌∷◌, arith, ◌==◌, subst,
}
use server_programming.Base.Int.{ℤ}
use server_programming.Network.BufferQueue.{BufferQueue, Memory, readable, buf_read_ptr, clear}
use server_programming.Network.BufferQueue.Contents.{receive}
use server_programming.Network.Bytes.{c_string}
use server_programming.Server.PlayerInfo.{max_user}
use server_programming.Server.Session.{
  Session, free, is_state, assign_accepted_id, compare_and_change_state,
}
use server_programming.Server.Session
use server_programming.Server.Timer.{TimerEvent, EventType, take_due}
use server_programming.Server.World.{
  World, modify, fail, send_login_fail_packet, post_npc_move_event,
}
use server_programming.Server.Npc.{revive_npc}
use server_programming.Server.Clients.{find_free, get_available_id, recv_msg, accept_new_client}
use server_programming.Server.Packets.{
  handle_packet, on_packet, end_round, from, set_buffer, process_one, process_packets,
}
use server_programming.Server.Completion.{
  Operation, recv, send, accept, npc_move, player_move, on_npc_move, async_accept, on_accept,
  on_recv, handle_completion_info, network_step, handle_event, timer_step,
}
use server_programming.System.Runs.{Step, network, timer, pass}
use server_programming.System.Keep.{Leaves, Plain, SameCore}
use server_programming.System.Keep.Npcs.{revive_npc-keeps}
use server_programming.System.Keep.Sights.{disconnect-keeps}
use server_programming.System.Keep.Handlers.{
  same-Plain, login-keeps, move_client-keeps, teleport_client-keeps, chat_around-keeps,
  attack-keeps,
}

taken_session : (s : Session) → Plain s (compare_and_change_state s free Session.accept).1
unfolding compare_and_change_state is_state
taken_session s = record {
  same_view = ground arith;
  same_x = ground arith;
  same_y = ground arith;
  awake = ground arith;
}

abbrev same :
    {w : World} {receiving : List ℕ} {registered : List (ℕ × ℕ)} {accepts now : ℕ}
    {posted : List (ℕ × ℕ)}
    → SameCore w (record w {
      receiving = receiving;
      registered = registered;
      accepts = accepts;
      posted = posted;
      now = now;
    })
same = record {
  same_clients = refl;
  same_sectors = refl;
  same_timers = refl;
  same_sent = refl;
  same_fault = refl;
  same_database = refl;
}

module _ {P : World → Type 0} {Rises : ℕ → Type 0} (k : Leaves P Rises)
    (moves : (w : World) (id target : ℕ) → P w → P (on_npc_move w id target)) where
  -- Of the worlds that a handler can return
  unfoldable pub OptionKeeps : Option World → Type 0
  OptionKeeps none = Bool
  OptionKeeps (some w) = P w

  handle_packet-option :
      (w : World) (id : ℕ) (packet : Memory) → P w → OptionKeeps (handle_packet w id packet)
  unfolding handle_packet OptionKeeps
  handle_packet-option w id packet h = elim (Bool-cases (packet 1 == 1)) [
    | inl login ↦ rw login (login-keeps k w (c_string 20 packet 2) id h)
    | inr n1 ↦ elim (Bool-cases (packet 1 == 2)) [
      | inl move ↦ rw (n1, move) (move_client-keeps k id _ _ w h)
      | inr n2 ↦ elim (Bool-cases (packet 1 == 5)) [
        | inl teleport ↦ rw (n1, n2, teleport) (teleport_client-keeps k id w h)
        | inr n5 ↦ elim (Bool-cases (packet 1 == 4)) [
          | inl chat ↦ rw (n1, n2, n5, chat) (chat_around-keeps k id (c_string 100 packet 2) w h)
          | inr n4 ↦ elim (Bool-cases (packet 1 == 3)) [
            | inl attack ↦ rw (n1, n2, n5, n4, attack) (attack-keeps k id w h)
            | inr n3 ↦ rw (n1, n2, n5, n4, n3) true
          ]
        ]
      ]
    ]
  ]

  set_buffer-keeps : (id : ℕ) (q : BufferQueue) (w : World) → P w → P (set_buffer w id q)
  set_buffer-keeps id q w =
      k.session w id (λ s. record s { recv_buffer = q }) (same-Plain _ _ refl refl refl refl)

  end_round-keeps :
      (id : ℕ) (q : BufferQueue) (w : World) (r : Option World)
      → P w
      → OptionKeeps r
      → P (end_round w id q r).1
  unfolding end_round OptionKeeps
  end_round-keeps id q w none h l = set_buffer-keeps id (clear q) w h
  end_round-keeps id q w (some w') h l = l

  on_packet-keeps :
      (id : ℕ) (read : Option ℤ × BufferQueue) (w : World) → P w → P (on_packet w id read).1
  unfolding on_packet
  on_packet-keeps id (none, q) w h = k.fails _ (set_buffer-keeps id (clear q) w h)
  on_packet-keeps id (some base, q) w h =
      end_round-keeps id q _ _ (set_buffer-keeps id q w h)
        (handle_packet-option _ id (from q.buffer base) (set_buffer-keeps id q w h))

  process_packets-option :
      (fuel : ℕ) (w : World) (id : ℕ) → P w → OptionKeeps (process_packets fuel w id)
  unfolding process_packets OptionKeeps process_one
  process_packets-option zero w id h = true
  process_packets-option (suc fuel) w id h =
      let next = on_packet-keeps id (buf_read_ptr (w.clients id).recv_buffer) w h in
      elim (Bool-cases (readable (w.clients id).recv_buffer)) [
        | inr done ↦ rw done h
        | inl more ↦ elim (Bool-cases (process_one w id).0) [
          | inl goes ↦ rw (more, goes) (process_packets-option fuel _ id next)
          | inr ends ↦ rw (more, ends) next
        ]
      ]

  on_recv-option :
      (fuel : ℕ) (w : World) (id : ℕ) (bytes : List ℕ) → P w → OptionKeeps (on_recv fuel w id bytes)
  unfolding on_recv OptionKeeps recv_msg
  on_recv-option fuel w id [] h = disconnect-keeps k id w h
  on_recv-option fuel w id (b ∷ bytes) h =
      let w' : World =
        modify w id (λ s. record s { recv_buffer = receive s.recv_buffer (b ∷ bytes) }) in
      after (process_packets fuel w' id) (
        process_packets-option fuel w' id (
          k.session w id (λ s. record s { recv_buffer = receive s.recv_buffer (b ∷ bytes) })
            (same-Plain _ _ refl refl refl refl) h))
    where
      after :
          (r : Option World)
          → OptionKeeps r
          → OptionKeeps (elim r [ none ↦ none | some w' ↦ some (recv_msg w' id) ])
      after none l = true
      after (some w') l = k.core w' _ same l

  find_free-keeps : (count first : ℕ) (w : World) → P w → P (find_free count first w).1
  unfolding find_free
  find_free-keeps zero first w h = h
  find_free-keeps (suc count) first w h =
      let next =
        k.session w first (λ s. (compare_and_change_state s free Session.accept).1)
          (taken_session (w.clients first)) h in
      elim (Bool-cases (compare_and_change_state (w.clients first) free Session.accept).0) [
        | inl changed ↦ rw changed next
        | inr taken ↦ rw taken (find_free-keeps count (suc first) _ next)
      ]

  on_accept-keeps : (slot : Option ℕ) (w : World) (sck : ℕ) → P w → P (on_accept (slot, w) sck)
  unfolding on_accept async_accept accept_new_client assign_accepted_id recv_msg
      send_login_fail_packet
  on_accept-keeps none w sck h = k.core (fail w) _ same (k.fails w h)
  on_accept-keeps (some id) w sck h =
      k.core (modify w id (λ s. assign_accepted_id s id sck)) _ same
        (k.session w id (λ s. assign_accepted_id s id sck) (same-Plain _ _ refl refl refl refl) h)

  network_step-option :
      (fuel : ℕ) (w : World) (success : Bool) (op : Operation) (id : ℕ)
      → P w
      → OptionKeeps (network_step fuel w success op id)
  unfolding network_step handle_completion_info OptionKeeps get_available_id
  network_step-option fuel w false op id h = disconnect-keeps k id w h
  network_step-option fuel w true (recv bytes) id h = on_recv-option fuel w id bytes h
  network_step-option fuel w true (send sent asked) id h = elim (Bool-cases (sent == asked)) [
    | inl whole ↦ rw whole h
    | inr part ↦ rw part (disconnect-keeps k id w h)
  ]
  network_step-option fuel w true (accept sck) id h =
      on_accept-keeps (get_available_id w).0 (get_available_id w).1 sck
        (find_free-keeps max_user 0 w h)
  network_step-option fuel w true (npc_move target) id h = moves w id target h
  network_step-option fuel w true (player_move target) id h = h

  handle_event-keeps :
      (w : World) (e : TimerEvent)
      → (e.type ≡ EventType.npc_revive → Rises e.object_id)
      → P w
      → P (handle_event w e)
  unfolding handle_event post_npc_move_event
  handle_event-keeps w e rises h = by_type e.type rises
    where
      by_type :
          (type : EventType)
          → (type ≡ EventType.npc_revive → Rises e.object_id)
          → P (elim type [
            | EventType.npc_move ↦ post_npc_move_event w e.object_id e.target_id
            | EventType.npc_revive ↦ revive_npc w e.object_id
          ])
      by_type EventType.npc_move r = k.core w (post_npc_move_event w e.object_id e.target_id) same h
      by_type EventType.npc_revive r = revive_npc-keeps k e.object_id w (r refl) h

  timer_step-keeps : (w : World) → P w → P (timer_step w)
  unfolding timer_step
  timer_step-keeps w h = due (take_due w.now w.timers).0 refl
    where
      queue : List TimerEvent
      queue = (take_due w.now w.timers).1

      due :
          (event : Option TimerEvent)
          → (take_due w.now w.timers).0 ≡ event
          → P (elim event [ none ↦ w | some e ↦ handle_event (record w { timers = queue }) e ])
      due none found = h
      due (some e) found =
          handle_event-keeps (record w { timers = queue }) e (k.due w e h found) (k.take w h)

  pub Step-keeps : {w w' : World} → Step w w' → P w → P w'
  unfolding OptionKeeps
  Step-keeps {w} (network fuel success op id e) h =
      subst OptionKeeps e (network_step-option fuel w success op id h)
  Step-keeps {w} timer h = timer_step-keeps w h
  Step-keeps {w} (pass t) h = k.core w _ same h
