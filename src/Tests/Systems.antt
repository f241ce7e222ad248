-- ===== src/Tests/Systems.antt =====
-- The server and its clients at concrete runs.
use server_programming.Server.Threads.{
  Threads, null, run, post_to_completion_queue, post_nulls, signal_handler, take_entry,
  get_completion_info, next_round, happen, all_happen, thread_steps, can_go,
}
use server_programming.Server.Threads
use server_programming.Server.Threads.Shutdown.{threads_end}
use server_programming.Base.{
  suc, ◌≡◌, refl, [], ◌∷◌, some, arith, true, get_or, inr, false, List, ◌≤◌, ◌*◌, ◌+◌, ◌⊎◌, length,
}
use server_programming.Base.Int.{pos}
use server_programming.Network.BufferQueue.{Memory}
use server_programming.Network.BufferQueue.Invariant.{IsValid}
use server_programming.Network.Protocol.{cs_teleport, encode_command}
use server_programming.Server.Timer.{EventType}
use server_programming.Server.Timer.Order.{SortedFrom}
use server_programming.Server.World.{World, modify}
use server_programming.Server.Packets.{handle_packet, settle}
use server_programming.Server.Packets.Stream.{
  Served, AllCommands, encode_commands, process_packets-encode_commands,
}
use server_programming.Server.Completion.Drain.{timer_rounds, moves_posted}
use server_programming.Server.Completion.Drain.Rounds.{timer_drains}
use server_programming.Client.NetClient.{on_process_key_input, key_direction}
use server_programming.System.Keys.{left, toward, newest, arrow_moves_player}
use server_programming.Tests.Worlds.{world}
use server_programming.Tests.Clients.{client}

-- Player 0 has sent a teleport packet and the first byte of another packet.
abbrev buffer-IsValid : IsValid ((world 2).clients 0).recv_buffer
buffer-IsValid = record {
  read = 0;
  filled = 3;
  read_eq = refl;
  write_eq = refl;
  remain_eq = refl;
  inside = omega arith;
}

process_packets-encode_commands_example : Served 5 (world 2) 0 (cs_teleport ∷ []) (2 ∷ [])
unfolding encode_commands AllCommands encode_command
process_packets-encode_commands_example =
    process_packets-encode_commands (cs_teleport ∷ []) (2 ∷ []) 5 (world 2) 0 buffer-IsValid refl
      (tt, tt) (inr (omega arith, omega arith)) (omega arith)

-- The bytes of a step to the left
abbrev step_left : Memory
step_left i = get_or (7 ∷ 2 ∷ 2 ∷ 0 ∷ 0 ∷ 0 ∷ 0 ∷ []) i 0

arrow_moves_player_example :
    ((on_process_key_input client (pos 0x25)).sent
      ≡ newest (on_process_key_input client (pos 0x25)) ∷ [])
    × (handle_packet (world 2) 0 step_left
        ≡ some (
            settle
              (modify
                (world 2)
                0
                (λ s. record s { info = toward left s.info; last_move_time = pos 0 }))
              0
              ((world 2).clients 0).info))
unfolding encode_command on_process_key_input key_direction
arrow_moves_player_example =
    arrow_moves_player client left (world 2) 0 step_left
      (refl, (refl, (refl, (refl, (refl, (refl, (refl, tt)))))))

-- NPC 6000 is to move at 3 and NPC 6001 at 9.
abbrev waiting : World
waiting = record (world 2) {
  timers =
      record { object_id = 6000; target_id = 1; type = EventType.npc_move; start_time = 3 }
      ∷ record { object_id = 6001; target_id = 1; type = EventType.npc_move; start_time = 9 }
      ∷ [];
  now = 5;
}

timer_drains_example :
    ((timer_rounds 2 waiting).now ≡ 5)
    × SortedFrom (suc (timer_rounds 2 waiting).now) (timer_rounds 2 waiting).timers
    × (moves_posted 5 (timer_rounds 2 waiting).posted waiting.timers ≡ true)
timer_drains_example = timer_drains waiting (omega arith, (omega arith, tt))

-- A thread handles an operation when SIGINT comes; it returns while the others end.
abbrev at_signal : Threads
at_signal = record { waiting = 5; busy = 1; ended = 0; entries = []; loop = true }

abbrev all_ended : Threads
all_ended = record { waiting = 0; busy = 0; ended = 6; entries = null ∷ []; loop = false }

abbrev after_signal : List Threads.Event
after_signal =
    Threads.take ∷ Threads.back ∷ Threads.take ∷ Threads.take ∷ Threads.take ∷ Threads.take ∷ []

reaches_signal : all_happen (Threads.completes ∷ Threads.take ∷ []) run ≡ some at_signal
unfolding all_happen happen get_completion_info take_entry post_to_completion_queue run
reaches_signal = refl

ends_after : all_happen after_signal (signal_handler at_signal) ≡ some all_ended
unfolding all_happen happen get_completion_info take_entry next_round signal_handler post_nulls
    post_to_completion_queue
ends_after = refl

threads_end_example :
    (thread_steps after_signal ≤ 2 * length (signal_handler at_signal).entries + 1)
    × ((0 + 0 ≡ 0) ⊎ (can_go all_ended ≡ true))
threads_end_example =
    threads_end (Threads.completes ∷ Threads.take ∷ []) after_signal at_signal all_ended
      reaches_signal ends_after
