-- ===== src/Server/Packets/Stream.antt =====
-- The server on a stream of the packets of a client: the loop of `ProcessPackets` as a whole.
use server_programming.Base.{
  ℕ, zero, suc, ◌<◌, ◌≡◌, refl, sym, ap₂, ◌∙◌, subst, true, some, List, [], ◌∷◌, ◌++◌, append_assoc,
  arith, length,
}
use server_programming.Base.Int.{ℤ, pos}
use server_programming.Network.BufferQueue.{BufferQueue, Memory, readable, buf_read_ptr}
use server_programming.Network.BufferQueue.Invariant.{IsValid}
use server_programming.Network.BufferQueue.Contents.{contents}
use server_programming.Network.BufferQueue.Split.{
  IsBlock, IsRest, block_readable, block_read, block_stored, after_block, after_block-IsValid,
  rest_not_readable,
}
use server_programming.Network.Bytes.{
  Stores, IsChar, IsInt, IsText, read_char, put_char, read_char-put_char, read_int-put_int,
  c_string-put_text,
}
use server_programming.Network.Protocol.{
  Command, cs_login, cs_move, cs_attack, cs_chat, cs_teleport, encode_command,
}
use server_programming.Network.Protocol.Blocks.{encode_command-IsBlock}
use server_programming.Server.World.{World}
use server_programming.Server.Clients.{process_login_packet}
use server_programming.Server.Packets.{
  move_client, teleport_client, chat_around, attack, handle_packet, from, set_buffer, end_round,
  on_packet, process_one, process_packets,
}
use server_programming.Server.Packets.Buffers.{handle_packet-Keeps}

-- The fields of a command are in the range of their types.
abbrev pub IsCommand : Command → Type 0
IsCommand (cs_login name) = IsText 20 name
IsCommand (cs_move direction move_time) = IsChar direction × IsInt move_time
IsCommand cs_attack = Unit {0}
IsCommand (cs_chat message) = IsText 100 message
IsCommand cs_teleport = Unit {0}

-- What a command asks for.
unfoldable pub perform : World → ℕ → Command → World
perform w id (cs_login name) = process_login_packet w name id
perform w id (cs_move direction move_time) = move_client w id direction move_time
perform w id cs_attack = attack w id
perform w id (cs_chat message) = chat_around w id message
perform w id cs_teleport = teleport_client w id

-- The server reads from the bytes of a command what the client wrote, and does what the command asks
-- for.
pub handle_packet-encode_command :
    (w : World) (id : ℕ) (c : Command) (m : Memory)
    → IsCommand c
    → Stores m 0 (encode_command c)
    → handle_packet w id m ≡ some (perform w id c)
unfolding handle_packet encode_command perform read_char put_char
handle_packet-encode_command w id (cs_login name) m fits h =
    rw (h.1.0, c_string-put_text 20 m 2 name fits h.1.1) refl
handle_packet-encode_command w id (cs_move direction move_time) m fits h = rw h.1.0 (
    ap₂ (λ (d t : ℤ). some (move_client w id d t))
      (read_char-put_char m 2 direction fits.0 (h.1.1.0, tt))
      (read_int-put_int m 3 move_time fits.1 h.1.1.1))
handle_packet-encode_command w id cs_attack m fits h = rw h.1.0 refl
handle_packet-encode_command w id (cs_chat message) m fits h =
    rw (h.1.0, c_string-put_text 100 m 2 message fits h.1.1) refl
handle_packet-encode_command w id cs_teleport m fits h = rw h.1.0 refl

-- The bytes of commands, one after the other.
unfoldable pub encode_commands : List Command → List ℕ
unfolding encode_command
encode_commands [] = []
encode_commands (c ∷ commands) = encode_command c ++ encode_commands commands

unfoldable pub AllCommands : List Command → Type 0
AllCommands [] = Unit {0}
AllCommands (c ∷ commands) = IsCommand c × AllCommands commands

abbrev buffer_of : World → ℕ → BufferQueue
buffer_of w id = (w.clients id).recv_buffer

-- The buffer has moved past the packet.
unfoldable pub advanced : World → ℕ → World
unfolding buf_read_ptr
advanced w id = set_buffer w id (buf_read_ptr (buffer_of w id)).1

-- Commands are performed in their order, each when the buffer has moved past its packet.
unfoldable pub perform_all : World → ℕ → List Command → World
unfolding perform advanced
perform_all w id [] = w
perform_all w id (c ∷ commands) = perform_all (perform (advanced w id) id c) id commands

-- The loop has ended, every command is performed, and the bytes behind them are left.
pub record Served (fuel : ℕ) (w : World) (id : ℕ) (commands : List Command) (rest : List ℕ)
    : Type 0 where
  pub done : process_packets fuel w id ≡ some (perform_all w id commands)
  pub valid : IsValid (buffer_of (perform_all w id commands) id)
  pub kept : contents valid ≡ rest

module _ (w : World) (id : ℕ) (v : IsValid (buffer_of w id)) (c : Command) (rest : List ℕ)
    (e : contents v ≡ encode_command c ++ rest) (fits : IsCommand c) where
  block : IsBlock (encode_command c)
  block = encode_command-IsBlock c

  abbrev past : BufferQueue
  past = after_block v (encode_command c) rest block e

  read_eq : buf_read_ptr (buffer_of w id) ≡ (some (pos v.read), past)
  read_eq = block_read v (encode_command c) rest block e

  handled :
      handle_packet (set_buffer w id past) id (from past.buffer (pos v.read))
      ≡ some (perform (set_buffer w id past) id c)
  handled =
      handle_packet-encode_command (set_buffer w id past) id c _ fits
        (block_stored v (encode_command c) rest block e)

  -- One round performs it.
  one_round : process_one w id ≡ (true, perform (advanced w id) id c)
  unfolding process_one on_packet advanced end_round
  one_round = rw (read_eq, handled) refl

  -- The handler leaves the buffer as it is.
  past_eq : buffer_of (perform (advanced w id) id c) id ≡ past
  unfolding advanced
  past_eq = rw read_eq (handle_packet-Keeps (set_buffer w id past) _ id _ handled id ∙ ground arith)

  is_readable : readable (buffer_of w id) ≡ true
  is_readable = block_readable v (encode_command c) rest block e

  past-IsValid : (v' : IsValid (buffer_of (perform (advanced w id) id c) id)) × (contents v' ≡ rest)
  past-IsValid =
      subst (λ q. (v' : IsValid q) × (contents v' ≡ rest)) (sym past_eq)
        (after_block-IsValid v (encode_command c) rest block e)

-- On a buffer whose unread bytes are those of commands with all fields in range, and then nothing or a
-- packet that is not complete, the loop of `ProcessPackets` ends within one round more than there are
-- commands. It has performed them in their order, each once the buffer has moved past its packet, and
-- has left the bytes behind them.
pub process_packets-encode_commands :
    (commands : List Command) (rest : List ℕ) (fuel : ℕ) (w : World) (id : ℕ)
    (v : IsValid (w.clients id).recv_buffer)
    → contents v ≡ encode_commands commands ++ rest
    → AllCommands commands
    → IsRest rest
    → length commands < fuel
    → Served fuel w id commands rest
unfolding encode_commands AllCommands process_packets perform_all
process_packets-encode_commands commands rest zero w id v e fits end enough = absurd (omega arith)
process_packets-encode_commands [] rest (suc fuel) w id v e fits end enough = record {
  done = rw (rest_not_readable v (subst IsRest (sym e) end)) refl;
  valid = v;
  kept = e;
}
process_packets-encode_commands (c ∷ commands) rest (suc fuel) w id v e fits end enough =
    let bytes = encode_commands commands ++ rest in
    let e' = e ∙ append_assoc (encode_command c) (encode_commands commands) rest in
    let (v', after) = past-IsValid w id v c bytes e' fits.0 in
    let later =
      process_packets-encode_commands commands rest fuel (perform (advanced w id) id c) id v' after
        fits.1 end (omega arith) in
    record {
      done =
          rw (is_readable w id v c bytes e' fits.0, one_round w id v c bytes e' fits.0) later.done;
      valid = later.valid;
      kept = later.kept;
    }
