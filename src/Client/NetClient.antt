-- ===== src/Client/NetClient.antt =====
-- GameServer/D2DApp/NetClient.h and NetClient.cpp, with the texts that ChatWindow.cpp and LogWindow.cpp
-- append. `fault` is set where a checked copy (`strncpy_s`) rejects a text or a null pointer is read.
pub mod Stream
pub mod Segments
pub mod Cut
pub mod Screen
pub mod Ready
use server_programming.Base.{
  ℕ, zero, suc, ◌+◌, Bool, true, false, not, ◌&&◌, Option, none, some, List, [], ◌∷◌, ltb, ◌==◌,
  if◌then◌else◌, length,
}
use server_programming.Base.Int.{ℤ, pos, negsuc, ◌+ℤ◌, leb_ℤ, eqb_ℤ}
use server_programming.Network.BufferQueue.{
  BufferQueue, Memory, byte_at, readable, buf_read_ptr, shift_write_ptr,
}
use server_programming.Network.Protocol.{
  Packet, login_ok, login_fail, put_object, move, remove_object, status_change, battle_result, chat,
  decode, cs_login, cs_move, cs_attack, cs_chat, encode_command,
}
use server_programming.Client.Scene.{
  Scene, initialize_player, create_new_object, update_player_position, update_player_chat,
  update_player_status, erase_object, create_attack_area, quit, get_player_name,
}

-- `sent` holds the bytes sent and `receiving` how often data was asked for; `posted` counts the null
-- records posted to the completion port. `chats` and `logs` are the lines of the two windows, `alerts`
-- the reasons in message boxes, the newest first.
pub record NetClient : Type 0 where
  pub scene : Scene
  pub username : List ℕ
  pub sent : List (List ℕ)
  pub receiving : ℕ
  pub loop : Bool
  pub posted : ℕ
  pub chats : List (List ℕ × List ℕ)
  pub logs : List (List ℕ × ℤ × ℤ)
  pub alerts : List ℤ
  pub fault : Bool

unfoldable pub fail : NetClient → NetClient
fail c = record c { fault = true }

unfoldable pub send_msg : NetClient → List ℕ → NetClient
send_msg c msg = record c { sent = msg ∷ c.sent }

unfoldable pub recv_msg : NetClient → NetClient
recv_msg c = record c { receiving = suc c.receiving }

unfoldable pub disconnect : NetClient → NetClient
disconnect c = record c { loop = false; posted = suc c.posted }

-- `strncpy_s` into the 20 characters of `name`
unfoldable pub send_login_packet : NetClient → List ℕ → NetClient
unfolding send_msg fail
send_login_packet c name =
    if ltb (length name) 20 then send_msg c (encode_command (cs_login name)) else fail c

-- The `switch` on the key: left, up, right and down.
unfoldable pub key_direction : ℤ → ℤ
key_direction input =
    if eqb_ℤ input (pos 0x25)
    then pos 2
    else if eqb_ℤ input (pos 0x26)
    then pos 0
    else if eqb_ℤ input (pos 0x27)
    then pos 3
    else if eqb_ℤ input (pos 0x28)
    then pos 1
    else negsuc 0

unfoldable pub send_move_packet : NetClient → ℤ → NetClient
unfolding key_direction send_msg
send_move_packet c input = send_msg c (encode_command (cs_move (key_direction input) (pos 0)))

unfoldable pub send_attack_packet : NetClient → NetClient
unfolding send_msg
send_attack_packet c = send_msg c (encode_command cs_attack)

-- `strncpy_s` into the 100 characters of `message`
unfoldable pub send_chat_packet : NetClient → List ℕ → NetClient
unfolding send_msg fail
send_chat_packet c msg =
    if ltb (length msg) 100 then send_msg c (encode_command (cs_chat msg)) else fail c

unfoldable pub on_process_key_input : NetClient → ℤ → NetClient
unfolding send_move_packet send_attack_packet
on_process_key_input c input =
    if leb_ℤ (pos 0x25) input && leb_ℤ input (pos 0x28)
    then send_move_packet c input
    else if eqb_ℤ input (pos b'A')
    then send_attack_packet c
    else c

-- `Start`, which registers the socket and starts the thread besides.
unfoldable pub start : NetClient → List ℕ → NetClient
unfolding recv_msg send_login_packet
start c name = send_login_packet (recv_msg (record c { username = name })) name

unfoldable pub append_message : NetClient → List ℕ → List ℕ → NetClient
append_message c name msg = record c { chats = (name, msg) ∷ c.chats }

-- The log window shows the name, the number and a text for the type.
unfoldable pub append_log : NetClient → List ℕ → ℤ → ℤ → NetClient
append_log c op_name value log_type = record c { logs = (op_name, value, log_type) ∷ c.logs }

abbrev pub set_scene : NetClient → Scene → NetClient
set_scene c s = record c { scene = s }

-- The `switch` on the type: whether the loop goes on, and the client.
unfoldable pub handle : NetClient → ℕ → Packet → Bool × NetClient
unfolding append_message append_log disconnect
handle c now (login_ok id x y level hp max_hp exp) =
    (true, set_scene c (initialize_player c.scene id x y level hp max_hp exp c.username))
handle c now (login_fail reason) =
    (false, disconnect (record c { alerts = reason ∷ c.alerts; scene = quit c.scene }))
handle c now (move id x y move_time) = (true, set_scene c (update_player_position c.scene id x y))
handle c now (put_object id x y object_type name) =
    (true, set_scene c (create_new_object c.scene id object_type name x y))
handle c now (remove_object id) = (true, set_scene c (erase_object c.scene id))
handle c now (chat id message) =
    let (name, scene) = get_player_name (update_player_chat c.scene id message) id in
    (true, append_message (set_scene c scene) name message)
handle c now (battle_result result_type target value) =
    let (name, scene) = get_player_name c.scene target in
    (
      true,
      if eqb_ℤ result_type (negsuc 0)
          then set_scene c (create_attack_area c.scene now)
          else append_log (set_scene c scene) name value result_type,
    )
handle c now (status_change level hp max_hp exp) =
    (true, set_scene c (update_player_status c.scene level hp max_hp exp))

-- The `default` of the `switch` disconnects.
unfoldable pub handle_packet : NetClient → ℕ → Option Packet → Bool × NetClient
unfolding disconnect
handle_packet c now none = (false, disconnect c)
handle_packet c now (some p) = handle c now p

-- The memory from an address on
abbrev pub from : Memory → ℤ → Memory
from m base i = byte_at m (base +ℤ pos i)

-- A round after `BufReadPtr`, whose result is not tested for null.
unfoldable pub on_packet : NetClient → ℕ → Option ℤ × BufferQueue → Bool × NetClient
unfolding fail
on_packet c now (none, q) = (false, fail c)
on_packet c now (some base, q) = handle_packet c now (decode (from q.buffer base))

-- The loop, with fuel for its rounds.
unfoldable pub process_packets : ℕ → BufferQueue → ℕ → NetClient → Option (BufferQueue × NetClient)
process_packets zero q now c = none
process_packets (suc fuel) q now c =
    let read = buf_read_ptr q in
    let (more, c') = on_packet c now read in
    let rest = process_packets fuel read.1 now c' in
    if not (readable q) then some (q, c) else if more then rest else some (read.1, c')

-- A completed operation: the bytes that the buffer received, or those sent and those asked for.
pub data Operation : Type 0 where
  recv : (bytes : ℕ) → Operation
  send : (bytes len : ℕ) → Operation

-- The bytes stand in the buffer when the operation completes, and `RecvMsg` keeps those that are left.
unfoldable pub handle_completion_info :
    ℕ → BufferQueue → ℕ → NetClient → Operation → Option (BufferQueue × NetClient)
unfolding disconnect recv_msg
handle_completion_info fuel q now c (recv zero) = some (q, disconnect c)
handle_completion_info fuel q now c (recv (suc bytes)) =
    elim (process_packets fuel (shift_write_ptr q (pos (suc bytes))) now c) [
      | none ↦ none
      | some (q', c') ↦ some (q', recv_msg c')
    ]
handle_completion_info fuel q now c (send bytes len) =
    some (q, if bytes == len then c else disconnect c)
