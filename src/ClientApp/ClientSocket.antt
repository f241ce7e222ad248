-- ===== src/ClientApp/ClientSocket.antt =====
-- GameServer/ClientApp/clientSocket.h and clientSocket.cpp: the packets that the client handles and
-- sends. The class of its queue of bytes is not in the repository: `RingBuffer` holds the methods that
-- are called. A player is the fields that the client gives him.
pub mod Stream
use server_programming.Base.{
  ℕ, zero, suc, Bool, true, false, Option, none, some, List, [], ◌∷◌, ◌==◌, if◌then◌else◌,
}
use server_programming.Base.Dict.{lookup, assign, remove}
use server_programming.Base.Int.{ℤ, pos, negsuc}
use server_programming.Network.BufferQueue.{Memory}
use server_programming.Network.Bytes.{c_string, read_short, read_id}
use server_programming.Network.Protocol.{cs_login, cs_move, encode_command}

-- `IsEmpty`, `GetMsgType`, `Push`, and `Pop` of a number of bytes into a structure.
pub record RingBuffer (Q : Type 0) : Type 0 where
  pub is_empty : Q → Bool
  pub get_msg_type : Q → ℕ
  pub push : Q → List ℕ → Q
  pub pop : Q → ℕ → Memory × Q

pub record Player : Type 0 where
  pub x : ℤ
  pub y : ℤ
  pub message : List ℕ

-- `sent` holds the bytes sent, the newest first, and `receiving` how often data was asked for.
pub record ClientSocket (Q : Type 0) : Type 0 where
  pub player_infos : List (ℕ × Player)
  pub id : ℤ
  pub dirty : Bool
  pub msg_queue : Q
  pub sent : List (List ℕ)
  pub receiving : ℕ

-- `PlayerInfos[id] = { x, y }`, which leaves the message empty.
unfoldable pub set_player : List (ℕ × Player) → ℕ → ℤ → ℤ → List (ℕ × Player)
unfolding assign
set_player infos id x y = assign id (record { x = x; y = y; message = [] }) infos

-- `strcpy_s(PlayerInfos[id].message, message)`: an unknown id gets a new entry.
unfoldable pub set_message : List (ℕ × Player) → ℕ → List ℕ → List (ℕ × Player)
unfolding lookup assign
set_message infos id message = elim (lookup id infos) [
  | none ↦ assign id (record { x = pos 0; y = pos 0; message = message }) infos
  | some p ↦ assign id (record p { message = message }) infos
]

module _ {Q : Type 0} where
  unfoldable pub send_msg : ClientSocket Q → List ℕ → ClientSocket Q
  send_msg c msg = record c { sent = msg ∷ c.sent }

  unfoldable pub recv_msg : ClientSocket Q → ClientSocket Q
  recv_msg c = record c { receiving = suc c.receiving }

  -- The packet is filled with zeros: there is no name.
  unfoldable pub send_login_packet : ClientSocket Q → ClientSocket Q
  unfolding send_msg
  send_login_packet c = send_msg c (encode_command (cs_login []))

  -- The cases of `ProcessPackets`, behind `Pop`.
  unfoldable pub on_login_ok : ℕ → ℤ → ℤ → ClientSocket Q → ClientSocket Q
  unfolding set_player
  on_login_ok id x y c = record c {
    id = pos id;
    player_infos = set_player c.player_infos id x y;
    dirty = true;
  }

  unfoldable pub on_move : ℕ → ℤ → ℤ → ClientSocket Q → ClientSocket Q
  unfolding set_player
  on_move id x y c = record c { player_infos = set_player c.player_infos id x y }

  unfoldable pub on_put_object : ℕ → ℤ → ℤ → ClientSocket Q → ClientSocket Q
  unfolding set_player
  on_put_object id x y c = record c {
    player_infos = set_player c.player_infos id x y;
    dirty = true;
  }

  unfoldable pub on_remove_object : ℕ → ClientSocket Q → ClientSocket Q
  unfolding remove
  on_remove_object id c = record c { player_infos = remove id c.player_infos; dirty = true }

  unfoldable pub on_chat : ℕ → List ℕ → ClientSocket Q → ClientSocket Q
  unfolding set_message
  on_chat id message c = record c { player_infos = set_message c.player_infos id message }

-- The `switch` on the key: left, up, right and down.
unfoldable pub key_direction : ℕ → ℤ
key_direction input =
    if input == 37
    then pos 2
    else if input == 38
    then pos 1
    else if input == 39
    then pos 3
    else if input == 40
    then pos 0
    else negsuc 0

unfoldable pub send_move_packet : {Q : Type 0} → ClientSocket Q → ℕ → ClientSocket Q
unfolding send_msg key_direction
send_move_packet c input = send_msg c (encode_command (cs_move (key_direction input) (pos 0)))

module _ {Q : Type 0} (queue : RingBuffer Q) where
  -- The packet is popped before its case.
  unfoldable pub popped :
      ClientSocket Q → ℕ → (Memory → ClientSocket Q → ClientSocket Q) → ClientSocket Q
  popped c size on_packet =
      let (m, q) = queue.pop c.msg_queue size in on_packet m (record c { msg_queue = q })

  -- One round of `ProcessPackets`. There is no case for other types, and nothing is popped.
  unfoldable pub process_one : ClientSocket Q → ClientSocket Q
  unfolding popped on_login_ok on_move on_put_object on_remove_object on_chat
  process_one c =
      let type = queue.get_msg_type c.msg_queue in
      if type == 1
      then popped c 20 (λ m. on_login_ok (read_id m 2) (read_short m 6) (read_short m 8))
      else if type == 2
      then popped c 14 (λ m. on_move (read_id m 2) (read_short m 6) (read_short m 8))
      else if type == 3
      then popped c 31 (λ m. on_put_object (read_id m 2) (read_short m 6) (read_short m 8))
      else if type == 4
      then popped c 6 (λ m. on_remove_object (read_id m 2))
      else if type == 5
      then popped c 106 (λ m. on_chat (read_id m 2) (c_string 100 m 6))
      else c

  -- `ProcessPackets`, with fuel for its rounds.
  unfoldable pub process_packets : ℕ → ClientSocket Q → Option (ClientSocket Q)
  unfolding process_one
  process_packets zero c = none
  process_packets (suc fuel) c =
      let rest = process_packets fuel (process_one c) in
      if queue.is_empty c.msg_queue then some c else rest

  -- The case OP::RECV of `Update`
  unfoldable pub on_recv : ℕ → ClientSocket Q → List ℕ → Option (ClientSocket Q)
  unfolding process_packets recv_msg
  on_recv fuel c bytes =
      elim (process_packets fuel (record c { msg_queue = queue.push c.msg_queue bytes })) [
        | none ↦ none
        | some c' ↦ some (recv_msg c')
      ]
