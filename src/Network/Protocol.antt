-- ===== src/Network/Protocol.antt =====
-- GameServer/Network/Protocol.h: the packets of the server and of the clients, and their bytes. Each
-- begins with its size and its type. The structures are packed, and filled with zeros when made.
pub mod RoundTrip
pub mod Blocks
use server_programming.Base.{ℕ, Option, none, some, List, [], ◌∷◌, ◌++◌, ◌==◌, if◌then◌else◌}
use server_programming.Base.Int.{ℤ, pos}
use server_programming.Network.BufferQueue.{Memory}
use server_programming.Network.Bytes.{
  c_string, read_char, read_short, read_int, read_id, put_char, put_short, put_int, put_text,
}

-- The packets to a client; `size` and `type` go with the constructor. A text is the characters
-- before its NUL.
pub data Packet : Type 0 where
  login_ok : ℕ → (x y level hp max_hp exp : ℤ) → Packet
  login_fail : ℤ → Packet
  put_object : ℕ → (x y : ℤ) → (object_type : ℕ) → (name : List ℕ) → Packet
  move : ℕ → (x y move_time : ℤ) → Packet
  remove_object : ℕ → Packet
  status_change : (level hp max_hp exp : ℤ) → Packet
  battle_result : (result_type : ℤ) → (target : ℕ) → (value : ℤ) → Packet
  chat : ℕ → (message : List ℕ) → Packet

-- The bytes of a `sc_packet` structure.
unfoldable pub encode : Packet → List ℕ
unfolding put_char put_short put_int
encode (login_ok id x y level hp max_hp exp) =
    20
    ∷ 1
    ∷ (put_int (pos id)
        ++ (put_short x
            ++ (put_short y
                ++ (put_short level ++ (put_short hp ++ (put_short max_hp ++ put_int exp))))))
encode (move id x y move_time) =
    14 ∷ 2 ∷ (put_int (pos id) ++ (put_short x ++ (put_short y ++ put_int move_time)))
encode (put_object id x y object_type name) =
    31
    ∷ 3
    ∷ (put_int (pos id) ++ (put_short x ++ (put_short y ++ (object_type ∷ put_text 20 name))))
encode (remove_object id) = 6 ∷ 4 ∷ put_int (pos id)
encode (chat id message) = 106 ∷ 5 ∷ (put_int (pos id) ++ put_text 100 message)
encode (login_fail reason) = 3 ∷ 6 ∷ put_char reason
encode (status_change level hp max_hp exp) =
    12 ∷ 7 ∷ (put_short level ++ (put_short hp ++ (put_short max_hp ++ put_int exp)))
encode (battle_result result_type target value) =
    11 ∷ 8 ∷ (put_char result_type ++ (put_int (pos target) ++ put_int value))

-- The structure that a client reads at a packet's address, by the type of the packet; `none` where
-- no packet has that type.
unfoldable pub decode : Memory → Option Packet
decode m =
    let type = m 1 in
    if type == 1
    then some (
        login_ok (read_id m 2) (read_short m 6) (read_short m 8) (read_short m 10) (read_short m 12)
          (read_short m 14) (read_int m 16))
    else if type == 6
    then some (login_fail (read_char m 2))
    else if type == 2
    then some (move (read_id m 2) (read_short m 6) (read_short m 8) (read_int m 10))
    else if type == 3
    then some (put_object (read_id m 2) (read_short m 6) (read_short m 8) (m 10) (c_string 20 m 11))
    else if type == 4
    then some (remove_object (read_id m 2))
    else if type == 5
    then some (chat (read_id m 2) (c_string 100 m 6))
    else if type == 8
    then some (battle_result (read_char m 2) (read_id m 3) (read_int m 7))
    else if type == 7
    then some (status_change (read_short m 2) (read_short m 4) (read_short m 6) (read_int m 8))
    else none

-- The packets to the server.
pub data Command : Type 0 where
  cs_login : (name : List ℕ) → Command
  cs_move : (direction move_time : ℤ) → Command
  cs_attack : Command
  cs_chat : (message : List ℕ) → Command
  cs_teleport : Command

-- The bytes of a `cs_packet` structure.
unfoldable pub encode_command : Command → List ℕ
unfolding put_char put_int
encode_command (cs_login name) = 22 ∷ 1 ∷ put_text 20 name
encode_command (cs_move direction move_time) = 7 ∷ 2 ∷ (put_char direction ++ put_int move_time)
encode_command cs_attack = 2 ∷ 3 ∷ []
encode_command (cs_chat message) = 102 ∷ 4 ∷ put_text 100 message
encode_command cs_teleport = 2 ∷ 5 ∷ []
