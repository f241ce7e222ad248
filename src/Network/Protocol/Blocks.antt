-- ===== src/Network/Protocol/Blocks.antt =====
-- The first byte of a packet is its size.
use server_programming.Base.{ℕ, zero, suc, ◌≡◌, refl, ap, List, [], ◌∷◌, arith, length}
use server_programming.Network.Bytes.{put_text}
use server_programming.Network.BufferQueue.Split.{IsBlock}
use server_programming.Network.Protocol.{
  Packet, login_ok, login_fail, put_object, move, remove_object, status_change, battle_result, chat,
  encode, Command, cs_login, cs_move, cs_attack, cs_chat, cs_teleport, encode_command,
}

pub length-put_text : (n : ℕ) (s : List ℕ) → length (put_text n s) ≡ n
unfolding put_text
length-put_text zero s = refl
length-put_text (suc n) [] = ap suc (length-put_text n [])
length-put_text (suc n) (c ∷ s) = ap suc (length-put_text n s)

pub encode-IsBlock : (p : Packet) → IsBlock (encode p)
unfolding encode
encode-IsBlock (login_ok id x y level hp max_hp exp) = record {
  size = refl;
  some_bytes = omega arith;
  small = omega arith;
}
encode-IsBlock (move id x y move_time) = record {
  size = refl;
  some_bytes = omega arith;
  small = omega arith;
}
encode-IsBlock (put_object id x y object_type name) =
    let n = length-put_text 20 name in
    record { size = rw n refl; some_bytes = omega arith; small = omega (arith, n) }
encode-IsBlock (remove_object id) = record {
  size = refl;
  some_bytes = omega arith;
  small = omega arith;
}
encode-IsBlock (chat id message) =
    let n = length-put_text 100 message in
    record { size = rw n refl; some_bytes = omega arith; small = omega (arith, n) }
encode-IsBlock (login_fail reason) = record {
  size = refl;
  some_bytes = omega arith;
  small = omega arith;
}
encode-IsBlock (status_change level hp max_hp exp) = record {
  size = refl;
  some_bytes = omega arith;
  small = omega arith;
}
encode-IsBlock (battle_result result_type target value) = record {
  size = refl;
  some_bytes = omega arith;
  small = omega arith;
}

pub encode_command-IsBlock : (c : Command) → IsBlock (encode_command c)
unfolding encode_command
encode_command-IsBlock (cs_login name) =
    let n = length-put_text 20 name in
    record { size = rw n refl; some_bytes = omega arith; small = omega (arith, n) }
encode_command-IsBlock (cs_move direction move_time) = record {
  size = refl;
  some_bytes = omega arith;
  small = omega arith;
}
encode_command-IsBlock cs_attack = record {
  size = refl;
  some_bytes = omega arith;
  small = omega arith;
}
encode_command-IsBlock (cs_chat message) =
    let n = length-put_text 100 message in
    record { size = rw n refl; some_bytes = omega arith; small = omega (arith, n) }
encode_command-IsBlock cs_teleport = record {
  size = refl;
  some_bytes = omega arith;
  small = omega arith;
}
