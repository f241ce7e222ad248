-- ===== src/ClientApp/ClientSocket/Stream/Fields.antt =====
-- The fields of the structures that packets are popped into.
use server_programming.Base.{ℕ, ◌≡◌, List, arith}
use server_programming.Base.Int.{ℤ}
use server_programming.Network.BufferQueue.{Memory}
use server_programming.Network.Bytes.{Stores, c_string, read_short, read_id}
use server_programming.Network.Protocol.{
  login_ok, put_object, move, remove_object, chat, encode, decode,
}
use server_programming.Network.Protocol.RoundTrip.{IsPacket, decode-encode}

pub login_ok_reads :
    (m : Memory) (id : ℕ) (x y level hp max_hp exp : ℤ)
    → IsPacket (login_ok id x y level hp max_hp exp)
    → Stores m 0 (encode (login_ok id x y level hp max_hp exp))
    → (read_id m 2 ≡ id) × (read_short m 6 ≡ x) × (read_short m 8 ≡ y)
unfolding decode encode
login_ok_reads m id x y level hp max_hp exp fits h =
    let type : m 1 ≡ 1 = h.1.0 in
    ground (arith, decode-encode (login_ok id x y level hp max_hp exp) m fits h)

pub move_reads :
    (m : Memory) (id : ℕ) (x y move_time : ℤ)
    → IsPacket (move id x y move_time)
    → Stores m 0 (encode (move id x y move_time))
    → (read_id m 2 ≡ id) × (read_short m 6 ≡ x) × (read_short m 8 ≡ y)
unfolding decode encode
move_reads m id x y move_time fits h =
    let type : m 1 ≡ 2 = h.1.0 in ground (arith, decode-encode (move id x y move_time) m fits h)

pub put_object_reads :
    (m : Memory) (id : ℕ) (x y : ℤ) (object_type : ℕ) (name : List ℕ)
    → IsPacket (put_object id x y object_type name)
    → Stores m 0 (encode (put_object id x y object_type name))
    → (read_id m 2 ≡ id) × (read_short m 6 ≡ x) × (read_short m 8 ≡ y)
unfolding decode encode
put_object_reads m id x y object_type name fits h =
    let type : m 1 ≡ 3 = h.1.0 in
    ground (arith, decode-encode (put_object id x y object_type name) m fits h)

pub remove_object_reads :
    (m : Memory) (id : ℕ)
    → IsPacket (remove_object id)
    → Stores m 0 (encode (remove_object id))
    → read_id m 2 ≡ id
unfolding decode encode
remove_object_reads m id fits h =
    let type : m 1 ≡ 4 = h.1.0 in ground (arith, decode-encode (remove_object id) m fits h)

pub chat_reads :
    (m : Memory) (id : ℕ) (message : List ℕ)
    → IsPacket (chat id message)
    → Stores m 0 (encode (chat id message))
    → (read_id m 2 ≡ id) × (c_string 100 m 6 ≡ message)
unfolding decode encode
chat_reads m id message fits h =
    let type : m 1 ≡ 5 = h.1.0 in ground (arith, decode-encode (chat id message) m fits h)
