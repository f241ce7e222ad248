-- ===== src/Network/Protocol/RoundTrip.antt =====
-- A client reads from the bytes of a packet the packet that the server wrote.
use server_programming.Base.{ℕ, suc, ◌+◌, ◌<◌, ◌≡◌, some, List, [], ◌∷◌, ◌++◌, arith, length}
use server_programming.Base.Int.{pos}
use server_programming.Network.BufferQueue.{Memory}
use server_programming.Network.Bytes.{
  Stores, IsChar, IsShort, IsInt, IsText, put_char, put_short, put_int, put_text,
  read_char-put_char, read_short-put_short, read_int-put_int, read_id-put_int, c_string-put_text,
}
use server_programming.Network.Protocol.{
  Packet, login_ok, login_fail, put_object, move, remove_object, status_change, battle_result, chat,
  encode, decode,
}

-- Every field of the packet is in the range of its type, and a text fits its field with its NUL.
abbrev pub IsPacket : Packet → Type 0
IsPacket (login_ok id x y level hp max_hp exp) =
    (id < 4294967296)
    × IsShort x
    × IsShort y
    × IsShort level
    × IsShort hp
    × IsShort max_hp
    × IsInt exp
IsPacket (login_fail reason) = IsChar reason
IsPacket (put_object id x y object_type name) =
    (id < 4294967296) × IsShort x × IsShort y × IsText 20 name
IsPacket (move id x y move_time) = (id < 4294967296) × IsShort x × IsShort y × IsInt move_time
IsPacket (remove_object id) = id < 4294967296
IsPacket (status_change level hp max_hp exp) =
    IsShort level × IsShort hp × IsShort max_hp × IsInt exp
IsPacket (battle_result result_type target value) =
    IsChar result_type × (target < 4294967296) × IsInt value
IsPacket (chat id message) = (id < 4294967296) × IsText 100 message

Stores-append :
    (m : Memory) (i : ℕ) (xs ys : List ℕ)
    → Stores m i (xs ++ ys)
    → Stores m i xs × Stores m (i + length xs) ys
Stores-append m i [] ys h = (tt, let z : i + 0 ≡ i = omega arith in rw z h)
Stores-append m i (x ∷ xs) ys h =
    let (a, b) = Stores-append m (suc i) xs ys h.1 in
    ((h.0, a), let e : i + suc (length xs) ≡ suc i + length xs = omega arith in rw e b)

-- The packet read is the packet written.
pub decode-encode :
    (p : Packet) (m : Memory) → IsPacket p → Stores m 0 (encode p) → decode m ≡ some p
unfolding decode encode
decode-encode (login_ok id x y level hp max_hp exp) m fits h =
    let (at2, next2) =
      Stores-append m 2 (put_int (pos id))
        (put_short x
          ++ (put_short y
              ++ (put_short level ++ (put_short hp ++ (put_short max_hp ++ (put_int exp))))))
        h.1.1 in
    let (at6, next6) =
      Stores-append m 6 (put_short x)
        (put_short y ++ (put_short level ++ (put_short hp ++ (put_short max_hp ++ (put_int exp)))))
        next2 in
    let (at8, next8) =
      Stores-append m 8 (put_short y)
        (put_short level ++ (put_short hp ++ (put_short max_hp ++ (put_int exp)))) next6 in
    let (at10, next10) =
      Stores-append m 10 (put_short level) (put_short hp ++ (put_short max_hp ++ (put_int exp)))
        next8 in
    let (at12, next12) =
      Stores-append m 12 (put_short hp) (put_short max_hp ++ (put_int exp)) next10 in
    let (at14, next14) = Stores-append m 14 (put_short max_hp) (put_int exp) next12 in
    rw (h.1.0) (
      cc (
        read_id-put_int m 2 id fits.0 at2,
        read_short-put_short m 6 x fits.1 at6,
        read_short-put_short m 8 y fits.2 at8,
        read_short-put_short m 10 level fits.3 at10,
        read_short-put_short m 12 hp fits.4 at12,
        read_short-put_short m 14 max_hp fits.5 at14,
        read_int-put_int m 16 exp fits.6 next14,
      ))
decode-encode (login_fail reason) m fits h =
    rw (h.1.0) (cc (read_char-put_char m 2 reason fits h.1.1))
decode-encode (put_object id x y object_type name) m fits h =
    let (at2, next2) =
      Stores-append m 2 (put_int (pos id))
        (put_short x ++ (put_short y ++ (object_type ∷ put_text 20 name))) h.1.1 in
    let (at6, next6) =
      Stores-append m 6 (put_short x) (put_short y ++ (object_type ∷ put_text 20 name)) next2 in
    let (at8, next8) = Stores-append m 8 (put_short y) (object_type ∷ put_text 20 name) next6 in
    rw (h.1.0) (
      cc (
        read_id-put_int m 2 id fits.0 at2,
        read_short-put_short m 6 x fits.1 at6,
        read_short-put_short m 8 y fits.2 at8,
        next8.0,
        c_string-put_text 20 m 11 name fits.3 next8.1,
      ))
decode-encode (move id x y move_time) m fits h =
    let (at2, next2) =
      Stores-append m 2 (put_int (pos id)) (put_short x ++ (put_short y ++ (put_int move_time)))
        h.1.1 in
    let (at6, next6) = Stores-append m 6 (put_short x) (put_short y ++ (put_int move_time)) next2 in
    let (at8, next8) = Stores-append m 8 (put_short y) (put_int move_time) next6 in
    rw (h.1.0) (
      cc (
        read_id-put_int m 2 id fits.0 at2,
        read_short-put_short m 6 x fits.1 at6,
        read_short-put_short m 8 y fits.2 at8,
        read_int-put_int m 10 move_time fits.3 next8,
      ))
decode-encode (remove_object id) m fits h = rw (h.1.0) (cc (read_id-put_int m 2 id fits h.1.1))
decode-encode (status_change level hp max_hp exp) m fits h =
    let (at2, next2) =
      Stores-append m 2 (put_short level) (put_short hp ++ (put_short max_hp ++ (put_int exp)))
        h.1.1 in
    let (at4, next4) = Stores-append m 4 (put_short hp) (put_short max_hp ++ (put_int exp)) next2 in
    let (at6, next6) = Stores-append m 6 (put_short max_hp) (put_int exp) next4 in
    rw (h.1.0) (
      cc (
        read_short-put_short m 2 level fits.0 at2,
        read_short-put_short m 4 hp fits.1 at4,
        read_short-put_short m 6 max_hp fits.2 at6,
        read_int-put_int m 8 exp fits.3 next6,
      ))
decode-encode (battle_result result_type target value) m fits h =
    let (at2, next2) =
      Stores-append m 2 (put_char result_type) (put_int (pos target) ++ (put_int value)) h.1.1 in
    let (at3, next3) = Stores-append m 3 (put_int (pos target)) (put_int value) next2 in
    rw (h.1.0) (
      cc (
        read_char-put_char m 2 result_type fits.0 at2,
        read_id-put_int m 3 target fits.1 at3,
        read_int-put_int m 7 value fits.2 next3,
      ))
decode-encode (chat id message) m fits h =
    let (a, b) = Stores-append m 2 (put_int (pos id)) (put_text 100 message) h.1.1 in
    rw (h.1.0) (cc (read_id-put_int m 2 id fits.0 a, c_string-put_text 100 m 6 message fits.1 b))
