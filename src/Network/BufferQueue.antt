-- ===== src/Network/BufferQueue.antt =====
-- GameServer/Network/BufferQueue.h and BufferQueue.cpp: the byte buffer that a socket receives into
-- and sends from. An address is an offset from the start of `mBuffer`. Indices are C's `int`, as
-- integers without wrap-around: every value that the code forms lies between -128 and 2048.
pub mod Invariant
pub mod Contents
pub mod Split
use server_programming.Base.{
  ℕ, zero, suc, ◌+◌, ◌-◌, Bool, true, false, not, ◌&&◌, ◌||◌, Option, none, some, List, [], ◌∷◌,
  leb, ltb, if◌then◌else◌, length, get_or,
}
use server_programming.Base.Int.{ℤ, pos, negsuc, pos_part, ◌+ℤ◌, ◌-ℤ◌, ltb_ℤ, leb_ℤ, eqb_ℤ, to_char}

-- `MaxBufferSize` of Protocol.h
abbrev pub max_buffer_size : ℕ
max_buffer_size = 1024

-- The bytes of a memory, by address.
abbrev pub Memory : Type 0
Memory = ℕ → ℕ

pub record BufferQueue : Type 0 where
  pub read_index : ℤ
  pub write_index : ℤ
  pub remain_size : ℤ
  pub buffer : Memory

-- A read at a negative address is outside the buffer; the code's own reads are shown to be inside.
abbrev pub byte_at : Memory → ℤ → ℕ
byte_at m (pos i) = m i
byte_at m (negsuc i) = 0

-- `memcpy` of the bytes `msg` to the address `dst`
abbrev pub copy_in : Memory → ℤ → List ℕ → Memory
copy_in m dst msg i =
    if leb_ℤ dst (pos i) && ltb (pos_part (pos i -ℤ dst)) (length msg)
    then get_or msg (pos_part (pos i -ℤ dst)) 0
    else m i

-- `memcpy(mBuffer, mBuffer + src, size)`, as for blocks that do not overlap
abbrev pub copy_down : Memory → ℤ → ℤ → Memory
copy_down m src size i = if ltb_ℤ (pos i) size then byte_at m (src +ℤ pos i) else m i

-- The constructor
unfoldable pub new : BufferQueue
new = record {
  read_index = pos 0;
  write_index = pos 0;
  remain_size = pos max_buffer_size;
  buffer = λ _. 0;
}

unfoldable pub clear : BufferQueue → BufferQueue
clear q = record q { write_index = pos 0; read_index = pos 0; remain_size = pos max_buffer_size }

-- `nullptr` for `msg` is `none`; `size` is the length of the message.
unfoldable pub push : BufferQueue → Option (List ℕ) → BufferQueue
push q none = q
push q (some msg) =
    if ltb 0 (length msg)
    then if ltb_ℤ q.remain_size (pos (length msg)) then q else record q {
      buffer = copy_in q.buffer q.write_index msg;
      write_index = q.write_index +ℤ pos (length msg);
      remain_size = q.remain_size -ℤ pos (length msg);
    }
    else q

unfoldable pub get_left_buf_len : BufferQueue → ℤ
get_left_buf_len q = pos max_buffer_size -ℤ q.write_index

unfoldable pub get_filled_buf_len : BufferQueue → ℤ
get_filled_buf_len q = pos max_buffer_size -ℤ q.remain_size

-- `if (GetLeftBufLen() == offset)`: the unread bytes move to the front of the buffer.
unfoldable pub compact : BufferQueue → ℤ → BufferQueue
unfolding get_filled_buf_len
compact q offset = record q {
  buffer = copy_down q.buffer q.read_index (get_filled_buf_len q +ℤ offset);
  read_index = pos 0;
  write_index = get_filled_buf_len q;
}

unfoldable pub advance : BufferQueue → ℤ → BufferQueue
advance q offset = record q {
  write_index = q.write_index +ℤ offset;
  remain_size = q.remain_size -ℤ offset;
}

unfoldable pub shift_write_ptr : BufferQueue → ℤ → BufferQueue
unfolding get_left_buf_len compact advance
shift_write_ptr q offset =
    if ltb_ℤ (get_left_buf_len q) offset
    then q
    else advance (if eqb_ℤ (get_left_buf_len q) offset then compact q offset else q) offset

unfoldable pub is_empty : BufferQueue → Bool
is_empty q = eqb_ℤ q.read_index q.write_index && ltb_ℤ (pos 0) q.remain_size

-- A `char`, which is signed in the compiler that the project is built with.
unfoldable pub peek_next_packet_size : BufferQueue → ℤ
unfolding to_char
peek_next_packet_size q = to_char (pos (byte_at q.buffer q.read_index))

-- `sizeof(char)` is 1. A negative length would compare as a large unsigned one.
unfoldable pub readable : BufferQueue → Bool
unfolding get_filled_buf_len is_empty peek_next_packet_size
readable q =
    if ltb_ℤ (get_filled_buf_len q) (pos 0) || leb_ℤ (pos 1) (get_filled_buf_len q)
    then not (is_empty q) && leb_ℤ (peek_next_packet_size q) (get_filled_buf_len q)
    else false

-- The address of the packet, `none` for `nullptr`, and the queue after the read.
unfoldable pub buf_read_ptr : BufferQueue → Option ℤ × BufferQueue
unfolding is_empty peek_next_packet_size get_filled_buf_len
buf_read_ptr q =
    if is_empty q
    then (none, q)
    else if leb_ℤ (peek_next_packet_size q) (get_filled_buf_len q)
    then (
      some q.read_index,
      record q {
        read_index = q.read_index +ℤ peek_next_packet_size q;
        remain_size = q.remain_size +ℤ peek_next_packet_size q;
      },
    )
    else (none, q)
