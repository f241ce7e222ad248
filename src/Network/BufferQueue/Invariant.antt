-- ===== src/Network/BufferQueue/Invariant.antt =====
-- The indices of a buffer stay inside it, and every operation keeps them so.
use server_programming.Base.{ℕ, ◌+◌, ◌-◌, ◌≤◌, ◌<◌, ◌≡◌, true, some, arith, ltb, leb, ◌&&◌}
use server_programming.Base.Int.{pos, ◌+ℤ◌, ◌-ℤ◌}
use server_programming.Network.BufferQueue.{
  BufferQueue, max_buffer_size, new, clear, shift_write_ptr, buf_read_ptr, get_left_buf_len,
  get_filled_buf_len, readable, is_empty, copy_down, peek_next_packet_size,
}

-- The unread bytes, `filled` of them, start at `read` and end inside the buffer; `mRemainSize` counts
-- the others.
pub record IsValid (q : BufferQueue) : Type 0 where
  pub read : ℕ
  pub filled : ℕ
  pub read_eq : q.read_index ≡ pos read
  pub write_eq : q.write_index ≡ pos (read + filled)
  pub remain_eq : q.remain_size ≡ pos (max_buffer_size - filled)
  pub inside : read + filled ≤ max_buffer_size

pub new-IsValid : IsValid new
unfolding new
new-IsValid = record {
  read = 0;
  filled = 0;
  read_eq = ground arith;
  write_eq = ground arith;
  remain_eq = ground arith;
  inside = omega arith;
}

pub clear-IsValid : (q : BufferQueue) → IsValid (clear q)
unfolding clear
clear-IsValid q = record {
  read = 0;
  filled = 0;
  read_eq = ground arith;
  write_eq = ground arith;
  remain_eq = ground arith;
  inside = omega arith;
}

module _ {q : BufferQueue} (v : IsValid q) where
  pub left_eq : get_left_buf_len q ≡ pos (max_buffer_size - (v.read + v.filled))
  unfolding get_left_buf_len ◌-ℤ◌
  left_eq = ground arith

  pub filled_eq : get_filled_buf_len q ≡ pos v.filled
  unfolding get_filled_buf_len ◌-ℤ◌
  filled_eq = ground arith

  pub peek-pos : (b : ℕ) → q.buffer v.read ≡ b → b < 128 → peek_next_packet_size q ≡ pos b
  unfolding peek_next_packet_size
  peek-pos b e h = ground arith

  pub is_empty_eq : is_empty q ≡ true → v.filled ≡ 0
  unfolding is_empty
  is_empty_eq h = ground arith

  pub is_empty_of : v.filled ≡ 0 → is_empty q ≡ true
  unfolding is_empty
  is_empty_of h = ground arith

  -- Room is left behind the new bytes: they are appended in place.
  pub shift_in_place :
      (n : ℕ)
      → v.read + v.filled + n < max_buffer_size
      → shift_write_ptr q (pos n) ≡ record q {
        write_index = pos (v.read + (v.filled + n));
        remain_size = pos (max_buffer_size - (v.filled + n));
      }
  unfolding shift_write_ptr ◌-ℤ◌ ◌+ℤ◌
  shift_in_place n h = ground arith

  -- The new bytes reach the end: the unread ones move to the front together with them.
  pub shift_to_front :
      (n : ℕ)
      → v.read + v.filled + n ≡ max_buffer_size
      → shift_write_ptr q (pos n) ≡ record {
        read_index = pos 0;
        write_index = pos (v.filled + n);
        remain_size = pos (max_buffer_size - (v.filled + n));
        buffer = copy_down q.buffer (pos v.read) (pos (v.filled + n));
      }
  unfolding shift_write_ptr ◌-ℤ◌ ◌+ℤ◌
  shift_to_front n h = ground arith

  -- More bytes than the buffer has room for: nothing is shifted.
  pub shift_overflow :
      (n : ℕ) → max_buffer_size < v.read + v.filled + n → shift_write_ptr q (pos n) ≡ q
  unfolding shift_write_ptr ◌-ℤ◌
  shift_overflow n h = ground arith

  -- A packet that is whole: its address is handed out, and the bytes behind it are left.
  pub read_packet :
      (s : ℕ)
      → q.buffer v.read ≡ s
      → s < 128
      → 0 < v.filled
      → s ≤ v.filled
      → buf_read_ptr q ≡ (
        some (pos v.read),
        record q {
          read_index = pos (v.read + s);
          remain_size = pos (max_buffer_size - (v.filled - s));
        },
      )
  unfolding buf_read_ptr ◌-ℤ◌ ◌+ℤ◌
  read_packet s e small some_left whole = ground arith

  pub readable_iff :
      (s : ℕ) → q.buffer v.read ≡ s → s < 128 → readable q ≡ (ltb 0 v.filled && leb s v.filled)
  unfolding readable ◌-ℤ◌
  readable_iff s e small = ground arith
