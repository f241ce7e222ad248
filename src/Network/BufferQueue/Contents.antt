-- ===== src/Network/BufferQueue/Contents.antt =====
-- The buffer as a queue of bytes: what a client sees of it.
use server_programming.Base.{
  ℕ, zero, suc, ◌+◌, ◌-◌, ◌≤◌, ◌<◌, ◌≡◌, refl, ap, ◌∙◌, ap₂, some, List, [], ◌∷◌, ◌++◌, arith,
  length, get_or,
}
use native.Mathlib.Decide.{dec_lt}
use server_programming.Base.Int.{pos, ◌+ℤ◌, ◌-ℤ◌}
use server_programming.Network.BufferQueue.{
  BufferQueue, Memory, max_buffer_size, shift_write_ptr, buf_read_ptr, copy_in, copy_down,
}
use server_programming.Network.BufferQueue.Invariant.{
  IsValid, shift_in_place, shift_to_front, shift_overflow, read_packet,
}

-- The `n` bytes of a memory from address `r` on.
abbrev pub window : Memory → ℕ → ℕ → List ℕ
window m r zero = []
window m r (suc n) = m r ∷ window m (suc r) n

-- The unread bytes of a valid buffer, oldest first.
abbrev pub contents : {q : BufferQueue} → IsValid q → List ℕ
contents {q} v = window q.buffer v.read v.filled

pub length-window : (m : Memory) (r n : ℕ) → length (window m r n) ≡ n
length-window m r zero = refl
length-window m r (suc n) = ap suc (length-window m (suc r) n)

pub window-append :
    (m : Memory) (r n k : ℕ) → window m r (n + k) ≡ window m r n ++ window m (r + n) k
window-append m r zero k = ap₂ (window m) (omega arith) (omega arith)
window-append m r (suc n) k =
    let e : suc n + k ≡ suc (n + k) = omega arith in
    rw e (
      ap (◌∷◌ (m r)) (
        window-append m (suc r) n k
        ∙ ap (λ (a : ℕ). window m (suc r) n ++ window m a k) (omega arith)))

pub window-congr :
    (m m' : Memory) (r r' n : ℕ)
    → ((i : ℕ) → i < n → m (r + i) ≡ m' (r' + i))
    → window m r n ≡ window m' r' n
window-congr m m' r r' zero h = refl
window-congr m m' r r' (suc n) h =
    ap₂ ◌∷◌ (ground (arith, h 0))
      (window-congr m m' (suc r) (suc r') n (λ i lt. ground (arith, h (suc i))))

window-get_or :
    (m : Memory) (w : ℕ) (bs : List ℕ)
    → ((i : ℕ) → i < length bs → m (w + i) ≡ get_or bs i 0)
    → window m w (length bs) ≡ bs
window-get_or m w [] h = refl
window-get_or m w (b ∷ bs) h =
    ap₂ ◌∷◌ (ground (arith, h 0)) (window-get_or m (suc w) bs (λ i lt. ground (arith, h (suc i))))

-- Bytes copied to an address are read back from there.
pub window-copy_in :
    (m : Memory) (w : ℕ) (bs : List ℕ) → window (copy_in m (pos w) bs) w (length bs) ≡ bs
unfolding ◌-ℤ◌
window-copy_in m w bs = window-get_or _ w bs (λ i lt. ground arith)

-- Bytes below that address stay.
pub window-copy_in_below :
    (m : Memory) (w r n : ℕ) (bs : List ℕ)
    → r + n ≤ w
    → window (copy_in m (pos w) bs) r n ≡ window m r n
window-copy_in_below m w r n bs h = window-congr _ _ r r n (λ i lt. ground arith)

pub window-copy_down :
    (m : Memory) (r n : ℕ) → window (copy_down m (pos r) (pos n)) 0 n ≡ window m r n
unfolding ◌+ℤ◌
window-copy_down m r n = window-congr _ _ 0 r n (λ i lt. ground arith)

-- What `WSARecv` does: it stores the bytes received at `BufWritePtr()`, and the completion handler
-- calls `ShiftWritePtr` with their number.
unfoldable pub receive : BufferQueue → List ℕ → BufferQueue
receive q bs =
    shift_write_ptr (record q { buffer = copy_in q.buffer q.write_index bs }) (pos (length bs))

module _ {q : BufferQueue} (v : IsValid q) (bs : List ℕ) where
  stored : BufferQueue
  stored = record q { buffer = copy_in q.buffer (pos (v.read + v.filled)) bs }

  stored-IsValid : IsValid stored
  unfolding stored
  stored-IsValid = record {
    read = v.read;
    filled = v.filled;
    read_eq = v.read_eq;
    write_eq = v.write_eq;
    remain_eq = v.remain_eq;
    inside = v.inside;
  }

  receive-stored : receive q bs ≡ shift_write_ptr stored (pos (length bs))
  unfolding receive stored
  receive-stored = rw v.write_eq

  window-stored : window (stored.buffer) v.read (v.filled + length bs) ≡ contents v ++ bs
  unfolding stored
  window-stored =
      window-append _ v.read v.filled (length bs)
      ∙ ap₂ ◌++◌ (window-copy_in_below q.buffer _ v.read v.filled bs (omega arith))
          (window-copy_in q.buffer (v.read + v.filled) bs)

  -- Bytes for which there is room are appended to the contents of a valid buffer, which stays valid.
  pub receive_appends :
      v.read + v.filled + length bs ≤ max_buffer_size
      → (v' : IsValid (receive q bs)) × (contents v' ≡ contents v ++ bs)
  unfolding stored stored-IsValid
  receive_appends room = elim (dec_lt (v.read + v.filled + length bs) max_buffer_size) [
    | yes lt ↦
        rw (receive-stored, shift_in_place stored-IsValid (length bs) lt)
          (
            record {
              read = v.read;
              filled = v.filled + length bs;
              read_eq = v.read_eq;
              write_eq = refl;
              remain_eq = refl;
              inside = omega arith;
            },
            window-stored,
          )
    | no ge ↦
        rw (receive-stored, shift_to_front stored-IsValid (length bs) (omega arith))
          (
            record {
              read = 0;
              filled = v.filled + length bs;
              read_eq = refl;
              write_eq = ap pos (omega arith);
              remain_eq = refl;
              inside = omega arith;
            },
            window-copy_down _ v.read _ ∙ window-stored,
          )
  ]

  -- Bytes for which there is no room leave the indices as they were.
  pub receive_overflow :
      max_buffer_size < v.read + v.filled + length bs
      → ((receive q bs).read_index ≡ q.read_index)
        × ((receive q bs).write_index ≡ q.write_index)
        × ((receive q bs).remain_size ≡ q.remain_size)
  unfolding stored stored-IsValid
  receive_overflow full =
      rw (receive-stored, shift_overflow stored-IsValid (length bs) full) (refl, refl, refl)

-- Of a valid buffer whose first packet is whole and of `s` bytes, less than 128, `BufReadPtr` gives
-- the address of that packet and takes exactly its bytes from the front of the unread ones.
pub read_takes_packet :
    {q : BufferQueue} (v : IsValid q) (s : ℕ)
    → q.buffer v.read ≡ s
    → s < 128
    → 0 < v.filled
    → s ≤ v.filled
    → ((buf_read_ptr q).0 ≡ some (pos v.read))
      × ((v' : IsValid (buf_read_ptr q).1) × (contents v ≡ window q.buffer v.read s ++ contents v')
          × (v'.filled + s ≡ v.filled))
read_takes_packet {q} v s e small some_left whole = rw (read_packet v s e small some_left whole) (
  refl,
  (
    record {
      read = v.read + s;
      filled = v.filled - s;
      read_eq = refl;
      write_eq = v.write_eq ∙ ap pos (omega arith);
      remain_eq = refl;
      inside = omega (arith, v.inside);
    },
    ap (window q.buffer v.read) (omega arith) ∙ window-append q.buffer v.read s (v.filled - s),
    omega arith,
  ),
)
