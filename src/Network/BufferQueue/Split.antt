-- ===== src/Network/BufferQueue/Split.antt =====
-- The packets of a buffer, one after the other.
use server_programming.Base.{
  ℕ, zero, suc, ◌+◌, ◌-◌, ◌≤◌, ◌<◌, ◌≡◌, refl, ap, ap₂, subst, ◌∙◌, ◌⊎◌, inl, inr, true, false,
  some, List, [], ◌∷◌, ◌++◌, arith, length, get_or,
}
use server_programming.Base.Int.{pos, ◌+ℤ◌, ◌-ℤ◌}
use server_programming.Network.BufferQueue.{
  BufferQueue, Memory, byte_at, max_buffer_size, readable, buf_read_ptr,
}
use server_programming.Network.BufferQueue.Invariant.{IsValid, readable_iff, read_packet}
use server_programming.Network.BufferQueue.Contents.{contents, window, length-window}
use server_programming.Network.Bytes.{Stores}

-- A packet's bytes: the first one is their number, which a `char` holds.
pub record IsBlock (bytes : List ℕ) : Type 0 where
  pub size : get_or bytes 0 0 ≡ length bytes
  pub some_bytes : 0 < length bytes
  pub small : length bytes < 128

-- What is left when no packet is whole: nothing, or a packet that is not complete.
abbrev pub IsRest : List ℕ → Type 0
IsRest bytes = (bytes ≡ []) ⊎ (length bytes < get_or bytes 0 0) × (get_or bytes 0 0 < 128)

Stores-window :
    (m : Memory) (r n : ℕ) (bytes rest : List ℕ) → window m r n ≡ bytes ++ rest → Stores m r bytes
Stores-window m r n [] rest e = tt
Stores-window m r zero (b ∷ bytes) rest e = ground arith
Stores-window m r (suc n) (b ∷ bytes) rest e =
    (ground arith, Stores-window m (suc r) n bytes rest (ground arith))

-- The same bytes, read from the address on.
Stores-from :
    (m : Memory) (r i : ℕ) (bytes : List ℕ)
    → Stores m (r + i) bytes
    → Stores (λ k. byte_at m (pos r +ℤ pos k)) i bytes
unfolding ◌+ℤ◌
Stores-from m r i [] h = tt
Stores-from m r i (b ∷ bytes) h =
    let e : suc (r + i) ≡ r + suc i = omega arith in
    (ground arith, Stores-from m r (suc i) bytes (subst (λ k. Stores m k bytes) e h.1))

window-drop :
    (m : Memory) (r n : ℕ) (bytes rest : List ℕ)
    → window m r n ≡ bytes ++ rest
    → window m (r + length bytes) (n - length bytes) ≡ rest
window-drop m r n [] rest e = ap₂ (window m) (omega arith) (omega arith) ∙ e
window-drop m r zero (b ∷ bytes) rest e = ground arith
window-drop m r (suc n) (b ∷ bytes) rest e =
    ap₂ (window m) (omega arith) (omega arith) ∙ window-drop m (suc r) n bytes rest (ground arith)

length-prefix :
    (m : Memory) (r n : ℕ) (bytes rest : List ℕ) → window m r n ≡ bytes ++ rest → length bytes ≤ n
length-prefix m r n [] rest e = omega arith
length-prefix m r zero (b ∷ bytes) rest e = ground arith
length-prefix m r (suc n) (b ∷ bytes) rest e =
    let h : length bytes ≤ n = length-prefix m (suc r) n bytes rest (ground arith) in omega arith

first_byte :
    (m : Memory) (r n : ℕ) (bytes rest : List ℕ)
    → 0 < length bytes
    → window m r n ≡ bytes ++ rest
    → m r ≡ get_or bytes 0 0
first_byte m r n [] rest nonempty e = absurd (omega arith)
first_byte m r zero (b ∷ bytes) rest nonempty e = ground arith
first_byte m r (suc n) (b ∷ bytes) rest nonempty e = ground arith

module _ {q : BufferQueue} (v : IsValid q) (bytes rest : List ℕ) (k : IsBlock bytes)
    (e : contents v ≡ bytes ++ rest) where
  whole : length bytes ≤ v.filled
  whole = length-prefix q.buffer v.read v.filled bytes rest e

  first : q.buffer v.read ≡ length bytes
  first = first_byte q.buffer v.read v.filled bytes rest k.some_bytes e ∙ k.size

  -- A whole packet is seen.
  pub block_readable : readable q ≡ true
  block_readable = readable_iff v (length bytes) first k.small ∙ ground (arith, whole, k.some_bytes)

  -- The queue once it is read.
  pub after_block : BufferQueue
  after_block = record q {
    read_index = pos (v.read + length bytes);
    remain_size = pos (max_buffer_size - (v.filled - length bytes));
  }

  pub block_read : buf_read_ptr q ≡ (some (pos v.read), after_block)
  unfolding after_block
  block_read = read_packet v (length bytes) first k.small (omega (arith, whole, k.some_bytes)) whole

  pub block_stored : Stores (λ i. byte_at after_block.buffer (pos v.read +ℤ pos i)) 0 bytes
  unfolding after_block
  block_stored =
      let z : v.read ≡ v.read + 0 = omega arith in
      Stores-from q.buffer v.read 0 bytes (
        subst (λ i. Stores q.buffer i bytes) z
          (Stores-window q.buffer v.read v.filled bytes rest e))

  pub after_block-IsValid : (v' : IsValid after_block) × (contents v' ≡ rest)
  unfolding after_block
  after_block-IsValid = (
    record {
      read = v.read + length bytes;
      filled = v.filled - length bytes;
      read_eq = refl;
      write_eq = v.write_eq ∙ ap pos (omega (arith, whole));
      remain_eq = refl;
      inside = omega (arith, v.inside, whole);
    },
    window-drop q.buffer v.read v.filled bytes rest e,
  )

-- Nothing is read while no packet is whole.
pub rest_not_readable : {q : BufferQueue} (v : IsValid q) → IsRest (contents v) → readable q ≡ false
unfolding readable ◌-ℤ◌
rest_not_readable {q} v h = by_count v.filled refl h
  where
    nothing : v.filled ≡ 0 → readable q ≡ false
    nothing e = ground arith

    part : v.filled < q.buffer v.read → q.buffer v.read < 128 → readable q ≡ false
    part short small = readable_iff v (q.buffer v.read) refl small ∙ ground arith

    by_count : (n : ℕ) → v.filled ≡ n → IsRest (window q.buffer v.read n) → readable q ≡ false
    by_count zero e h = nothing e
    by_count (suc n) e (inl empty) = ground arith
    by_count (suc n) e (inr (short, small)) =
        let all : length (window q.buffer (suc v.read) n) ≡ n =
          length-window q.buffer (suc v.read) n in
        part (omega (arith, short, all, e)) small
