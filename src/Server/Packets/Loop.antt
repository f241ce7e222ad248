-- ===== src/Server/Packets/Loop.antt =====
-- When the loop of `ProcessPackets` ends, and when it does not.
use server_programming.Base.{
  ℕ, zero, suc, ◌+◌, ◌-◌, ◌≤◌, ◌<◌, ◌≡◌, refl, ap, ◌∙◌, ◌⊎◌, inl, inr, Bool, true, false, Option,
  none, some, arith,
}
use server_programming.Base.Int.{pos, ◌-ℤ◌, ◌+ℤ◌}
use server_programming.Network.BufferQueue.{
  BufferQueue, Memory, max_buffer_size, readable, buf_read_ptr,
}
use server_programming.Network.BufferQueue.Invariant.{IsValid, read_packet, readable_iff}
use server_programming.Server.World.{World}
use server_programming.Server.Packets.{
  handle_packet, end_round, on_packet, process_one, process_packets, set_buffer, from,
}
use server_programming.Server.Packets.Buffers.{handle_packet-Keeps, handle_packet-known}

-- The buffer has its unread bytes from `r` on, `n` of them, in the memory `m`.
pub record Reads (q : BufferQueue) (m : Memory) (r n : ℕ) : Type 0 where
  pub read_eq : q.read_index ≡ pos r
  pub write_eq : q.write_index ≡ pos (r + n)
  pub remain_eq : q.remain_size ≡ pos (max_buffer_size - n)
  pub memory_eq : q.buffer ≡ m
  pub inside : r + n ≤ max_buffer_size

-- The bytes are cut into packets by their first bytes: sizes that are not 0 and positive as a
-- `char`, and at the end nothing or a packet that is not complete.
pub data Framed (m : Memory) : ℕ → ℕ → Type 0 where
  done : (r : ℕ) → Framed m r 0
  partial : (r n : ℕ) → n < m r → m r < 128 → Framed m r n
  packet : (r n s : ℕ) → m r ≡ s → 0 < s → s < 128 → Framed m (r + s) n → Framed m r (s + n)

abbrev as_valid : {q : BufferQueue} {m : Memory} {r n : ℕ} → Reads q m r n → IsValid q
as_valid {r = r} {n = n} a = record {
  read = r;
  filled = n;
  read_eq = a.read_eq;
  write_eq = a.write_eq;
  remain_eq = a.remain_eq;
  inside = a.inside;
}

abbrev buffer_of : World → ℕ → BufferQueue
buffer_of w id = (w.clients id).recv_buffer

buffer_of-set : (w : World) (id : ℕ) (q : BufferQueue) → buffer_of (set_buffer w id q) id ≡ q
buffer_of-set w id q = ground arith

-- The buffer once a packet of `s` bytes is read.
abbrev after_read : BufferQueue → ℕ → ℕ → ℕ → BufferQueue
after_read q r s n = record q {
  read_index = pos (r + s);
  remain_size = pos (max_buffer_size - (s + n - s));
}

after_read-Reads :
    {q : BufferQueue} {m : Memory} {r n : ℕ} (s : ℕ)
    → Reads q m r (s + n)
    → Reads (after_read q r s n) m (r + s) n
after_read-Reads {n = n} s a = record {
  read_eq = refl;
  write_eq = a.write_eq ∙ ap pos (omega arith);
  remain_eq = ap pos (omega arith);
  memory_eq = a.memory_eq;
  inside = omega (arith, a.inside);
}

module _ (w : World) (id : ℕ) (m : Memory) (r s n : ℕ) where
  abbrev next : World
  next = set_buffer w id (after_read (buffer_of w id) r s n)

  abbrev outcome : Option World → Bool × World
  outcome = end_round next id (after_read (buffer_of w id) r s n)

  module _ (a : Reads (buffer_of w id) m r (s + n)) (e : m r ≡ s) (small : s < 128)
      (some_left : 0 < s + n) where
    read_eq : buf_read_ptr (buffer_of w id) ≡ (some (pos r), after_read (buffer_of w id) r s n)
    read_eq =
        read_packet (as_valid a) s (ap (λ (f : Memory). f r) a.memory_eq ∙ e) small some_left
          (omega arith)

    process_one_eq :
        process_one w id ≡ outcome (handle_packet next id (from (buffer_of w id).buffer (pos r)))
    unfolding process_one
    process_one_eq = ap (on_packet w id) read_eq

    next-Reads : Reads (buffer_of next id) m (r + s) n
    next-Reads = rw (buffer_of-set w id _) (after_read-Reads s a)

    handled-Reads :
        (o : Option World)
        → handle_packet next id (from (buffer_of w id).buffer (pos r)) ≡ o
        → ((outcome o).0 ≡ false)
          ⊎ ((outcome o).0 ≡ true) × Reads (buffer_of (outcome o).1 id) m (r + s) n
    unfolding end_round
    handled-Reads none h = inl refl
    handled-Reads (some w') h = inr (refl, rw (handle_packet-Keeps next w' id _ h id) next-Reads)

    -- A round on a whole packet: it is the last one, or the packet is read and the rest is left.
    round :
        ((process_one w id).0 ≡ false)
        ⊎ ((process_one w id).0 ≡ true) × Reads (buffer_of (process_one w id).1 id) m (r + s) n
    round = rw process_one_eq (handled-Reads _ refl)

    is_readable : readable (buffer_of w id) ≡ true
    is_readable =
        readable_iff (as_valid a) s (ap (λ (f : Memory). f r) a.memory_eq ∙ e) small ∙ ground arith

-- Nothing, or a packet that is not complete, is not read.
not_readable :
    {q : BufferQueue} {m : Memory} {r n : ℕ}
    → Reads q m r n
    → (n ≡ 0) ⊎ (n < m r) × (m r < 128)
    → readable q ≡ false
unfolding readable ◌-ℤ◌
not_readable a why = ground arith

-- On unread bytes that are cut into packets of sizes from 1 to 127, with nothing or an incomplete
-- packet at the end, the loop of `ProcessPackets` ends, within one round more than there are bytes.
pub process_packets_total :
    (fuel : ℕ) (w : World) (id : ℕ) (m : Memory) (r n : ℕ)
    → Reads (buffer_of w id) m r n
    → Framed m r n
    → n < fuel
    → (w' : World) × (process_packets fuel w id ≡ some w')
unfolding process_packets
process_packets_total zero w id m r n a f h = absurd (omega arith)
process_packets_total (suc fuel) w id m r n a (done _) h = (w, rw (not_readable a (inl refl)))
process_packets_total (suc fuel) w id m r n a (partial _ _ short small) h =
    (w, rw (not_readable a (inr (short, small))))
process_packets_total (suc fuel) w id m r _ a (packet _ n s e nonzero small f) h =
    elim (round w id m r s n a e small (omega arith)) [
      | inl last ↦
          ((process_one w id).1, rw (is_readable w id m r s n a e small (omega arith), last))
      | inr (more, a') ↦
          let (w', rest) =
            process_packets_total fuel (process_one w id).1 id m (r + s) n a' f (omega arith) in
          (w', rw (is_readable w id m r s n a e small (omega arith), more) rest)
    ]

-- A known type is always handled.
known_goes_on :
    (w : World) (id : ℕ) (m : Memory) (r s n : ℕ) (a : Reads (buffer_of w id) m r (s + n))
    (e : m r ≡ s) (small : s < 128) (some_left : 0 < s + n)
    → 1 ≤ m (suc r)
    → m (suc r) ≤ 5
    → (process_one w id).0 ≡ true
unfolding ◌+ℤ◌ end_round
known_goes_on w id m r s n a e small some_left low high =
    let type_eq : from (buffer_of w id).buffer (pos r) 1 ≡ m (suc r) = ground arith in
    let (w', handled) =
      handle_packet-known (next w id m r s n) id (from (buffer_of w id).buffer (pos r))
        (rw type_eq low) (rw type_eq high) in
    rw (process_one_eq w id m r s n a e small some_left, handled)

-- If the first unread byte is 0 and the next one a known type, the loop handles that packet for ever:
-- no fuel is enough.
pub zero_size_diverges :
    (fuel : ℕ) (w : World) (id : ℕ) (m : Memory) (r n : ℕ)
    → Reads (buffer_of w id) m r n
    → 0 < n
    → m r ≡ 0
    → 1 ≤ m (suc r)
    → m (suc r) ≤ 5
    → process_packets fuel w id ≡ none
unfolding process_packets
zero_size_diverges zero w id m r n a some_left e low high = refl
zero_size_diverges (suc fuel) w id m r n a some_left e low high =
    rw (is_readable w id m r 0 n a₀ e (omega arith) (omega arith), goes_on)
      (zero_size_diverges fuel (process_one w id).1 id m r n again some_left e low high)
  where
    a₀ : Reads (buffer_of w id) m r (0 + n)
    a₀ = let z : 0 + n ≡ n = omega arith in rw z a

    goes_on : (process_one w id).0 ≡ true
    goes_on = known_goes_on w id m r 0 n a₀ e (omega arith) (omega arith) low high

    again : Reads (buffer_of (process_one w id).1 id) m r n
    again = elim (round w id m r 0 n a₀ e (omega arith) (omega arith)) [
      | inl stops ↦ absurd (cc goes_on)
      | inr (_, next_a) ↦ let z : r + 0 ≡ r = omega arith in rw z at next_a
    ]
