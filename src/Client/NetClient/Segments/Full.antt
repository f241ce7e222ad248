-- ===== src/Client/NetClient/Segments/Full.antt =====
-- The client when his buffer is filled to its end (GameServer/Network/BufferQueue.cpp,
-- WSAOverlappedEx.h).
use server_programming.Base.{
  ℕ, zero, suc, ◌+◌, ◌≡◌, refl, sym, ap, ◌∙◌, Option, none, some, List, [], ◌∷◌, arith, length,
}
use server_programming.Base.Int.{ℤ, pos, ◌+ℤ◌, ◌-ℤ◌}
use server_programming.Network.BufferQueue.{
  BufferQueue, get_left_buf_len, buf_read_ptr, shift_write_ptr, copy_in, max_buffer_size,
}
use server_programming.Network.BufferQueue.Invariant.{IsValid}
use server_programming.Network.BufferQueue.Contents.{receive}
use server_programming.Client.NetClient.{
  NetClient, on_packet, disconnect, process_packets, handle_completion_info, recv_msg,
}
use server_programming.Client.NetClient.Segments.{arrive, deliver, deliver_piece, deliver_eq}

write_index-read : (q : BufferQueue) → (buf_read_ptr q).1.write_index ≡ q.write_index
unfolding buf_read_ptr
write_index-read q = ground arith

write_index-process :
    (fuel : ℕ) (q : BufferQueue) (now : ℕ) (c : NetClient) (q' : BufferQueue) (c' : NetClient)
    → process_packets fuel q now c ≡ some (q', c')
    → q'.write_index ≡ q.write_index
unfolding process_packets
write_index-process zero q now c q' c' e = ground arith
write_index-process (suc fuel) q now c q' c' e = ground (
  arith,
  write_index-read q,
  write_index-process fuel (buf_read_ptr q).1 now (on_packet c now (buf_read_ptr q)).1 q' c',
)

write_index-full :
    {q : BufferQueue} (v : IsValid q) (bytes : List ℕ)
    → v.read ≡ 0
    → v.filled + length bytes ≡ max_buffer_size
    → (receive q bytes).write_index ≡ pos max_buffer_size
unfolding receive shift_write_ptr ◌-ℤ◌ ◌+ℤ◌
write_index-full v bytes front full = ground arith

-- The bytes handled do not move the place that is written to.
write_index-arrive :
    (fuel now : ℕ) (q : BufferQueue) (c : NetClient) (b : ℕ) (bytes : List ℕ)
    (r : BufferQueue × NetClient)
    → arrive fuel q now c (b ∷ bytes) ≡ some r
    → r.0.write_index ≡ (receive q (b ∷ bytes)).write_index
unfolding arrive handle_completion_info receive
write_index-arrive fuel now q c b bytes r e =
    handled (process_packets fuel (receive q (b ∷ bytes)) now c) refl e
  where
    handled :
        (o : Option (BufferQueue × NetClient))
        → process_packets fuel (receive q (b ∷ bytes)) now c ≡ o
        → (elim o [ none ↦ none | some (q', c') ↦ some (q', recv_msg c') ]) ≡ some r
        → r.0.write_index ≡ (receive q (b ∷ bytes)).write_index
    handled none h e = ground arith
    handled (some (q', c')) h e =
        ap
          (λ (o : Option (BufferQueue × NetClient)). elim o as (λ _. ℤ) [
            | none ↦ pos 0
            | some d ↦ d.0.write_index
          ])
          (sym e)
        ∙ write_index-process fuel (receive q (b ∷ bytes)) now c q' c' h

left_none : (q : BufferQueue) → q.write_index ≡ pos max_buffer_size → get_left_buf_len q ≡ pos 0
unfolding get_left_buf_len ◌-ℤ◌
left_none q e = ground arith

-- Unread bytes that stand at the front of the buffer, and bytes that then fill it to its end, leave no
-- room: however many of them the client handles, the next request for data is for no bytes, and when
-- it completes the client disconnects, whatever is still to come.
pub full_buffer_disconnects :
    {q : BufferQueue} (v : IsValid q) (b : ℕ) (bytes : List ℕ)
    → v.read ≡ 0
    → v.filled + length (b ∷ bytes) ≡ max_buffer_size
    → (fuel now : ℕ) (c : NetClient) (r : BufferQueue × NetClient)
    → arrive fuel q now c (b ∷ bytes) ≡ some r
    → (n x : ℕ) (sizes stream : List ℕ)
    → deliver fuel (n ∷ sizes) (x ∷ stream) r.0 now r.1
      ≡ some (
        x ∷ stream,
        record r.0 { buffer = copy_in r.0.buffer r.0.write_index [] },
        disconnect r.1,
      )
unfolding arrive handle_completion_info deliver_piece
full_buffer_disconnects {q} v b bytes front full fuel now c r e n x sizes stream =
    deliver_eq now fuel n x 0 sizes stream r.0 r.1 (
      rw
        (left_none r.0
          (write_index-arrive fuel now q c b bytes r e ∙ write_index-full v (b ∷ bytes) front full))
        (omega arith))
