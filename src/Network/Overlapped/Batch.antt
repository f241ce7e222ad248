-- ===== src/Network/Overlapped/Batch.antt =====
-- What is sent with one operation to which messages are added.
use server_programming.Base.{
  ℕ, suc, ◌+◌, ◌-◌, ◌≤◌, ◌<◌, ◌≡◌, refl, sym, ap, subst, ◌∙◌, ap₂, inl, inr, true, false,
  Bool-cases, some, List, [], ◌∷◌, ◌++◌, append-nil, append_assoc, arith, length, length-append,
  leb, leb→le, if◌then◌else◌,
}
use server_programming.Base.Int.{pos, ◌+ℤ◌, ◌-ℤ◌}
use server_programming.Network.BufferQueue.{
  BufferQueue, max_buffer_size, push, copy_in, get_filled_buf_len, clear,
}
use server_programming.Network.BufferQueue.Invariant.{IsValid, filled_eq}
use server_programming.Network.BufferQueue.Contents.{
  window, length-window, window-append, window-copy_in, window-copy_in_below, contents,
}
use server_programming.Network.Overlapped.{Overlapped, send, to_ulong, reset, push_msg, bytes_of}

module _ {q : BufferQueue} (v : IsValid q) (bs : List ℕ) where
  -- A message for which there is room is appended in place.
  push_in_place :
      v.read + v.filled + length bs ≤ max_buffer_size
      → 0 < length bs
      → push q (some bs) ≡ record {
        read_index = pos v.read;
        write_index = pos (v.read + (v.filled + length bs));
        remain_size = pos (max_buffer_size - (v.filled + length bs));
        buffer = copy_in q.buffer (pos (v.read + v.filled)) bs;
      }
  unfolding push ◌+ℤ◌ ◌-ℤ◌
  push_in_place room some_bytes = ground arith

  -- One for which there is none changes nothing.
  push_full : max_buffer_size < v.filled + length bs → push q (some bs) ≡ q
  unfolding push
  push_full full = ground arith

  push_appends :
      v.read + v.filled + length bs ≤ max_buffer_size
      → 0 < length bs
      → (v' : IsValid (push q (some bs))) × (v'.read ≡ v.read) × (contents v' ≡ contents v ++ bs)
  push_appends room some_bytes = rw (push_in_place room some_bytes) (
    record {
      read = v.read;
      filled = v.filled + length bs;
      read_eq = refl;
      write_eq = refl;
      remain_eq = refl;
      inside = omega arith;
    },
    refl,
    window-append _ v.read v.filled (length bs)
        ∙ ap₂ ◌++◌ (window-copy_in_below q.buffer _ v.read v.filled bs (omega arith))
            (window-copy_in q.buffer (v.read + v.filled) bs),
  )

-- The record of an operation that sends what its buffer holds from the start on
record IsSending (o : Overlapped) (bytes : List ℕ) : Type 0 where
  valid : IsValid o.net_buffer
  sends : o.operation ≡ send
  from_start : o.wsa_buf ≡ pos 0
  first : valid.read ≡ 0
  all : o.wsa_len ≡ valid.filled
  holds : contents valid ≡ bytes

-- What is sent of the messages that are added one after the other, while there is room for `room`
-- bytes: a message that does not fit is left out.
unfoldable pub fitting : ℕ → List (List ℕ) → List ℕ
fitting room [] = []
fitting room (m ∷ ms) =
    let rest = fitting (room - length m) ms in
    let skipped = fitting room ms in if leb (length m) room then m ++ rest else skipped

abbrev pub push_msgs : Overlapped → List (List ℕ) → Overlapped
push_msgs o [] = o
push_msgs o (m ∷ ms) = push_msgs (push_msg o (some m)) ms

length-contents : {q : BufferQueue} (v : IsValid q) → length (contents v) ≡ v.filled
length-contents {q} v = length-window q.buffer v.read v.filled

-- The record with another valid buffer
sending : Overlapped → BufferQueue → Overlapped
sending o q = record o { net_buffer = q; wsa_len = to_ulong (get_filled_buf_len q) }

sending-IsSending :
    (o : Overlapped) (q : BufferQueue) (bytes : List ℕ)
    → o.operation ≡ send
    → o.wsa_buf ≡ pos 0
    → (v : IsValid q) → v.read ≡ 0
    → contents v ≡ bytes
    → IsSending (sending o q) bytes
unfolding sending to_ulong
sending-IsSending o q bytes op start v first holds = record {
  valid = v;
  sends = op;
  from_start = start;
  first = first;
  all = rw (filled_eq v) (omega (arith, v.inside));
  holds = holds;
}

push_msg_lem :
    (o : Overlapped) (m : List ℕ)
    → o.operation ≡ send
    → push_msg o (some m) ≡ sending o (push o.net_buffer (some m))
unfolding push_msg sending
push_msg_lem o m op = ground arith

-- A message that changes nothing in the buffer
skip_step :
    (o : Overlapped) (bytes m : List ℕ)
    → IsSending o bytes
    → push o.net_buffer (some m) ≡ o.net_buffer
    → IsSending (push_msg o (some m)) bytes
skip_step o bytes m h same =
    rw (push_msg_lem o m h.sends, same)
      (sending-IsSending o o.net_buffer bytes h.sends h.from_start h.valid h.first h.holds)

too_long :
    (o : Overlapped) (bytes m : List ℕ) (h : IsSending o bytes)
    → leb (length m) (max_buffer_size - length bytes) ≡ false
    → max_buffer_size < h.valid.filled + length m
too_long o bytes m h full =
    let n : h.valid.filled ≡ length bytes = sym (length-contents h.valid) ∙ ap length h.holds in
    let inside = h.valid.inside in ground arith

-- A message that fits
append_step :
    (o : Overlapped) (bytes m : List ℕ)
    → IsSending o bytes
    → 0 < length m
    → length m ≤ max_buffer_size - length bytes
    → IsSending (push_msg o (some m)) (bytes ++ m)
append_step o bytes m h some_bytes fits =
    let n : h.valid.filled ≡ length bytes = sym (length-contents h.valid) ∙ ap length h.holds in
    let (v, first, appended) =
      push_appends h.valid m (omega (arith, h.first, h.valid.inside)) some_bytes in
    rw (push_msg_lem o m h.sends) (
      sending-IsSending o (push o.net_buffer (some m)) (bytes ++ m) h.sends h.from_start v
        (first ∙ h.first) (appended ∙ ap (λ (l : List ℕ). l ++ m) h.holds))

push_empty : (q : BufferQueue) → push q (some []) ≡ q
unfolding push
push_empty q = refl

-- The bytes stand in front of what fits.
fitting-append :
    (bytes m : List ℕ) (ms : List (List ℕ))
    → (bytes ++ m) ++ fitting (max_buffer_size - length (bytes ++ m)) ms
      ≡ bytes ++ (m ++ fitting (max_buffer_size - length bytes - length m) ms)
fitting-append bytes m ms =
    append_assoc bytes m _
    ∙ ap (λ (room : ℕ). bytes ++ (m ++ fitting room ms)) (omega (arith, length-append bytes m))

push_msgs-fitting :
    (o : Overlapped) (bytes : List ℕ) (ms : List (List ℕ))
    → IsSending o bytes
    → IsSending (push_msgs o ms) (bytes ++ fitting (max_buffer_size - length bytes) ms)
unfolding fitting
push_msgs-fitting o bytes [] h = rw append-nil h
push_msgs-fitting o bytes ([] ∷ ms) h =
    let rest =
      push_msgs-fitting (push_msg o (some [])) bytes ms (skip_step o bytes [] h (push_empty _)) in
    let always : leb 0 (max_buffer_size - length bytes) ≡ true = ground arith in
    let all_room : max_buffer_size - length bytes - 0 ≡ max_buffer_size - length bytes =
      omega arith in
    rw (always, all_room) rest
push_msgs-fitting o bytes ((b ∷ m) ∷ ms) h =
    let o' = push_msg o (some (b ∷ m)) in
    elim (Bool-cases (leb (suc (length m)) (max_buffer_size - length bytes))) [
      | inl fits ↦ rw fits (
          subst (IsSending (push_msgs o' ms)) (fitting-append bytes (b ∷ m) ms) (
            push_msgs-fitting o' (bytes ++ (b ∷ m)) ms
              (append_step o bytes (b ∷ m) h (omega arith) (leb→le _ _ fits))))
      | inr full ↦ rw full (
          push_msgs-fitting o' bytes ms (
            skip_step o bytes (b ∷ m) h
              (push_full h.valid (b ∷ m) (too_long o bytes (b ∷ m) h full))))
    ]

bytes_of-IsSending : (o : Overlapped) (bytes : List ℕ) → IsSending o bytes → bytes_of o ≡ bytes
unfolding bytes_of
bytes_of-IsSending o bytes h =
    rw (h.from_start, h.all)
      (ap (λ (r : ℕ). window o.net_buffer.buffer r h.valid.filled) (sym h.first) ∙ h.holds)

cleared : (q : BufferQueue) → IsValid (clear q)
unfolding clear
cleared q = record {
  read = 0;
  filled = 0;
  read_eq = refl;
  write_eq = refl;
  remain_eq = refl;
  inside = omega arith;
}

reset-IsSending :
    (o : Overlapped) (b : ℕ) (bytes : List ℕ)
    → length (b ∷ bytes) ≤ max_buffer_size
    → IsSending (reset o send (some (b ∷ bytes))) (b ∷ bytes)
unfolding reset to_ulong cleared
reset-IsSending o b bytes fits =
    let (v, first, appended) =
      push_appends (cleared o.net_buffer) (b ∷ bytes) (omega arith) (omega arith) in
    let n : v.filled ≡ length (b ∷ bytes) = sym (length-contents v) ∙ ap length appended in
    record {
      valid = v;
      sends = refl;
      from_start = refl;
      first = first;
      all = omega arith;
      holds = appended;
    }

-- A record is reset to send a message that is not empty and not longer than the buffer, and other
-- messages are added. What it then sends is that message and behind it, in their order, those of
-- the others that fit, each where the ones before it have left room; no other byte is sent.
pub batch_sends :
    (o : Overlapped) (m : List ℕ) (ms : List (List ℕ))
    → 0 < length m
    → length m ≤ max_buffer_size
    → bytes_of (push_msgs (reset o send (some m)) ms) ≡ m ++ fitting (max_buffer_size - length m) ms
batch_sends o [] ms some_bytes fits = absurd (omega arith)
batch_sends o (b ∷ m) ms some_bytes fits =
    bytes_of-IsSending _ _ (push_msgs-fitting _ (b ∷ m) ms (reset-IsSending o b m fits))
