-- ===== src/Client/NetClient/Stream.antt =====
-- The client on a stream of packets (GameServer/D2DApp/NetClient.cpp).
use server_programming.Base.{
  ℕ, zero, suc, ◌<◌, ◌≡◌, refl, sym, ◌∙◌, subst, inl, inr, Bool, true, ◌&&◌, Bool-cases, some, List,
  [], ◌∷◌, ◌++◌, append_assoc, arith, length, if◌then◌else◌,
}
use server_programming.Base.Int.{pos}
use server_programming.Network.BufferQueue.{BufferQueue, readable, buf_read_ptr}
use server_programming.Network.BufferQueue.Invariant.{IsValid}
use server_programming.Network.BufferQueue.Contents.{contents}
use server_programming.Network.BufferQueue.Split.{
  IsRest, block_readable, block_read, block_stored, after_block, after_block-IsValid,
  rest_not_readable,
}
use server_programming.Network.Protocol.{Packet, encode}
use server_programming.Network.Protocol.RoundTrip.{IsPacket, decode-encode}
use server_programming.Network.Protocol.Blocks.{encode-IsBlock}
use server_programming.Client.NetClient.{
  NetClient, handle, handle_packet, on_packet, process_packets, from,
}

-- The bytes of packets, one after the other.
unfoldable pub encode_all : List Packet → List ℕ
unfolding encode
encode_all [] = []
encode_all (p ∷ packets) = encode p ++ encode_all packets

unfoldable pub AllPackets : List Packet → Type 0
AllPackets [] = Unit {0}
AllPackets (p ∷ packets) = IsPacket p × AllPackets packets

-- The handlers of packets in their order, up to one that ends the loop.
unfoldable pub handle_all : NetClient → ℕ → List Packet → NetClient
unfolding handle
handle_all c now [] = c
handle_all c now (p ∷ packets) =
    let (more, c') = handle c now p in
    let rest = handle_all c' now packets in if more then rest else c'

-- No handler ends the loop.
unfoldable pub goes_on : NetClient → ℕ → List Packet → Bool
unfolding handle
goes_on c now [] = true
goes_on c now (p ∷ packets) = let (more, c') = handle c now p in more && goes_on c' now packets

-- One round on a whole packet handles it.
round :
    {q : BufferQueue} (v : IsValid q) (p : Packet) (rest : List ℕ)
    (e : contents v ≡ encode p ++ rest) (now : ℕ) (c : NetClient)
    → IsPacket p
    → on_packet c now (buf_read_ptr q) ≡ handle c now p
unfolding on_packet handle_packet
round v p rest e now c fits =
    let k = encode-IsBlock p in
    rw
      (
        block_read v (encode p) rest k e,
        decode-encode p (from (after_block v (encode p) rest k e).buffer (pos v.read)) fits
            (block_stored v (encode p) rest k e),
      )
      refl

-- What the loop does with packets that are whole, and with the bytes behind them.
pub record Outcome (fuel : ℕ) (q : BufferQueue) (now : ℕ) (c : NetClient) (packets : List Packet)
    (rest : List ℕ) : Type 0 where
  pub left : BufferQueue
  pub done : process_packets fuel q now c ≡ some (left, handle_all c now packets)
  pub kept : goes_on c now packets ≡ true → (v : IsValid left) × (contents v ≡ rest)

module _ {q : BufferQueue} (v : IsValid q) (p : Packet) (packets : List Packet) (rest : List ℕ)
    (e : contents v ≡ encode p ++ (encode_all packets ++ rest)) (now : ℕ) (c : NetClient)
    (fits : IsPacket p) where
  abbrev later : BufferQueue
  later = after_block v (encode p) (encode_all packets ++ rest) (encode-IsBlock p) e

  round_eq : on_packet c now (buf_read_ptr q) ≡ handle c now p
  round_eq = round v p (encode_all packets ++ rest) e now c fits

  later_eq : (buf_read_ptr q).1 ≡ later
  later_eq = rw (block_read v (encode p) (encode_all packets ++ rest) (encode-IsBlock p) e) refl

  is_readable : readable q ≡ true
  is_readable = block_readable v (encode p) (encode_all packets ++ rest) (encode-IsBlock p) e

  one_more :
      (fuel : ℕ)
      → Outcome fuel later now (handle c now p).1 packets rest
      → Outcome (suc fuel) q now c (p ∷ packets) rest
  unfolding process_packets handle_all goes_on
  one_more fuel o = elim (Bool-cases (handle c now p).0) [
    | inl more ↦ record {
      left = o.left;
      done = rw (is_readable, round_eq, later_eq, more) o.done;
      kept = λ h. o.kept (rw more at h);
    }
    | inr last ↦ record {
      left = later;
      done = rw (is_readable, round_eq, later_eq, last) refl;
      kept = λ h. absurd (ground arith);
    }
  ]

-- The loop, also where a handler ends it
pub outcome_lem :
    (packets : List Packet) (rest : List ℕ) (fuel : ℕ) {q : BufferQueue} (v : IsValid q) (now : ℕ)
    (c : NetClient)
    → contents v ≡ encode_all packets ++ rest
    → AllPackets packets
    → IsRest rest
    → length packets < fuel
    → Outcome fuel q now c packets rest
unfolding encode_all AllPackets process_packets handle_all
outcome_lem packets rest zero v now c e fits end enough = absurd (omega arith)
outcome_lem [] rest (suc fuel) {q} v now c e fits end enough = record {
  left = q;
  done = rw (rest_not_readable v (subst IsRest (sym e) end)) refl;
  kept = λ h. (v, e);
}
outcome_lem (p ∷ packets) rest (suc fuel) v now c e fits end enough =
    let e' = e ∙ append_assoc (encode p) (encode_all packets) rest in
    let (v', after) =
      after_block-IsValid v (encode p) (encode_all packets ++ rest) (encode-IsBlock p) e' in
    one_more v p packets rest e' now c fits.0 fuel
      (outcome_lem packets rest fuel v' now (handle c now p).1 after fits.1 end (omega arith))

-- On a buffer whose unread bytes are those of packets with all fields in range, none of which ends the
-- loop, and then nothing or a packet that is not complete, the loop of the client ends within one
-- round more than there are packets. It has then handled the packets in their order, and the bytes
-- behind them are left.
pub process_packets-encode_all :
    (packets : List Packet) (rest : List ℕ) (fuel : ℕ) (q : BufferQueue) (v : IsValid q) (now : ℕ)
    (c : NetClient)
    → contents v ≡ encode_all packets ++ rest
    → AllPackets packets
    → IsRest rest
    → length packets < fuel
    → goes_on c now packets ≡ true
    → (left : BufferQueue) × (process_packets fuel q now c ≡ some (left, handle_all c now packets))
      × (v' : IsValid left) × (contents v' ≡ rest)
process_packets-encode_all packets rest fuel q v now c e fits end enough goes =
    let o = outcome_lem packets rest fuel v now c e fits end enough in
    let (v', kept) = o.kept goes in (o.left, o.done, v', kept)
