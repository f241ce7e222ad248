-- ===== src/Client/NetClient/Segments/Delivery.antt =====
-- A byte stream that reaches the client in pieces.
use server_programming.Base.{
  ℕ, zero, suc, ◌+◌, ◌-◌, ◌≤◌, ◌<◌, ◌≡◌, refl, sym, ap, ap₂, ◌∙◌, subst, ◌⊎◌, inl, inr, true, some,
  List, [], ◌∷◌, ◌++◌, append-nil, arith, length, length-append, length-take, take, drop,
}
use Prim.Native.Nat.{min}
use server_programming.Base.Int.{pos, pos_part}
use server_programming.Network.BufferQueue.{BufferQueue, Memory, get_left_buf_len, max_buffer_size}
use server_programming.Network.BufferQueue.Invariant.{IsValid, left_eq}
use server_programming.Network.BufferQueue.Contents.{contents}
use server_programming.Network.Protocol.{Packet}
use server_programming.Client.NetClient.{NetClient, handle_completion_info}
use server_programming.Client.NetClient.Stream.{encode_all, AllPackets, handle_all, goes_on}
use server_programming.Client.NetClient.Cut.{nothing_todo}
use server_programming.Client.NetClient.Segments.{
  arrive, deliver, asked, take-append-drop, deliver_piece, deliver_eq,
}
use server_programming.Client.NetClient.Segments.Pieces.{Progress, one_piece}

module _ (now fuel : ℕ) where
  -- A piece is no longer than the room behind the unread bytes.
  room_of :
      (n k : ℕ) {q : BufferQueue} (v : IsValid q)
      → min (suc n) (pos_part (get_left_buf_len q)) ≡ k
      → min (suc n) (max_buffer_size - (v.read + v.filled)) ≡ k
  room_of n k v e = ap (λ z. min (suc n) (pos_part z)) (sym (left_eq v)) ∙ e

  same_room :
      (q : BufferQueue) (m : Memory)
      → get_left_buf_len (record q { buffer = m }) ≡ get_left_buf_len q
  unfolding get_left_buf_len
  same_room q m = refl

  handled_piece :
      (k b : ℕ) (sizes stream : List ℕ) (q : BufferQueue) (c : NetClient) {q' : BufferQueue}
      {c' : NetClient}
      → arrive fuel q now c (b ∷ take k stream) ≡ some (q', c')
      → deliver_piece now fuel (suc k) sizes (b ∷ stream) q c
        ≡ deliver fuel sizes (drop k stream) q' now c'
  unfolding deliver_piece
  handled_piece k b sizes stream q c e = rw (deliver_piece, e) (ground arith)

module _ (packets : List Packet) (c₀ : NetClient) (now fuel : ℕ)
    (goes : goes_on c₀ now packets ≡ true) (fits : AllPackets packets)
    (enough : length packets < fuel) where
  -- The delivery has ended: all packets are handled, or the buffer has no room left.
  abbrev Delivered : List ℕ → List ℕ → BufferQueue → NetClient → Type 0
  Delivered sizes stream q c =
      (r : List ℕ × BufferQueue × NetClient) × (deliver fuel sizes stream q now c ≡ some r)
      × (((r.0 ≡ []) × (r.2 ≡ asked (handle_all c₀ now packets) r.2.receiving))
          ⊎ (get_left_buf_len r.1 ≡ pos 0))

  finished :
      (q : BufferQueue) (c : NetClient)
      → Progress packets c₀ now [] q c
      → c ≡ asked (handle_all c₀ now packets) c.receiving
  finished q c g =
      let none_left =
        nothing_todo g.todo (contents g.valid) (sym (append-nil (contents g.valid)) ∙ g.bytes)
          g.is_rest in
      let same : packets ≡ g.done = g.all ∙ ap (◌++◌ g.done) none_left ∙ append-nil g.done in
      g.client
      ∙ ap₂ (λ (l : List Packet) (n : ℕ). asked (handle_all c₀ now l) n) (sym same)
          (sym (ap (λ (d : NetClient). d.receiving) g.client))

  -- A piece that fits is handled, and one that has no room ends the delivery.
  piece :
      (n b : ℕ) (sizes stream : List ℕ) (q : BufferQueue) (c : NetClient)
      → ((stream' : List ℕ) (q' : BufferQueue) (c' : NetClient)
          → Progress packets c₀ now stream' q' c'
          → length stream' ≤ length sizes
          → Delivered sizes stream' q' c')
      → (g : Progress packets c₀ now (b ∷ stream) q c) → length stream ≤ length sizes
      → (k : ℕ) → min (suc n) (pos_part (get_left_buf_len q)) ≡ k
      → Delivered (n ∷ sizes) (b ∷ stream) q c
  unfolding arrive handle_completion_info deliver_piece
  piece n b sizes stream q c rest g long zero e =
      let full : get_left_buf_len q ≡ pos 0 =
        left_eq g.valid ∙ ap pos (omega (arith, room_of now fuel n 0 g.valid e)) in
      (_, deliver_eq now fuel n b 0 sizes stream q c e, inr (same_room now fuel q _ ∙ full))
  piece n b sizes stream q c rest g long (suc k) e =
      let pieces = ap (◌∷◌ b) (sym (take-append-drop k stream)) in
      let g' : Progress packets c₀ now ((b ∷ take k stream) ++ drop k stream) q c =
        subst (λ l. Progress packets c₀ now l q c) pieces g in
      let room : g'.valid.read + g'.valid.filled + length (b ∷ take k stream) ≤ max_buffer_size =
        omega (arith, room_of now fuel n (suc k) g.valid e, g.valid.inside, length-take k stream) in
      let (r, done, g'') =
        one_piece packets c₀ now fuel goes fits enough q c b (take k stream) (drop k stream) g'
          room in
      let (end, goes_to, ending) = rest (drop k stream) r.0 r.1 g'' (
        omega (
          arith,
          long,
          length-append (take k stream) (drop k stream),
          ap length (take-append-drop k stream),
        )) in
      (
        end,
        deliver_eq now fuel n b (suc k) sizes stream q c e
            ∙ handled_piece now fuel k b sizes stream q c done
            ∙ goes_to,
        ending,
      )

  deliver_all :
      (sizes stream : List ℕ) (q : BufferQueue) (c : NetClient)
      → Progress packets c₀ now stream q c
      → length stream ≤ length sizes
      → Delivered sizes stream q c
  unfolding deliver
  deliver_all [] [] q c g long = (([], q, c), refl, inl (refl, finished q c g))
  deliver_all [] (b ∷ stream) q c g long = absurd (omega arith)
  deliver_all (n ∷ sizes) [] q c g long = (([], q, c), refl, inl (refl, finished q c g))
  deliver_all (n ∷ sizes) (b ∷ stream) q c g long =
      piece n b sizes stream q c (deliver_all sizes) g (omega arith)
        (min (suc n) (pos_part (get_left_buf_len q))) refl

-- Packets that do not end the loop, with all fields in range, reach a client with an empty buffer as a
-- stream of bytes, in pieces of any sizes, and there are as many pieces as bytes. In the end the
-- client has handled exactly those packets in their order, as if each had come alone, or the buffer
-- has no room left behind its unread bytes.
pub deliver-encode_all :
    (packets : List Packet) (c : NetClient) (now fuel : ℕ)
    → goes_on c now packets ≡ true
    → AllPackets packets
    → length packets < fuel
    → (q : BufferQueue) (v : IsValid q) → contents v ≡ []
    → (sizes : List ℕ) → length (encode_all packets) ≤ length sizes
    → (r : List ℕ × BufferQueue × NetClient) × (deliver fuel sizes (encode_all packets) q now c
        ≡ some r)
      × (((r.0 ≡ []) × (r.2 ≡ asked (handle_all c now packets) r.2.receiving))
          ⊎ (get_left_buf_len r.1 ≡ pos 0))
unfolding handle_all
deliver-encode_all packets c now fuel goes fits enough q v empty sizes long =
    deliver_all packets c now fuel goes fits enough sizes (encode_all packets) q c start long
  where
    start : Progress packets c now (encode_all packets) q c
    start = record {
      done = [];
      todo = packets;
      count = c.receiving;
      all = refl;
      client = refl;
      valid = v;
      bytes = ap (λ (l : List ℕ). l ++ encode_all packets) empty;
      is_rest = inl empty;
    }
