-- ===== src/ClientApp/ClientSocket/Stream.antt =====
-- The client on a queue of whole packets.
mod Fields
use server_programming.Base.{
  ℕ, zero, suc, ◌≡◌, ◌≢◌, refl, subst, ◌∙◌, sym, ap, Bool, true, false, ◌&&◌, none, some, List, [],
  ◌∷◌, ◌++◌, append_assoc, length, arith,
}
use server_programming.Network.Bytes.{Stores}
use server_programming.Network.Protocol.{
  Packet, login_ok, login_fail, put_object, move, remove_object, status_change, battle_result, chat,
  encode,
}
use server_programming.Network.Protocol.RoundTrip.{IsPacket}
use server_programming.Network.Protocol.Blocks.{length-put_text}
use server_programming.Client.NetClient.Stream.{encode_all, AllPackets}
use server_programming.ClientApp.ClientSocket.Stream.Fields.{
  login_ok_reads, move_reads, put_object_reads, remove_object_reads, chat_reads,
}
use server_programming.ClientApp.ClientSocket.{
  RingBuffer, ClientSocket, on_login_ok, on_move, on_put_object, on_remove_object, on_chat,
  process_one, process_packets,
}

-- What the loop relies on: the queue hands out the bytes that it holds, in their order, and the type
-- is the second byte of the packet in front.
pub record IsQueue {Q : Type 0} (queue : RingBuffer Q) (contents : Q → List ℕ) : Type 0 where
  pub empty : (q : Q) → contents q ≡ [] → queue.is_empty q ≡ true
  pub filled : (q : Q) → contents q ≢ [] → queue.is_empty q ≡ false
  pub type :
      (q : Q) (b t : ℕ) (rest : List ℕ) → contents q ≡ b ∷ t ∷ rest → queue.get_msg_type q ≡ t
  pub read :
      (q : Q) (block rest : List ℕ)
      → contents q ≡ block ++ rest
      → Stores (queue.pop q (length block)).0 0 block
  pub left :
      (q : Q) (block rest : List ℕ)
      → contents q ≡ block ++ rest
      → contents (queue.pop q (length block)).1 ≡ rest

-- The packets that the client has a case for.
unfoldable pub has_case : Packet → Bool
has_case (login_fail reason) = false
has_case (status_change level hp max_hp exp) = false
has_case (battle_result result_type target value) = false
has_case _ = true

unfoldable pub all_have_cases : List Packet → Bool
unfolding has_case
all_have_cases [] = true
all_have_cases (p ∷ packets) = has_case p && all_have_cases packets

-- What a packet does to the client, apart from the queue.
unfoldable pub take_packet : {Q : Type 0} → Packet → ClientSocket Q → ClientSocket Q
unfolding on_login_ok on_move on_put_object on_remove_object on_chat
take_packet (login_ok id x y level hp max_hp exp) c = on_login_ok id x y c
take_packet (move id x y move_time) c = on_move id x y c
take_packet (put_object id x y object_type name) c = on_put_object id x y c
take_packet (remove_object id) c = on_remove_object id c
take_packet (chat id message) c = on_chat id message c
take_packet _ c = c

unfoldable pub take_all : {Q : Type 0} → List Packet → ClientSocket Q → ClientSocket Q
unfolding take_packet
take_all [] c = c
take_all (p ∷ packets) c = take_all packets (take_packet p c)

unfoldable pub rounds : List Packet → ℕ
rounds [] = 1
rounds (p ∷ packets) = suc (rounds packets)

encode-filled : (p : Packet) (rest : List ℕ) → encode p ++ rest ≢ []
unfolding encode
encode-filled (remove_object id) rest = λ e. cc
encode-filled p rest = λ e. cc

-- What packets do does not depend on the queue.
take_packet-queue :
    {Q : Type 0} (p : Packet) (c : ClientSocket Q) (q : Q)
    → take_packet p (record c { msg_queue = q }) ≡ record (take_packet p c) { msg_queue = q }
unfolding take_packet
take_packet-queue (remove_object id) c q = refl
take_packet-queue p c q = refl

pub take_all-queue :
    {Q : Type 0} (packets : List Packet) (c : ClientSocket Q) (q : Q)
    → take_all packets (record c { msg_queue = q }) ≡ record (take_all packets c) { msg_queue = q }
unfolding take_all
take_all-queue [] c q = refl
take_all-queue (p ∷ packets) c q =
    ap (take_all packets) (take_packet-queue p c q) ∙ take_all-queue packets (take_packet p c) q

module _ {Q : Type 0} (queue : RingBuffer Q) (contents : Q → List ℕ)
    (laws : IsQueue queue contents) where
  -- A round on a packet with a case
  round :
      (c : ClientSocket Q) (p : Packet) (rest : List ℕ)
      → IsPacket p
      → has_case p ≡ true
      → contents c.msg_queue ≡ encode p ++ rest
      → process_one queue c
        ≡ take_packet p (record c { msg_queue = (queue.pop c.msg_queue (length (encode p))).1 })
  unfolding process_one take_packet has_case encode
  round c (login_ok id x y level hp max_hp exp) rest fits known e =
      let type = laws.type c.msg_queue 20 1 _ e in
      let stored = laws.read c.msg_queue (encode (login_ok id x y level hp max_hp exp)) rest e in
      let fields =
        login_ok_reads
          (queue.pop c.msg_queue (length (encode (login_ok id x y level hp max_hp exp)))).0 id x y
          level hp max_hp exp fits stored in
      rw (type, fields.0, fields.1, fields.2) refl
  round c (move id x y move_time) rest fits known e =
      let type = laws.type c.msg_queue 14 2 _ e in
      let stored = laws.read c.msg_queue (encode (move id x y move_time)) rest e in
      let fields =
        move_reads (queue.pop c.msg_queue (length (encode (move id x y move_time)))).0 id x y
          move_time fits stored in
      rw (type, fields.0, fields.1, fields.2) refl
  round c (put_object id x y object_type name) rest fits known e =
      let text = length-put_text 20 name in
      let size : length (encode (put_object id x y object_type name)) ≡ 31 = rw text refl in
      let type = laws.type c.msg_queue 31 3 _ e in
      let stored =
        subst
          (λ n. Stores (queue.pop c.msg_queue n).0 0 (encode (put_object id x y object_type name)))
          size (laws.read c.msg_queue (encode (put_object id x y object_type name)) rest e) in
      let fields =
        put_object_reads (queue.pop c.msg_queue 31).0 id x y object_type name fits stored in
      rw (type, text, fields.0, fields.1, fields.2) refl
  round c (remove_object id) rest fits known e =
      let type = laws.type c.msg_queue 6 4 _ e in
      let stored = laws.read c.msg_queue (encode (remove_object id)) rest e in
      let fields =
        remove_object_reads (queue.pop c.msg_queue (length (encode (remove_object id)))).0 id fits
          stored in
      rw (type, fields) refl
  round c (chat id message) rest fits known e =
      let text = length-put_text 100 message in
      let size : length (encode (chat id message)) ≡ 106 = rw text refl in
      let type = laws.type c.msg_queue 106 5 _ e in
      let stored =
        subst (λ n. Stores (queue.pop c.msg_queue n).0 0 (encode (chat id message))) size
          (laws.read c.msg_queue (encode (chat id message)) rest e) in
      let fields = chat_reads (queue.pop c.msg_queue 106).0 id message fits stored in
      rw (type, text, fields.0, fields.1) refl
  round c (login_fail reason) rest fits known e = cc
  round c (status_change level hp max_hp exp) rest fits known e = cc
  round c (battle_result result_type target value) rest fits known e = cc

  -- The client that has handled packets, with an empty queue.
  pub process_all :
      (packets : List Packet) (c : ClientSocket Q)
      → AllPackets packets
      → all_have_cases packets ≡ true
      → contents c.msg_queue ≡ encode_all packets
      → (q : Q) × (process_packets queue (rounds packets) c
          ≡ some (record (take_all packets c) { msg_queue = q }))
        × (contents q ≡ [])
  unfolding process_packets take_all rounds encode_all all_have_cases AllPackets
  process_all [] c fit known e = (c.msg_queue, rw (laws.empty c.msg_queue e) refl, e)
  process_all (p ∷ packets) c fit known e =
      let q' = (queue.pop c.msg_queue (length (encode p))).1 in
      let c' = take_packet p (record c { msg_queue = q' }) in
      let some_bytes =
        laws.filled c.msg_queue (λ none. encode-filled p (encode_all packets) (sym e ∙ none)) in
      let here = round c p (encode_all packets) fit.0 (ground arith) e in
      let same = ap (λ (d : ClientSocket Q). d.msg_queue) (take_packet-queue p c q') in
      let (q, done, over) =
        process_all packets c' fit.1 (ground arith)
          (ap contents same ∙ laws.left c.msg_queue (encode p) (encode_all packets) e) in
      (
        q,
        rw (some_bytes, here)
            (done
              ∙ ap (λ (d : ClientSocket Q). some (record d { msg_queue = q }))
                  (ap (take_all packets) (take_packet-queue p c q')
                    ∙ take_all-queue packets (take_packet p c) q')),
        over,
      )

  -- A round on a packet without a case
  idle_round :
      (c : ClientSocket Q) (p : Packet) (rest : List ℕ)
      → has_case p ≡ false
      → contents c.msg_queue ≡ encode p ++ rest
      → process_one queue c ≡ c
  unfolding process_one has_case encode
  idle_round c (login_fail reason) rest unknown e = rw (laws.type c.msg_queue 3 6 _ e) refl
  idle_round c (status_change level hp max_hp exp) rest unknown e =
      rw (laws.type c.msg_queue 12 7 _ e) refl
  idle_round c (battle_result result_type target value) rest unknown e =
      rw (laws.type c.msg_queue 11 8 _ e) refl
  idle_round c p rest unknown e = cc

  idles :
      (fuel : ℕ) (c : ClientSocket Q) (p : Packet) (rest : List ℕ)
      → has_case p ≡ false
      → contents c.msg_queue ≡ encode p ++ rest
      → process_packets queue fuel c ≡ none
  unfolding process_packets
  idles zero c p rest unknown e = refl
  idles (suc fuel) c p rest unknown e =
      let some_bytes = laws.filled c.msg_queue (λ over. encode-filled p rest (sym e ∙ over)) in
      rw (some_bytes, idle_round c p rest unknown e) (idles fuel c p rest unknown e)

  -- A packet of a type without a case, behind packets with a case: the loop never ends.
  pub process_none :
      (fuel : ℕ) (packets : List Packet) (p : Packet) (rest : List ℕ) (c : ClientSocket Q)
      → AllPackets packets
      → all_have_cases packets ≡ true
      → has_case p ≡ false
      → contents c.msg_queue ≡ encode_all packets ++ (encode p ++ rest)
      → process_packets queue fuel c ≡ none
  unfolding process_packets encode_all all_have_cases AllPackets
  process_none zero packets p rest c fit known unknown e = refl
  process_none (suc fuel) [] p rest c fit known unknown e = idles (suc fuel) c p rest unknown e
  process_none (suc fuel) (k ∷ packets) p rest c fit known unknown e =
      let more = encode_all packets ++ (encode p ++ rest) in
      let e' = e ∙ append_assoc (encode k) (encode_all packets) (encode p ++ rest) in
      let q' = (queue.pop c.msg_queue (length (encode k))).1 in
      let c' = take_packet k (record c { msg_queue = q' }) in
      let some_bytes = laws.filled c.msg_queue (λ over. encode-filled k more (sym e' ∙ over)) in
      let same = ap (λ (d : ClientSocket Q). d.msg_queue) (take_packet-queue k c q') in
      rw (some_bytes, round c k more fit.0 (ground arith) e')
        (process_none fuel packets p rest c' fit.1 (ground arith) unknown
          (ap contents same ∙ laws.left c.msg_queue (encode k) more e'))
