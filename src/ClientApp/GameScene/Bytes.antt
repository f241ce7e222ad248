-- ===== src/ClientApp/GameScene/Bytes.antt =====
-- From the bytes that the socket receives to the pawns of the next frame.
use server_programming.Base.{ℕ, subst, ◌≡◌, refl, ap, true, false, some, List, [], ◌∷◌, map}
use server_programming.Base.Dict.{lookup}
use server_programming.Network.Protocol.{Packet}
use server_programming.Client.NetClient.Stream.{encode_all, AllPackets}
use server_programming.ClientApp.ClientSocket.{RingBuffer, ClientSocket, recv_msg, on_recv}
use server_programming.ClientApp.ClientSocket.Stream.{
  IsQueue, all_have_cases, take_packet, take_all, take_all-queue, rounds, process_all,
}
use server_programming.ClientApp.GameScene.{GameScene, update}
use server_programming.ClientApp.GameScene.Frames.{spot, spot_of}
use server_programming.ClientApp.GameScene.Packets.{
  IsReady, packet, happen_all, all_known, happen_all-IsReady, update-IsReady,
}

happen_all-packets :
    {Q : Type 0} (packets : List Packet) (c : ClientSocket Q) (s : GameScene)
    → happen_all (map packet packets) (c, s) ≡ (take_all packets c, s)
unfolding happen_all take_all
happen_all-packets [] c s = refl
happen_all-packets (p ∷ packets) c s = happen_all-packets packets (take_packet p c) s

take_all-IsReady :
    {Q : Type 0} (packets : List Packet) (c : ClientSocket Q) (s : GameScene)
    → all_known (map packet packets) (c, s) ≡ true
    → IsReady c s
    → IsReady (take_all packets c) s
take_all-IsReady {Q} packets c s known r =
    subst (λ (a : ClientSocket Q × GameScene). IsReady a.0 a.1) (happen_all-packets packets c s)
      (happen_all-IsReady (map packet packets) (c, s) known r)

-- The queue holds, with the bytes received, those of whole packets with all fields in range, each of a
-- type that the client has a case for, and only known players move and speak; the scene has the players
-- that the socket knows of, or the flag says that it may not. Then the case of a completed receive ends,
-- the queue is empty, and the next frame reads no null pointer and shows exactly the players that the
-- packets leave known, each in the place that they gave.
pub received_bytes_show :
    {Q : Type 0} (queue : RingBuffer Q) (contents : Q → List ℕ)
    → IsQueue queue contents
    → (packets : List Packet) (bytes : List ℕ) (c : ClientSocket Q) (s : GameScene)
    → AllPackets packets
    → all_have_cases packets ≡ true
    → contents (queue.push c.msg_queue bytes) ≡ encode_all packets
    → all_known (map packet packets) (c, s) ≡ true
    → IsReady c s
    → (c' : ClientSocket Q) × (on_recv queue (rounds packets) c bytes ≡ some c')
      × (contents c'.msg_queue ≡ [])
      × (let s' = (update c' s).1 in
          (s'.fault ≡ false)
          × ((k : ℕ)
              → spot (lookup k s'.players) ≡ spot_of (lookup k (take_all packets c).player_infos)))
unfolding on_recv recv_msg
received_bytes_show {Q} queue contents laws packets bytes c s fit cases holds known r =
    let q₀ = queue.push c.msg_queue bytes in
    let (q, done, over) =
      process_all queue contents laws packets (record c { msg_queue = q₀ }) fit cases holds in
    let after = take_all packets c in
    let c' = recv_msg (record after { msg_queue = q }) in
    let ready = take_all-IsReady packets c s known r in
    let ready' : IsReady c' s = record {
      distinct = ready.distinct;
      known = ready.known;
      ok = ready.ok;
    } in
    let (kept, same, shows) = update-IsReady c' s ready' in
    let handled =
      ap (λ (d : ClientSocket Q). some (recv_msg (record d { msg_queue = q })))
        (take_all-queue packets c q₀) in
    (c', rw (done, on_recv) handled, over, (kept.ok, shows))
