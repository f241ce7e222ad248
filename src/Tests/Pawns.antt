-- ===== src/Tests/Pawns.antt =====
-- The 3D client at concrete packets, queues and frames.
use server_programming.Base.{
  ℕ, suc, ◌≡◌, refl, inr, ◌≢◌, List, [], ◌∷◌, ◌++◌, some, none, true, false, get_or, drop,
  drop-append_left, arith, Bool,
}
use server_programming.Base.Dict.{lookup}
use server_programming.Base.Dict.Keys.{has}
use server_programming.Base.Int.{pos}
use server_programming.Network.Bytes.{Stores}
use server_programming.Network.Protocol.{
  Packet, login_ok, move, put_object, remove_object, status_change, encode,
}
use server_programming.Client.NetClient.Stream.{encode_all, AllPackets}
use server_programming.ClientApp.ClientSocket.{RingBuffer, ClientSocket, process_packets, on_recv}
use server_programming.ClientApp.ClientSocket.Stream.{
  IsQueue, all_have_cases, take_all, take_packet, rounds, process_all, process_none,
}
use server_programming.ClientApp.GameScene.Bytes.{received_bytes_show}
use server_programming.ClientApp.GameScene.{GameScene, update, update_scene}
use server_programming.ClientApp.GameScene.Frames.{spot, spot_of}
use server_programming.ClientApp.GameScene.Packets.{
  Event, packet, frame, happen_all, all_known, frames_show, lost_flag_faults,
}

-- A queue that is its bytes
abbrev is_nil : List ℕ → Bool
is_nil [] = true
is_nil (b ∷ bytes) = false

abbrev byte_queue : RingBuffer (List ℕ)
byte_queue = record {
  is_empty = is_nil;
  get_msg_type = λ q. get_or q 1 0;
  push = λ q bytes. q ++ bytes;
  pop = λ q n. (λ i. get_or q i 0, drop n q);
}

Stores-cons :
    (b : ℕ) (bytes block : List ℕ) (k : ℕ)
    → Stores (λ i. get_or bytes i 0) k block
    → Stores (λ i. get_or (b ∷ bytes) i 0) (suc k) block
Stores-cons b bytes [] k h = h
Stores-cons b bytes (x ∷ block) k h = (h.0, Stores-cons b bytes block (suc k) h.1)

Stores-front : (block rest : List ℕ) → Stores (λ i. get_or (block ++ rest) i 0) 0 block
Stores-front [] rest = tt
Stores-front (b ∷ block) rest =
    (refl, Stores-cons b (block ++ rest) block 0 (Stores-front block rest))

nil : (q : List ℕ) → q ≡ [] → is_nil q ≡ true
nil q e = rw e refl

not_nil : (q : List ℕ) → q ≢ [] → is_nil q ≡ false
not_nil [] some_bytes = absurd (some_bytes refl)
not_nil (b ∷ bytes) some_bytes = refl

byte_queue-IsQueue : IsQueue byte_queue (λ q. q)
byte_queue-IsQueue = record {
  empty = nil;
  filled = not_nil;
  type = λ q b t rest e. rw e refl;
  read = λ q block rest e. rw e (Stores-front block rest);
  left = λ q block rest e. rw e (drop-append_left block rest);
}

-- One logs in, an NPC appears and moves.
abbrev greetings : List Packet
greetings =
    login_ok 7 (pos 4) (pos 2) (pos 1) (pos 100) (pos 100) (pos 0)
    ∷ put_object 10000 (pos 5) (pos 2) 1 (b'N' ∷ [])
    ∷ move 10000 (pos 6) (pos 2) (pos 0)
    ∷ []

abbrev pawns : List ℕ → ClientSocket (List ℕ)
pawns bytes = record {
  player_infos = [];
  id = pos 0;
  dirty = false;
  msg_queue = bytes;
  sent = [];
  receiving = 1;
}

abbrev status : Packet
status = status_change (pos 1) (pos 90) (pos 100) (pos 0)

abbrev scene : GameScene
scene = record { players = []; render_objects = []; fault = false }

greetings-AllPackets : AllPackets greetings
unfolding AllPackets
greetings-AllPackets = (ground arith, (ground arith, (ground arith, tt)))

process_all_example :
    (q : List ℕ) × (process_packets byte_queue (rounds greetings) (pawns (encode_all greetings))
      ≡ some (record (take_all greetings (pawns (encode_all greetings))) { msg_queue = q }))
    × (q ≡ [])
unfolding all_have_cases
process_all_example =
    process_all byte_queue (λ q. q) byte_queue-IsQueue greetings (pawns (encode_all greetings))
      greetings-AllPackets refl refl

process_none_example :
    process_packets byte_queue 1000 (pawns (encode_all greetings ++ (encode status ++ []))) ≡ none
unfolding all_have_cases
process_none_example =
    process_none byte_queue (λ q. q) byte_queue-IsQueue 1000 greetings status []
      (pawns (encode_all greetings ++ (encode status ++ []))) greetings-AllPackets refl refl refl

abbrev events : List Event
events =
    packet (login_ok 7 (pos 4) (pos 2) (pos 1) (pos 100) (pos 100) (pos 0))
    ∷ frame
    ∷ packet (put_object 10000 (pos 5) (pos 2) 1 (b'N' ∷ []))
    ∷ packet (move 10000 (pos 6) (pos 2) (pos 0))
    ∷ packet (remove_object 7)
    ∷ []

frames_show_example :
    let (c, s) = happen_all events (pawns [], scene) in
    let s' = (update c s).1 in
    (s'.fault ≡ false) × ((k : ℕ) → spot (lookup k s'.players) ≡ spot_of (lookup k c.player_infos))
unfolding all_known
frames_show_example =
    frames_show events (pawns []) scene refl
      (record { distinct = tt; known = inr (λ k. refl); ok = refl })

lost_flag_faults_example :
    let c = take_packet (put_object 10000 (pos 5) (pos 2) 1 (b'N' ∷ [])) (pawns []) in
    let (c', s) = update_scene [] c scene in (update c' s).1.fault ≡ true
unfolding has
lost_flag_faults_example =
    lost_flag_faults (pawns []) scene 10000 (pos 5) (pos 2) 1 (b'N' ∷ []) refl

-- A frame after the bytes of the greetings
received_bytes_show_example :
    (c' : ClientSocket (List ℕ)) × (on_recv byte_queue
        (rounds greetings)
        (pawns [])
        (encode_all greetings)
      ≡ some c')
    × (c'.msg_queue ≡ [])
    × (let s' = (update c' scene).1 in
        (s'.fault ≡ false)
        × ((k : ℕ)
            → spot (lookup k s'.players)
              ≡ spot_of (lookup k (take_all greetings (pawns [])).player_infos)))
unfolding all_have_cases all_known
received_bytes_show_example =
    received_bytes_show byte_queue (λ q. q) byte_queue-IsQueue greetings (encode_all greetings)
      (pawns []) scene greetings-AllPackets refl refl refl
      (record { distinct = tt; known = inr (λ k. refl); ok = refl })
