-- ===== src/Tests/Clients.antt =====
-- The client at concrete packets and streams.
use server_programming.Base.{
  ℕ, ◌≡◌, refl, List, [], ◌∷◌, some, arith, true, false, get_or, inr, ◌⊎◌,
}
use server_programming.Base.Dict.{lookup, assign}
use server_programming.Base.Int.{pos, ◌+ℤ◌, ◌-ℤ◌}
use server_programming.Network.BufferQueue.{
  BufferQueue, Memory, get_left_buf_len, buf_read_ptr, copy_in, readable, shift_write_ptr,
}
use server_programming.Network.BufferQueue.Invariant.{IsValid}
use server_programming.Network.BufferQueue.Contents.{contents, receive}
use server_programming.Network.Protocol.{
  Packet, remove_object, put_object, login_ok, move, encode, decode,
}
use server_programming.Network.Protocol.RoundTrip.{decode-encode}
use server_programming.Client.Scene
use server_programming.Client.Scene.{Scene}
use server_programming.Client.Scene.Frames.{IsReady, has_null}
use server_programming.Client.NetClient.{
  NetClient, handle, handle_packet, on_packet, process_packets, recv_msg, disconnect,
}
use server_programming.Client.NetClient.Ready.{
  Event, packet, frame, happen, happen_all, spares, all_spare, login-IsReady, frames_follow_no_null,
}
use server_programming.Client.NetClient.Stream.{
  encode_all, AllPackets, handle_all, goes_on, process_packets-encode_all,
}
use server_programming.Client.NetClient.Segments.{deliver, arrive, asked}
use server_programming.Client.NetClient.Segments.Delivery.{deliver-encode_all}
use server_programming.Client.NetClient.Segments.Full.{full_buffer_disconnects}

abbrev pub client : NetClient
client = record {
  scene = Scene.new;
  username = b'M' ∷ b'e' ∷ [];
  sent = [];
  receiving = 1;
  loop = true;
  posted = 0;
  chats = [];
  logs = [];
  alerts = [];
  fault = false;
}

-- Objects 7 and 300 are removed.
abbrev pub two_packets : List Packet
two_packets = remove_object 7 ∷ remove_object 300 ∷ []

abbrev memory_of : List ℕ → Memory
memory_of bytes i = get_or bytes i 0

-- The bytes of both, and the size of a third packet
abbrev buffer : BufferQueue
buffer = record {
  read_index = pos 0;
  write_index = pos 13;
  remain_size = pos 1011;
  buffer = memory_of (6 ∷ 4 ∷ 7 ∷ 0 ∷ 0 ∷ 0 ∷ 6 ∷ 4 ∷ 44 ∷ 1 ∷ 0 ∷ 0 ∷ 6 ∷ []);
}

abbrev buffer-IsValid : IsValid buffer
buffer-IsValid = record {
  read = 0;
  filled = 13;
  read_eq = refl;
  write_eq = refl;
  remain_eq = refl;
  inside = omega arith;
}

decode-encode_example : decode (memory_of (6 ∷ 4 ∷ 44 ∷ 1 ∷ 0 ∷ 0 ∷ [])) ≡ some (remove_object 300)
unfolding encode
decode-encode_example =
    decode-encode (remove_object 300) (memory_of (6 ∷ 4 ∷ 44 ∷ 1 ∷ 0 ∷ 0 ∷ [])) (omega arith)
      (refl, (refl, (refl, (refl, (refl, (refl, tt))))))

-- A client after his login with the id 3
abbrev logged_in : NetClient
logged_in = (handle client 5 (login_ok 3 (pos 1) (pos 2) (pos 1) (pos 150) (pos 150) (pos 0))).1

-- Another player comes, a frame is drawn, and he moves and leaves.
abbrev some_events : List Event
some_events =
    packet 6 (put_object 0 (pos 3) (pos 4) 0 [])
    ∷ frame 16 20
    ∷ packet 25 (move 0 (pos 3) (pos 5) (pos 0))
    ∷ packet 26 (remove_object 0)
    ∷ frame 16 36
    ∷ []

frames_follow_no_null_example : IsReady (happen_all logged_in some_events).scene
unfolding all_spare spares happen handle has_null lookup assign Scene.new Scene.initialize_player
    Scene.create_new_object Scene.update_player_position Scene.update_all
frames_follow_no_null_example =
    frames_follow_no_null some_events logged_in
      (login-IsReady client 5 3 (pos 1) (pos 2) (pos 1) (pos 150) (pos 150) (pos 0) refl refl) refl

process_packets-encode_all_example :
    (left : BufferQueue) × (process_packets 9 buffer 5 client
      ≡ some (left, handle_all client 5 two_packets))
    × (v' : IsValid left) × (contents v' ≡ 6 ∷ [])
unfolding encode_all goes_on AllPackets
process_packets-encode_all_example =
    process_packets-encode_all two_packets (6 ∷ []) 9 buffer buffer-IsValid 5 client refl
      (omega arith, (omega arith, tt)) (inr (omega arith, omega arith)) (omega arith) refl

abbrev empty : BufferQueue
empty = record { read_index = pos 0; write_index = pos 0; remain_size = pos 1024; buffer = λ i. 0 }

abbrev empty-IsValid : IsValid empty
empty-IsValid = record {
  read = 0;
  filled = 0;
  read_eq = refl;
  write_eq = refl;
  remain_eq = refl;
  inside = omega arith;
}

-- The twelve bytes in pieces of one, three, and then two bytes
deliver-encode_all_example :
    (r : List ℕ × BufferQueue × NetClient) × (deliver 9
        (0 ∷ 2 ∷ 1 ∷ 1 ∷ 1 ∷ 1 ∷ 1 ∷ 1 ∷ 1 ∷ 1 ∷ 1 ∷ 1 ∷ [])
        (encode_all two_packets)
        empty
        5
        client
      ≡ some r)
    × (((r.0 ≡ []) × (r.2 ≡ asked (handle_all client 5 two_packets) r.2.receiving))
        ⊎ (get_left_buf_len r.1 ≡ pos 0))
unfolding encode_all goes_on AllPackets encode
deliver-encode_all_example =
    deliver-encode_all two_packets client 5 9 refl (omega arith, (omega arith, tt)) (omega arith)
      empty empty-IsValid refl (0 ∷ 2 ∷ 1 ∷ 1 ∷ 1 ∷ 1 ∷ 1 ∷ 1 ∷ 1 ∷ 1 ∷ 1 ∷ 1 ∷ []) (omega arith)

-- A buffer with room for one byte more, whose first packet has an unknown type
abbrev nearly_full : BufferQueue
nearly_full = record {
  read_index = pos 0;
  write_index = pos 1023;
  remain_size = pos 1;
  buffer = λ i. 9;
}

abbrev nearly_full-IsValid : IsValid nearly_full
nearly_full-IsValid = record {
  read = 0;
  filled = 1023;
  read_eq = refl;
  write_eq = refl;
  remain_eq = refl;
  inside = omega arith;
}

abbrev filled_up : BufferQueue × NetClient
filled_up = ((buf_read_ptr (receive nearly_full (9 ∷ []))).1, recv_msg (disconnect client))

full_buffer_disconnects_example :
    deliver 3 (0 ∷ []) (1 ∷ []) filled_up.0 5 filled_up.1
    ≡ some (
      1 ∷ [],
      record filled_up.0 { buffer = copy_in filled_up.0.buffer filled_up.0.write_index [] },
      disconnect filled_up.1,
    )
unfolding arrive process_packets on_packet handle_packet decode readable buf_read_ptr receive
    shift_write_ptr get_left_buf_len ◌-ℤ◌ ◌+ℤ◌
full_buffer_disconnects_example =
    full_buffer_disconnects nearly_full-IsValid 9 [] refl refl 3 5 client filled_up refl 0 1 [] []
