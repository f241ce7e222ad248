-- ===== src/Tests/Chats.antt =====
-- The chat of the Asio framework and the UDP socket at concrete texts.
use server_programming.Base.{
  ℕ, ◌≡◌, ◌≤◌, refl, true, not, none, some, [], ◌∷◌, ◌++◌, arith, length, if◌then◌else◌, ◌&&◌,
}
use server_programming.Asio.Message.{Message}
use server_programming.Asio.Connection.{Owner}
use server_programming.Asio.Connection
use server_programming.Asio.ServerSide.{ServerSide}
use server_programming.Asio.ServerSide.Broadcast.{holds, live, is_unique}
use server_programming.Asio.Chat.Client.{
  CustomClient, new, saying, line, append_msg, on_incoming, say, same_text, exit_text,
}
use server_programming.Asio.Chat.Server.{on_message}
use server_programming.Asio.Chat.Talk.{said_is_shown, lying_length_faults}
use server_programming.Asio.Chat.Lines.{last_ten, append_all, append_all-last_ten}
use server_programming.Asio.Chat.Keys.{press, typed, line_of, typed_is_said}
use server_programming.Rudp.PeerKey.{
  SockaddrIn, Winsock, get_peer_key, string_to_ep, string_to_ep-get_peer_key,
}
use server_programming.Rudp.Socket.{
  PeerMessage, inner, RudpSocket, stop, get_front_msg, send_msg, thread_step,
}
use server_programming.Rudp.Socket.Sender.{
  Reach, rounds, IsStuck, here, next, quit, send, first_message_for_ever,
}

abbrev one_connection : ServerSide
one_connection = record {
  heap = λ i. Connection.new Owner.server 3;
  connections = some 0 ∷ [];
  id_counter = 1001;
  gone = [];
}

said_is_shown_example :
    (m : Message) × (shown : Message) × (s' : ServerSide) × (saying (65 ∷ []) (104 ∷ 105 ∷ [])
      ≡ some m)
    × (on_message one_connection 0 m ≡ some s')
    × (s'.connections ≡ some 0 ∷ [])
    × ((j : ℕ)
        → s'.heap j ≡ (
            if holds j (some 0 ∷ []) && (Connection.new Owner.server 3).is_open
            then Connection.send (Connection.new Owner.server 3) shown
            else Connection.new Owner.server 3))
    × (on_incoming new [] shown ≡ some (append_msg new (line (65 ∷ []) (104 ∷ 105 ∷ []))))
unfolding live holds is_unique Connection.new
said_is_shown_example =
    said_is_shown (65 ∷ []) (104 ∷ 105 ∷ []) (omega arith) (omega arith) one_connection 0 new []
      refl

lying_length_faults_example :
    on_message one_connection 0 (record { id = 3; size = 3; body = 65 ∷ 9 ∷ 0 ∷ [] }) ≡ none
lying_length_faults_example =
    lying_length_faults one_connection 0 (record { id = 3; size = 3; body = 65 ∷ 9 ∷ 0 ∷ [] })
      (65 ∷ []) 9 0 refl refl (omega arith)

-- Nine lines and three more
abbrev nine_lines : CustomClient
nine_lines = record new { print_que = [] ∷ [] ∷ [] ∷ [] ∷ [] ∷ [] ∷ [] ∷ [] ∷ (1 ∷ []) ∷ [] }

append_all-last_ten_example :
    ((append_all nine_lines ((2 ∷ []) ∷ (3 ∷ []) ∷ (4 ∷ []) ∷ [])).print_que
      ≡ [] ∷ [] ∷ [] ∷ [] ∷ [] ∷ [] ∷ (1 ∷ []) ∷ (2 ∷ []) ∷ (3 ∷ []) ∷ (4 ∷ []) ∷ [])
    × (length (append_all nine_lines ((2 ∷ []) ∷ (3 ∷ []) ∷ (4 ∷ []) ∷ [])).print_que ≤ 10)
unfolding last_ten
append_all-last_ten_example =
    append_all-last_ten nine_lines ((2 ∷ []) ∷ (3 ∷ []) ∷ (4 ∷ []) ∷ []) (omega arith)

-- An a, a b that is taken back, and a c
typed_is_said_example :
    let c = press new ((97 ∷ 98 ∷ 8 ∷ 99 ∷ []) ++ (13 ∷ [])) in
    (c.net ≡ (say new (97 ∷ 99 ∷ [])).net)
    × (c.input_data ≡ [])
    × (c.loop ≡ (new.loop && not (same_text (97 ∷ 99 ∷ []) exit_text)))
unfolding typed line_of new
typed_is_said_example =
    typed_is_said new (97 ∷ 98 ∷ 8 ∷ 99 ∷ []) refl (refl, (refl, (refl, (refl, tt))))

-- Addresses written as one character, and ports as they are
abbrev plain_sockets : Winsock
plain_sockets = record {
  inet_ntop = λ a. a ∷ [];
  inet_pton = λ s. elim s [ [] ↦ 0 | c ∷ t ↦ c ];
  ntohs = λ p. p;
  htons = λ p. p;
  inet_pton-inet_ntop = λ a h. refl;
  htons-ntohs = λ p h. refl;
  ntohs_bound = λ p h. h;
}

abbrev home : SockaddrIn
home = record { sin_family = 2; sin_port = 5505; sin_addr = 58 }

string_to_ep-get_peer_key_example :
    string_to_ep plain_sockets (get_peer_key plain_sockets home) ≡ some home
string_to_ep-get_peer_key_example =
    string_to_ep-get_peer_key plain_sockets home refl (omega arith) (omega arith)

abbrev hello : PeerMessage
hello = record { peer = get_peer_key plain_sockets home; packet = 7 ∷ [] }

abbrev busy : RudpSocket
busy = record { main_send_queue = hello ∷ []; loop = true; send_thread = inner; sent = [] }

-- The message is sent twice, and the socket is destroyed between.
abbrev sent_once : RudpSocket
sent_once = record busy { sent = (home, 7 ∷ []) ∷ [] }

abbrev sent_twice : RudpSocket
sent_twice = record (stop sent_once) { sent = (home, 7 ∷ []) ∷ (home, 7 ∷ []) ∷ [] }

home_read : string_to_ep plain_sockets hello.peer ≡ some home
home_read = string_to_ep-get_peer_key plain_sockets home refl (omega arith) (omega arith)

first_round : thread_step plain_sockets busy true ≡ some sent_once
unfolding thread_step get_front_msg send_msg
first_round = rw (home_read, send_msg) refl

second_round : thread_step plain_sockets (stop sent_once) true ≡ some sent_twice
unfolding thread_step get_front_msg send_msg stop
second_round = rw (home_read, send_msg) refl

two_rounds : Reach plain_sockets busy sent_twice
two_rounds = next (next (next here (send true first_round)) quit) (send true second_round)

first_message_for_ever_example :
    IsStuck plain_sockets hello busy sent_twice (rounds plain_sockets two_rounds)
    × ((ep : SockaddrIn)
        → string_to_ep plain_sockets hello.peer ≡ some ep
        → thread_step plain_sockets sent_twice true
          ≡ some (record sent_twice { sent = (ep, 7 ∷ []) ∷ sent_twice.sent }))
first_message_for_ever_example =
    first_message_for_ever plain_sockets hello [] busy sent_twice refl refl two_rounds
