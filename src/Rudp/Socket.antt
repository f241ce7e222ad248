-- ===== src/Rudp/Socket.antt =====
-- RUDP/Network/RUDPSocket.h and .cpp: the queue of messages and the thread that sends them. The mutex
-- makes each operation on the queue one step.
pub mod Sender
use server_programming.Base.{
  ℕ, Bool, true, false, Option, none, some, List, [], ◌∷◌, ◌++◌, if◌then◌else◌,
}
use server_programming.Rudp.PeerKey.{SockaddrIn, Winsock, get_peer_key, string_to_ep}

-- `struct message`
pub record PeerMessage : Type 0 where
  pub peer : List ℕ
  pub packet : List ℕ

-- Where the thread stands: at the outer loop's test, at the inner one's, or at its end
pub data Thread : Type 0 where
  outer inner ended : Thread

-- `sent` holds what `sendto` was called with, the newest first.
pub record RudpSocket : Type 0 where
  pub main_send_queue : List PeerMessage
  pub loop : Bool
  pub send_thread : Thread
  pub sent : List (SockaddrIn × List ℕ)

unfoldable pub new : RudpSocket
new = record { main_send_queue = []; loop = true; send_thread = outer; sent = [] }

unfoldable pub get_front_msg : RudpSocket → Option PeerMessage
get_front_msg s = elim s.main_send_queue [ [] ↦ none | m ∷ queue ↦ some m ]

-- The first statement of the destructor, which then joins the thread
unfoldable pub stop : RudpSocket → RudpSocket
stop s = record s { loop = false }

module _ (net : Winsock) where
  unfoldable pub push_to_send_buffer : RudpSocket → List ℕ → SockaddrIn → RudpSocket
  unfolding get_peer_key
  push_to_send_buffer s packet host_ep = record s {
    main_send_queue =
        s.main_send_queue ++ (record { peer = get_peer_key net host_ep; packet = packet } ∷ []);
  }

  -- The body of the inner loop; `ok` is the success of `sendto`. `none` for an exception, which ends the
  -- process.
  unfoldable pub send_msg : RudpSocket → PeerMessage → (ok : Bool) → Option RudpSocket
  unfolding string_to_ep
  send_msg s msg ok = elim (string_to_ep net msg.peer) [
    | none ↦ none
    | some host_ep ↦ if ok then some (record s { sent = (host_ep, msg.packet) ∷ s.sent }) else none
  ]

  -- One test of one of the two loops of `sendThreadFunc`, and what it lets happen
  unfoldable pub thread_step : RudpSocket → (ok : Bool) → Option RudpSocket
  unfolding send_msg get_front_msg
  thread_step s ok = elim s.send_thread [
    | outer ↦ some (record s { send_thread = if s.loop then inner else ended })
    | inner ↦ elim (get_front_msg s) [
      | none ↦ some (record s { send_thread = outer })
      | some msg ↦ send_msg s msg ok
    ]
    | ended ↦ some s
  ]
