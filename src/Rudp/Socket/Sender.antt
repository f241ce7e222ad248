-- ===== src/Rudp/Socket/Sender.antt =====
-- What the thread sends.
use server_programming.Base.{
  ℕ, suc, true, length, ◌≡◌, refl, sym, ap, ◌∙◌, inl, inr, Bool, some, Option-cases, List, [], ◌∷◌,
  ◌++◌, arith,
}
use server_programming.Rudp.PeerKey.{SockaddrIn, Winsock, get_peer_key, string_to_ep}
use server_programming.Rudp.Socket.{
  PeerMessage, Thread, inner, ended, RudpSocket, new, stop, push_to_send_buffer, thread_step,
}
use server_programming.Rudp.Socket

module _ (net : Winsock) where
  -- One step of the program or of the thread
  pub data Step (s : RudpSocket) : RudpSocket → Type 0 where
    push : (packet : List ℕ) (ep : SockaddrIn) → Step s (push_to_send_buffer net s packet ep)
    quit : Step s (stop s)
    send : (ok : Bool) {s' : RudpSocket} → thread_step net s ok ≡ some s' → Step s s'

  pub data Reach (s : RudpSocket) : RudpSocket → Type 0 where
    here : Reach s s
    next : {t u : RudpSocket} → Reach s t → Step t u → Reach s u

  -- How many of a run's steps are rounds of the thread.
  unfoldable round_of : {s t : RudpSocket} → Step s t → ℕ → ℕ
  round_of (push packet ep) n = n
  round_of quit n = n
  round_of (send ok e) n = suc n

  unfoldable pub rounds : {s t : RudpSocket} → Reach s t → ℕ
  unfolding round_of
  rounds here = 0
  rounds (next r step) = round_of step (rounds r)

  -- Every datagram is that message's packet, to its peer.
  abbrev pub AllOf : PeerMessage → List (SockaddrIn × List ℕ) → Type 0
  AllOf m [] = Unit {0}
  AllOf m ((ep, packet) ∷ sent) =
      (string_to_ep net m.peer ≡ some ep) × (packet ≡ m.packet) × AllOf m sent

  -- The thread is at its inner loop with the message `m` at the front of the queue, as it was in `s`, and
  -- has sent it once in each of its rounds since, and nothing else.
  pub record IsStuck (m : PeerMessage) (s t : RudpSocket) (rounds : ℕ) : Type 0 where
    pub behind : List PeerMessage
    pub since : List (SockaddrIn × List ℕ)
    pub queue_eq : t.main_send_queue ≡ m ∷ behind
    pub thread_eq : t.send_thread ≡ inner
    pub sent_eq : t.sent ≡ since ++ s.sent
    pub of_first : AllOf m since
    pub each_round : length since ≡ rounds

  send_msg-some :
      (t : RudpSocket) (m : PeerMessage) (ok : Bool) {u : RudpSocket}
      → Socket.send_msg net t m ok ≡ some u
      → (ep : SockaddrIn) × (string_to_ep net m.peer ≡ some ep)
        × (u ≡ record t { sent = (ep, m.packet) ∷ t.sent })
  unfolding Socket.send_msg
  send_msg-some t m ok e = elim (Option-cases (string_to_ep net m.peer)) [
    | inl bad ↦ absurd (ground arith)
    | inr (ep, good) ↦ (ep, good, ground arith)
  ]

  front_step :
      (t : RudpSocket) (m : PeerMessage) (behind : List PeerMessage) (ok : Bool)
      → t.main_send_queue ≡ m ∷ behind
      → t.send_thread ≡ inner
      → thread_step net t ok ≡ Socket.send_msg net t m ok
  unfolding thread_step Socket.get_front_msg
  front_step t m behind ok queue thread = ground arith

  Step-IsStuck :
      (m : PeerMessage) (s t u : RudpSocket) (n : ℕ)
      → IsStuck m s t n
      → (step : Step t u) → IsStuck m s u (round_of step n)
  unfolding push_to_send_buffer stop round_of
  Step-IsStuck m s t u n h (push packet ep) = record {
    behind = h.behind ++ (record { peer = get_peer_key net ep; packet = packet } ∷ []);
    since = h.since;
    queue_eq = rw h.queue_eq refl;
    thread_eq = h.thread_eq;
    sent_eq = h.sent_eq;
    of_first = h.of_first;
    each_round = h.each_round;
  }
  Step-IsStuck m s t u n h quit = record {
    behind = h.behind;
    since = h.since;
    queue_eq = h.queue_eq;
    thread_eq = h.thread_eq;
    sent_eq = h.sent_eq;
    of_first = h.of_first;
    each_round = h.each_round;
  }
  Step-IsStuck m s t u n h (send ok e) =
      let (ep, found, same) =
        send_msg-some t m ok (sym (front_step t m h.behind ok h.queue_eq h.thread_eq) ∙ e) in
      rw same (record {
        behind = h.behind;
        since = (ep, m.packet) ∷ h.since;
        queue_eq = h.queue_eq;
        thread_eq = h.thread_eq;
        sent_eq = ap (◌∷◌ (ep, m.packet)) h.sent_eq;
        of_first = (found, refl, h.of_first);
        each_round = ap suc h.each_round;
      })

  stuck :
      (m : PeerMessage) (behind : List PeerMessage) (s t : RudpSocket)
      → s.main_send_queue ≡ m ∷ behind
      → s.send_thread ≡ inner
      → (run : Reach s t) → IsStuck m s t (rounds run)
  unfolding rounds round_of
  stuck m behind s t queue thread here = record {
    behind = behind;
    since = [];
    queue_eq = queue;
    thread_eq = thread;
    sent_eq = refl;
    of_first = tt;
    each_round = refl;
  }
  stuck m behind s u queue thread (next r step) =
      Step-IsStuck m s _ u _ (stuck m behind s _ queue thread r) step

  -- Once the thread finds a message in the queue, it sends this message in each of its rounds: whatever
  -- is pushed behind it and also when the socket is being destroyed, the message stays at the front, as
  -- many datagrams as rounds are sent, all with its packet to its peer, and the thread never comes to
  -- its end. Where the peer's key is read as an address and sendto succeeds, the next round sends it
  -- once more.
  pub first_message_for_ever :
      (m : PeerMessage) (behind : List PeerMessage) (s t : RudpSocket)
      → s.main_send_queue ≡ m ∷ behind
      → s.send_thread ≡ inner
      → (run : Reach s t)
      → IsStuck m s t (rounds run)
        × ((ep : SockaddrIn)
            → string_to_ep net m.peer ≡ some ep
            → thread_step net t true ≡ some (record t { sent = (ep, m.packet) ∷ t.sent }))
  unfolding Socket.send_msg
  first_message_for_ever m behind s t queue thread run =
      let h = stuck m behind s t queue thread run in
      (
        h,
        λ ep found.
            front_step t m h.behind true h.queue_eq h.thread_eq ∙ rw (found, Socket.send_msg) refl,
      )
