-- ===== src/Asio/Connection/Reader.antt =====
-- What a connection reads: the messages of the pieces that arrive, and whether a handshake succeeds.
use server_programming.Base.{
  ℕ, ◌%◌, ◌^◌, ◌<◌, ◌≡◌, refl, sym, ap, ◌∙◌, Bool, true, false, Option, none, some, List, [], ◌∷◌,
  ◌++◌, subst, append_assoc, append-nil, arith, length, ltb, ◌==◌,
}
use server_programming.Asio.Message.{Message}
use server_programming.Asio.TsQueue.{push_back}
use server_programming.Asio.Connection.{
  new, write_validation, Connection, Owner, OwnedMessage, Piece, header, body, Write, write_header,
  write_body, handshake, Read, read_header, read_body, read_validation, close, scramble, start_read,
  add_incoming_message_queue, on_read_header, on_read_body, on_read_validation, on_connect,
  connect_to_client,
}
use server_programming.Asio.Connection.Writer.{
  Event, happen_all, messages_of, pieces, body_of, unwritten, begun, writes-InOrder,
}

-- A piece that arrives completes the read that waits for it. Other pieces do not fit, and end the
-- connection.
unfoldable pub arrive : Connection → Option Read → Piece → Connection
unfolding on_read_header on_read_body on_read_validation close
arrive c (some read_header) (header id size) = on_read_header c true id size
arrive c (some read_body) (body bytes) = on_read_body c true bytes
arrive c (some read_validation) (handshake n) = on_read_validation c true n
arrive c _ _ = close c

unfoldable pub arrive_all : Connection → List Piece → Connection
unfolding arrive
arrive_all c [] = c
arrive_all c (p ∷ pieces) = arrive_all (arrive c c.reading p) pieces

-- A message that is not empty, with its size in the header
pub record IsFull (m : Message) : Type 0 where
  pub some_bytes : 0 < length m.body
  pub size_eq : m.size ≡ length m.body

abbrev pub AllFull : List Message → Type 0
AllFull [] = Unit {0}
AllFull (m ∷ messages) = IsFull m × AllFull messages

-- Messages as they stand in the queue of a connection
abbrev pub owned : Bool → List Message → List OwnedMessage
owned r [] = []
owned r (m ∷ messages) = record { has_remote = r; msg = m } ∷ owned r messages

abbrev pub keeps_remote : Owner → Bool
keeps_remote o = elim o [ Owner.server ↦ true | Owner.client ↦ false ]

-- A connection that waits for a header, and has received these messages
abbrev waiting : Connection → Message → List OwnedMessage → Connection
waiting c temp messages = record c {
  temp_in = temp;
  messages_in = messages;
  reading = some read_header;
}

read_full :
    (c : Connection) (temp m : Message) (got : List OwnedMessage) (rest : List Piece)
    → IsFull m
    → arrive_all (waiting c temp got) (header m.id m.size ∷ (body_of m ++ rest))
      ≡ arrive_all
          (waiting c m (got ++ (record { has_remote = keeps_remote c.owner; msg = m } ∷ [])))
          rest
unfolding arrive_all arrive on_read_header on_read_body body_of add_incoming_message_queue push_back
    start_read
read_full c temp m got rest full =
    let more : ltb 0 (length m.body) ≡ true = ground (arith, full.some_bytes) in
    let sized : ltb 0 m.size ≡ true = ground (arith, full.some_bytes, full.size_eq) in
    rw (more, sized) refl

read_all :
    (messages : List Message) (c : Connection) (temp : Message) (got : List OwnedMessage)
    (rest : List Piece)
    → AllFull messages
    → (temp' : Message) × (arrive_all (waiting c temp got) (pieces messages ++ rest)
        ≡ arrive_all (waiting c temp' (got ++ owned (keeps_remote c.owner) messages)) rest)
unfolding pieces
read_all [] c temp got rest full = (
  temp,
  ap (λ (l : List OwnedMessage). arrive_all (waiting c temp l) rest) (sym (append-nil got)),
)
read_all (m ∷ messages) c temp got rest full =
    let r = keeps_remote c.owner in
    let one : OwnedMessage = record { has_remote = r; msg = m } in
    let (temp', all) = read_all messages c m (got ++ (one ∷ [])) rest full.1 in
    (
      temp',
      ap (λ (l : List Piece). arrive_all (waiting c temp got) (header m.id m.size ∷ l))
            (append_assoc (body_of m) (pieces messages) rest)
          ∙ read_full c temp m got (pieces messages ++ rest) full.0
          ∙ all
          ∙ ap (λ (l : List OwnedMessage). arrive_all (waiting c temp' l) rest)
              (append_assoc got (one ∷ []) (owned r messages)),
    )

-- A header alone, of a message that is not empty, brings no message.
begun_nothing :
    (w : Option Write) (queue : List Message) (c : Connection) (temp : Message)
    (got : List OwnedMessage)
    → AllFull (unwritten w queue)
    → (arrive_all (waiting c temp got) (begun w queue)).messages_in ≡ got
unfolding begun unwritten arrive_all arrive on_read_header start_read
begun_nothing none queue c temp got full = refl
begun_nothing (some write_body) queue c temp got full = refl
begun_nothing (some write_header) [] c temp got full = refl
begun_nothing (some write_header) (m ∷ queue) c temp got full =
    let sized : ltb 0 m.size ≡ true = ground (arith, full.0.some_bytes, full.0.size_eq) in
    rw sized refl

AllFull-append : (xs ys : List Message) → AllFull (xs ++ ys) → AllFull xs × AllFull ys
AllFull-append [] ys h = (tt, h)
AllFull-append (m ∷ xs) ys (one, h) = let (a, b) = AllFull-append xs ys h in ((one, a), b)

owned-append : (r : Bool) (xs ys : List Message) → owned r (xs ++ ys) ≡ owned r xs ++ owned r ys
owned-append r [] ys = refl
owned-append r (m ∷ xs) ys = ap (◌∷◌ (record { has_remote = r; msg = m })) (owned-append r xs ys)

-- A connection that is not writing, and has nothing in its queue, sends messages that are not empty,
-- with their sizes in their headers, and its writes succeed, in any order of the two. What this puts on
-- the wire, behind what was there before, arrives at another connection, which waits for a header. Then
-- the messages that this one has received are the first of those that were sent, in the order in which
-- they were sent, and the others are in the sender's queue, not yet written whole.
pub messages_arrive :
    (c d : Connection) (events : List Event)
    → c.writing ≡ none
    → c.messages_out ≡ []
    → AllFull (messages_of events)
    → d.reading ≡ some read_header
    → let c' = happen_all c events in
      let r = keeps_remote d.owner in
      (new : List Piece) × (c'.wire ≡ c.wire ++ new)
      × ((arrive_all d new).messages_in ++ owned r (unwritten c'.writing c'.messages_out)
          ≡ d.messages_in ++ owned r (messages_of events))
messages_arrive c d events idle empty full waits =
    let c' = happen_all c events in
    let r = keeps_remote d.owner in
    let h = writes-InOrder c events idle empty in
    let rest = begun c'.writing c'.messages_out in
    let queued = unwritten c'.writing c'.messages_out in
    let (full_done, full_queued) = AllFull-append h.done queued (subst AllFull h.all_eq full) in
    let (temp', read) = read_all h.done d d.temp_in d.messages_in rest full_done in
    let got = d.messages_in ++ owned r h.done in
    let received : (arrive_all d (pieces h.done ++ rest)).messages_in ≡ got =
      ap
        (λ (k : Option Read).
          (arrive_all (record d { reading = k }) (pieces h.done ++ rest)).messages_in)
        waits
      ∙ ap (λ (k : Connection). k.messages_in) read
      ∙ begun_nothing c'.writing c'.messages_out d temp' got full_queued in
    (
      pieces h.done ++ rest,
      h.wire_eq,
      ap (λ (l : List OwnedMessage). l ++ owned r queued) received
          ∙ append_assoc d.messages_in (owned r h.done) (owned r queued)
          ∙ ap (◌++◌ d.messages_in)
              (sym (owned-append r h.done queued) ∙ ap (owned r) (sym h.all_eq)),
    )

-- A message with an empty body, and so the size 0 in its header, that comes after another one arrives
-- with the other one's body.
empty_message_keeps_body :
    (d : Connection) (id : ℕ)
    → d.reading ≡ some read_header
    → (arrive_all d (header id 0 ∷ [])).messages_in
      ≡ d.messages_in
        ++ (record {
          has_remote = keeps_remote d.owner;
          msg = record { id = id; size = 0; body = d.temp_in.body };
        }
            ∷ [])
unfolding arrive_all arrive on_read_header add_incoming_message_queue push_back start_read
empty_message_keeps_body d id waits =
    ap (λ (r : Option Read). (arrive (record d { reading = r }) r (header id 0)).messages_in) waits

-- A server and a client that it has accepted exchange the handshake: the server's number goes out, and
-- the client's answer to it validates the client. Any other answer than that ends the connection.
pub handshake_validates :
    (now now' uid n : ℕ)
    → let s = connect_to_client (new Owner.server now) uid in
      let c = on_connect (new Owner.client now') true in
      let c' = arrive_all c s.wire in
      ((arrive_all s c'.wire).validated ≡ true)
      × ((arrive_all s (handshake n ∷ [])).validated ≡ (n == scramble (now % 2 ^ 64)))
      × ((arrive_all s (handshake n ∷ [])).is_open ≡ (n == scramble (now % 2 ^ 64)))
unfolding arrive_all arrive on_read_validation connect_to_client on_connect new write_validation
    start_read close
handshake_validates now now' uid n = (ground arith, ground arith, ground arith)
