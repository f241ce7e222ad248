-- ===== src/Asio/Connection/Writer.antt =====
-- What a connection writes: its messages, whole and in the order in which they were sent.
use server_programming.Base.{
  ◌≡◌, refl, sym, ap, ap₂, ◌∙◌, subst, inl, inr, Bool, Bool-cases, true, false, Option, none, some,
  List, [], ◌∷◌, ◌++◌, append_assoc, append-nil, arith, length, ltb, if◌then◌else◌,
}
use server_programming.Asio.Message.{Message}
use server_programming.Asio.TsQueue.{push_back, is_empty}
use server_programming.Asio.Connection.{
  Connection, Piece, header, body, Write, write_header, write_body, write_front, next_message, send,
  on_write_header, on_write_body,
}

-- The pieces of a message: its header, and its body unless that is empty.
unfoldable pub body_of : Message → List Piece
body_of m = if ltb 0 (length m.body) then body m.body ∷ [] else []

unfoldable pub pieces : List Message → List Piece
unfolding body_of
pieces [] = []
pieces (m ∷ messages) = header m.id m.size ∷ (body_of m ++ pieces messages)

-- A message is sent, or the write that waits has succeeded.
pub data Event : Type 0 where
  sent : Message → Event
  written : Event

unfoldable pub happen : Connection → Event → Connection
unfolding send on_write_header on_write_body
happen c (sent m) = send c m
happen c written = elim c.writing [
  | none ↦ c
  | some write_header ↦ on_write_header c true
  | some write_body ↦ on_write_body c true
]

unfoldable pub happen_all : Connection → List Event → Connection
happen_all c [] = c
happen_all c (e ∷ events) = happen_all (happen c e) events

unfoldable pub messages_of : List Event → List Message
messages_of [] = []
messages_of (sent m ∷ events) = m ∷ messages_of events
messages_of (written ∷ events) = messages_of events

-- The messages of the queue whose last piece has not been given to the socket, and what was given to it
-- of the first of them.
unfoldable pub unwritten : Option Write → List Message → List Message
unwritten none queue = []
unwritten (some write_header) queue = queue
unwritten (some write_body) [] = []
unwritten (some write_body) (m ∷ queue) = queue

unfoldable pub begun : Option Write → List Message → List Piece
begun (some write_header) (m ∷ queue) = header m.id m.size ∷ []
begun _ _ = []

-- A write waits exactly if the queue holds a message.
unfoldable pub fits : Option Write → List Message → Bool
fits none [] = true
fits none (m ∷ queue) = false
fits (some w) [] = false
fits (some w) (m ∷ queue) = true

-- The pieces of the messages written, and what was begun, stand on the wire behind what was there before.
pub record InOrder (before : List Piece) (all : List Message) (c : Connection) : Type 0 where
  pub busy : fits c.writing c.messages_out ≡ true
  pub done : List Message
  pub all_eq : all ≡ done ++ unwritten c.writing c.messages_out
  pub wire_eq : c.wire ≡ before ++ (pieces done ++ begun c.writing c.messages_out)

pieces-append : (xs ys : List Message) → pieces (xs ++ ys) ≡ pieces xs ++ pieces ys
unfolding pieces
pieces-append [] ys = refl
pieces-append (m ∷ xs) ys = ap (◌∷◌ (header m.id m.size)) (
    ap (◌++◌ (body_of m)) (pieces-append xs ys)
    ∙ sym (append_assoc (body_of m) (pieces xs) (pieces ys)))

-- A connection with that queue, that write and that wire
abbrev with_queue : Connection → Option Write → List Message → List Piece → Connection
with_queue c w queue wire = record c { writing = w; messages_out = queue; wire = wire }

-- One message more is written.
done-snoc :
    (done : List Message) (m : Message) (queue : List Message)
    → done ++ (m ∷ queue) ≡ (done ++ (m ∷ [])) ++ queue
done-snoc done m queue = sym (append_assoc done (m ∷ []) queue)

wire-snoc :
    (before : List Piece) (done : List Message) (old new : List Piece) {wire : List Piece}
    → wire ≡ before ++ (pieces done ++ old)
    → wire ++ new ≡ before ++ (pieces done ++ (old ++ new))
wire-snoc before done old new e =
    ap (λ (l : List Piece). l ++ new) e
    ∙ append_assoc before (pieces done ++ old) new
    ∙ ap (◌++◌ before) (append_assoc (pieces done) old new)

whole :
    (before : List Piece) (done : List Message) (m : Message) {wire : List Piece}
    → wire ≡ before ++ (pieces done ++ pieces (m ∷ []))
    → wire ≡ before ++ pieces (done ++ (m ∷ []))
whole before done m e = e ∙ ap (◌++◌ before) (sym (pieces-append done (m ∷ [])))

module _ (before : List Piece) (all : List Message) (c : Connection) where
  sent-InOrder :
      (w : Option Write) (queue : List Message) (wire : List Piece) (m : Message)
      → InOrder before all (with_queue c w queue wire)
      → InOrder before (all ++ (m ∷ [])) (send (with_queue c w queue wire) m)
  unfolding send is_empty push_back write_front fits unwritten begun
  sent-InOrder none [] wire m h = record {
    busy = refl;
    done = h.done;
    all_eq = ap (λ (l : List Message). l ++ (m ∷ [])) (h.all_eq ∙ append-nil h.done);
    wire_eq = wire-snoc before h.done [] (header m.id m.size ∷ []) h.wire_eq;
  }
  sent-InOrder none (m₀ ∷ queue) wire m h = absurd (ground (arith, h.busy))
  sent-InOrder (some w) [] wire m h = absurd (ground (arith, h.busy))
  sent-InOrder (some write_header) (m₀ ∷ queue) wire m h = record {
    busy = refl;
    done = h.done;
    all_eq =
        ap (λ (l : List Message). l ++ (m ∷ [])) h.all_eq
        ∙ append_assoc h.done (m₀ ∷ queue) (m ∷ []);
    wire_eq = h.wire_eq;
  }
  sent-InOrder (some write_body) (m₀ ∷ queue) wire m h = record {
    busy = refl;
    done = h.done;
    all_eq = ap (λ (l : List Message). l ++ (m ∷ [])) h.all_eq ∙ append_assoc h.done queue (m ∷ []);
    wire_eq = h.wire_eq;
  }

  -- The next message of the queue, when the pieces of the front one are written.
  next-InOrder :
      (w : Option Write) (m₀ : Message) (queue : List Message) (wire : List Piece)
      (done : List Message)
      → all ≡ done ++ queue
      → wire ≡ before ++ (pieces done ++ [])
      → InOrder before all (next_message (with_queue c w (m₀ ∷ queue) wire) (m₀ ∷ queue))
  unfolding next_message write_front fits unwritten begun
  next-InOrder w m₀ [] wire done all_eq wire_eq = record {
    busy = refl;
    done = done;
    all_eq = all_eq;
    wire_eq = wire_eq;
  }
  next-InOrder w m₀ (m ∷ queue) wire done all_eq wire_eq = record {
    busy = refl;
    done = done;
    all_eq = all_eq;
    wire_eq = wire-snoc before done [] (header m.id m.size ∷ []) wire_eq;
  }

  written-InOrder :
      (w : Option Write) (queue : List Message) (wire : List Piece)
      → InOrder before all (with_queue c w queue wire)
      → InOrder before all (happen (with_queue c w queue wire) written)
  unfolding happen on_write_header on_write_body fits unwritten begun pieces body_of
  written-InOrder none queue wire h = h
  written-InOrder (some w) [] wire h = absurd (ground (arith, h.busy))
  written-InOrder (some write_body) (m₀ ∷ queue) wire h =
      next-InOrder (some write_body) m₀ queue wire h.done h.all_eq h.wire_eq
  written-InOrder (some write_header) (m₀ ∷ queue) wire h =
      let all_eq = h.all_eq ∙ done-snoc h.done m₀ queue in
      elim (Bool-cases (ltb 0 (length m₀.body))) [
        | inl more ↦
            let both = whole before h.done m₀ (
              wire-snoc before h.done (header m₀.id m₀.size ∷ []) (body m₀.body ∷ []) h.wire_eq
              ∙ rw (body_of, more) refl) in
            rw more (record {
              busy = refl;
              done = h.done ++ (m₀ ∷ []);
              all_eq = all_eq;
              wire_eq = both ∙ ap (◌++◌ before) (sym (append-nil (pieces (h.done ++ (m₀ ∷ [])))));
            })
        | inr nothing ↦
            let only = whole before h.done m₀ (h.wire_eq ∙ rw (body_of, nothing) refl) in
            rw nothing (
              next-InOrder (some write_header) m₀ queue wire (h.done ++ (m₀ ∷ [])) all_eq
                (only ∙ ap (◌++◌ before) (sym (append-nil (pieces (h.done ++ (m₀ ∷ [])))))))
      ]

happen_all-InOrder :
    (before : List Piece) (events : List Event) (all : List Message) (c : Connection)
    → InOrder before all c
    → InOrder before (all ++ messages_of events) (happen_all c events)
unfolding happen_all messages_of happen
happen_all-InOrder before [] all c h = subst (λ l. InOrder before l c) (sym (append-nil all)) h
happen_all-InOrder before (sent m ∷ events) all c h =
    subst (λ l. InOrder before l (happen_all (send c m) events))
      (append_assoc all (m ∷ []) (messages_of events))
      (happen_all-InOrder before events (all ++ (m ∷ [])) (send c m)
        (sent-InOrder before all c c.writing c.messages_out c.wire m h))
happen_all-InOrder before (written ∷ events) all c h =
    happen_all-InOrder before events all (happen c written)
      (written-InOrder before all c c.writing c.messages_out c.wire h)

-- A connection with an empty queue sends messages, and its writes succeed, in any order of the two. On
-- the wire stand the pieces of the first of those messages, each whole and in the order in which they
-- were sent, and what was begun of the next one; the other messages are in the queue.
pub writes-InOrder :
    (c : Connection) (events : List Event)
    → c.writing ≡ none
    → c.messages_out ≡ []
    → InOrder c.wire (messages_of events) (happen_all c events)
unfolding fits unwritten begun pieces
writes-InOrder c events idle empty = happen_all-InOrder c.wire events [] c (record {
  busy = ap₂ fits idle empty;
  done = [];
  all_eq = sym (ap₂ unwritten idle empty);
  wire_eq = sym (ap (◌++◌ c.wire) (ap₂ begun idle empty) ∙ append-nil c.wire);
})
