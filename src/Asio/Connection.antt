-- ===== src/Asio/Connection.antt =====
-- Asio/AsioNet/connection.h: one end of a connection. Each handler that the Asio library calls, and
-- each job that is posted to its context, is one step; the library's sockets are not modelled. A
-- handler that starts an asynchronous read or write leaves it in `reading` or `writing`, and what a
-- write was given is appended to `wire`; the write of a handshake is not kept waiting. An identifier
-- of a message type is its number. The handlers of writes do nothing where the source would take the
-- front of an empty queue.
pub mod Writer
pub mod Reader
use Prim.Native.Nat.{bit_and, bit_or, bit_xor}
use server_programming.Base.{
  ℕ, zero, suc, ◌-◌, ◌*◌, ◌/◌, ◌%◌, ◌^◌, Bool, true, false, not, Option, none, some, List, [], ◌∷◌,
  ◌++◌, length, take, ltb, ◌==◌, if◌then◌else◌,
}
use server_programming.Asio.Message.{Message}
use server_programming.Asio.TsQueue.{push_back, is_empty}

pub data Owner : Type 0 where
  server client : Owner

-- What is written to a socket at once.
pub data Piece : Type 0 where
  header : (id size : ℕ) → Piece
  body : (bytes : List ℕ) → Piece
  handshake : (n : ℕ) → Piece

-- The reads and the writes that wait for their completion
pub data Read : Type 0 where
  read_header read_body read_validation : Read

pub data Write : Type 0 where
  write_header write_body : Write

-- A message and whether it comes with a pointer to its connection
pub record OwnedMessage : Type 0 where
  pub has_remote : Bool
  pub msg : Message

pub record Connection : Type 0 where
  pub owner : Owner
  pub is_open : Bool
  pub id : ℕ
  pub messages_out : List Message
  pub messages_in : List OwnedMessage
  pub temp_in : Message
  pub handshake_out : ℕ
  pub handshake_in : ℕ
  pub handshake_check : ℕ
  pub reading : Option Read
  pub writing : Option Write
  pub wire : List Piece
  pub validated : Bool

-- `uint64_t` arithmetic; the shift to the left stays below 2 ^ 64.
unfoldable pub scramble : ℕ → ℕ
scramble input =
    let out = bit_xor input 0xDEADBEEFC0DECAFE in
    bit_xor (bit_or (bit_and out 0xF0F0F0F0F0F0F0 / 16) (bit_and out 0x0F0F0F0F0F0F0F * 16))
      0xC0DEFACE12345678

-- The constructor, with the count of the clock
unfoldable pub new : Owner → ℕ → Connection
unfolding scramble
new owner now =
    let out : ℕ = elim owner [ server ↦ now % 2 ^ 64 | client ↦ 0 ] in
    record {
      owner = owner;
      is_open = true;
      id = 0;
      messages_out = [];
      messages_in = [];
      temp_in = record { id = 0; size = 0; body = [] };
      handshake_out = out;
      handshake_in = 0;
      handshake_check = elim owner [ server ↦ scramble out | client ↦ 0 ];
      reading = none;
      writing = none;
      wire = [];
      validated = false;
    }

-- `m_socket.close()`
unfoldable pub close : Connection → Connection
close c = record c { is_open = false; reading = none; writing = none }

-- The job of `Disconnect`
unfoldable pub disconnect : Connection → Connection
unfolding close
disconnect c = if c.is_open then close c else c

unfoldable pub write_validation : Connection → Connection
write_validation c = record c { wire = c.wire ++ (handshake c.handshake_out ∷ []) }

unfoldable pub start_read : Connection → Read → Connection
start_read c r = record c { reading = some r }

unfoldable pub connect_to_client : Connection → ℕ → Connection
unfolding write_validation start_read
connect_to_client c uid = elim c.owner [
  | client ↦ c
  | server ↦
      if c.is_open then start_read (write_validation (record c { id = uid })) read_validation else c
]

-- The handler of `async_connect`; `ok` is its success.
unfoldable pub on_connect : Connection → (ok : Bool) → Connection
unfolding start_read
on_connect c ok = if ok then start_read c read_validation else c

-- `WriteHeader` and `WriteBody` for the message at the front of the queue
unfoldable pub write_header_of : Connection → Message → Connection
write_header_of c m = record c {
  writing = some write_header;
  wire = c.wire ++ (header m.id m.size ∷ []);
}

unfoldable pub write_body_of : Connection → Message → Connection
write_body_of c m = record c { writing = some write_body; wire = c.wire ++ (body m.body ∷ []) }

-- The header of the front message if there is one
unfoldable pub write_front : Connection → List Message → Connection
unfolding write_header_of
write_front c [] = c
write_front c (m ∷ messages) = write_header_of c m

-- The job of `Send`
unfoldable pub send : Connection → Message → Connection
unfolding is_empty push_back write_front
send c msg =
    let c' = record c { messages_out = push_back c.messages_out msg } in
    if not (is_empty c.messages_out) then c' else write_front c' c'.messages_out

-- The front message is written: it leaves the queue, and the next one follows.
unfoldable pub next_message : Connection → List Message → Connection
unfolding write_front
next_message c [] = record c { writing = none }
next_message c (m ∷ messages) =
    write_front (record c { messages_out = messages; writing = none }) messages

-- The handler of `WriteHeader`
unfoldable pub on_write_header : Connection → (ok : Bool) → Connection
unfolding close next_message write_body_of
on_write_header c false = close c
on_write_header c true = elim c.messages_out [
  | [] ↦ c
  | m ∷ messages ↦
      if ltb 0 (length m.body) then write_body_of c m else next_message c c.messages_out
]

-- The handler of `WriteBody`
unfoldable pub on_write_body : Connection → (ok : Bool) → Connection
unfolding close next_message
on_write_body c false = close c
on_write_body c true = next_message c c.messages_out

-- `AddIncomingMessageQueue`, which reads the next header.
unfoldable pub add_incoming_message_queue : Connection → Connection
unfolding push_back start_read
add_incoming_message_queue c =
    let has_remote : Bool = elim c.owner [ server ↦ true | client ↦ false ] in
    start_read
      (record c {
        messages_in = push_back c.messages_in (record { has_remote = has_remote; msg = c.temp_in });
      })
      read_header

-- `std::vector::resize`
unfoldable pub resize : ℕ → List ℕ → List ℕ
resize zero l = []
resize (suc n) [] = 0 ∷ resize n []
resize (suc n) (b ∷ l) = b ∷ resize n l

-- The handler of `ReadHeader`
unfoldable pub on_read_header : Connection → (ok : Bool) → (id size : ℕ) → Connection
unfolding close resize start_read add_incoming_message_queue
on_read_header c false id size = close c
on_read_header c true id size =
    let temp = c.temp_in in
    if ltb 0 size
    then start_read
        (record c { temp_in = record { id = id; size = size; body = resize size temp.body } })
        read_body
    else add_incoming_message_queue (record c { temp_in = record temp { id = id; size = size } })

-- The handler of `ReadBody`, with the bytes that the body was overwritten with
unfoldable pub on_read_body : Connection → (ok : Bool) → List ℕ → Connection
unfolding close add_incoming_message_queue
on_read_body c false bytes = close c
on_read_body c true bytes =
    let temp = c.temp_in in
    add_incoming_message_queue (record c { temp_in = record temp { body = bytes } })

-- The handler of `WriteValidation`
unfoldable pub on_write_validation : Connection → (ok : Bool) → Connection
unfolding close start_read
on_write_validation c false = close c
on_write_validation c true = elim c.owner [ server ↦ c | client ↦ start_read c read_header ]

-- The handler of `ReadValidation`; `OnClientValidated` of the server is noted.
unfoldable pub on_read_validation : Connection → (ok : Bool) → ℕ → Connection
unfolding close start_read scramble write_validation
on_read_validation c false n = close c
on_read_validation c true n = elim c.owner [
  | server ↦
      if n == c.handshake_check
      then start_read (record c { handshake_in = n; validated = true }) read_header
      else close (record c { handshake_in = n })
  | client ↦ write_validation (record c { handshake_in = n; handshake_out = scramble n })
]
