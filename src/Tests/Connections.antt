-- ===== src/Tests/Connections.antt =====
-- Connections of the framework at concrete messages.
use server_programming.Base.{
  some, none, ◌≡◌, refl, true, List, [], ◌∷◌, ◌++◌, arith, ◌%◌, ◌^◌, ◌==◌, if◌then◌else◌,
}
use server_programming.Asio.Message.{Message}
use server_programming.Asio.Connection.{
  Owner, Connection, Piece, handshake, on_read_validation, write_validation, start_read, scramble,
  new, connect_to_client, on_connect, close, send,
}
use server_programming.Asio.ServerSide.{ServerSide, message_all_clients}
use server_programming.Asio.ServerSide.Broadcast.{holds, live, is_unique, message_all_clients_lem}
use server_programming.Asio.Connection.Writer.{
  Event, sent, written, happen_all, messages_of, unwritten,
}
use server_programming.Asio.Connection.Reader.{
  arrive, arrive_all, owned, messages_arrive, handshake_validates,
}

abbrev hello : Message
hello = record { id = 3; size = 2; body = 104 ∷ 105 ∷ [] }

abbrev bye : Message
bye = record { id = 4; size = 1; body = 98 ∷ [] }

-- The second message is sent while the first one is written, and is not written yet.
abbrev some_events : List Event
some_events = sent hello ∷ written ∷ sent bye ∷ written ∷ []

-- A server and its client after their handshake, which has left the client's answer on its wire
abbrev server_before : Connection
server_before = connect_to_client (new Owner.server 9) 1000

abbrev client_after : Connection
client_after = arrive_all (on_connect (new Owner.client 0) true) server_before.wire

abbrev server_after : Connection
server_after = arrive_all server_before client_after.wire

messages_arrive_example :
    let c' = happen_all client_after some_events in
    (wire : List Piece) × (c'.wire ≡ client_after.wire ++ wire)
    × ((arrive_all server_after wire).messages_in
          ++ owned true (unwritten c'.writing c'.messages_out)
        ≡ server_after.messages_in ++ owned true (hello ∷ bye ∷ []))
unfolding messages_of new start_read arrive_all arrive connect_to_client on_connect
    on_read_validation write_validation
messages_arrive_example =
    messages_arrive client_after server_after some_events refl refl
      (
        record { some_bytes = omega arith; size_eq = refl },
        (record { some_bytes = omega arith; size_eq = refl }, tt),
      )
      refl

handshake_validates_example :
    let s = connect_to_client (new Owner.server 12345) 1000 in
    let c = on_connect (new Owner.client 0) true in
    ((arrive_all s (arrive_all c s.wire).wire).validated ≡ true)
    × ((arrive_all s (handshake 5 ∷ [])).validated ≡ (5 == scramble (12345 % 2 ^ 64)))
    × ((arrive_all s (handshake 5 ∷ [])).is_open ≡ (5 == scramble (12345 % 2 ^ 64)))
handshake_validates_example = handshake_validates 12345 0 1000 5

abbrev writer : Connection
writer = new Owner.client 0

-- The first connection is open and the second one is closed.
abbrev two_connections : ServerSide
two_connections = record {
  heap = λ i. if i == 0 then writer else close writer;
  connections = some 0 ∷ some 1 ∷ [];
  id_counter = 1002;
  gone = [];
}

message_all_clients_lem_example :
    ((message_all_clients two_connections hello none).connections ≡ some 0 ∷ [])
    × ((message_all_clients two_connections hello none).heap 0 ≡ send writer hello)
unfolding live holds is_unique new close
message_all_clients_lem_example = message_all_clients_lem two_connections hello none refl 0
