-- ===== src/Asio/ServerSide.antt =====
-- Asio/AsioNet/server_side.h: the container of connections and what is sent to it. A pointer is the
-- number of a connection, `none` for null. `gone` holds the calls of `OnClientDisconnect`, the newest
-- first. The other virtual methods are arguments.
pub mod Broadcast
use server_programming.Base.{
  ℕ, zero, suc, ◌+◌, Bool, true, false, not, ◌&&◌, Option, none, some, List, [], ◌∷◌, ◌++◌, ◌==◌,
  if◌then◌else◌,
}
use server_programming.Asio.Message.{Message}
use server_programming.Asio.Connection.{Connection, OwnedMessage, send, connect_to_client}

pub record ServerSide : Type 0 where
  pub heap : ℕ → Connection
  pub connections : List (Option ℕ)
  pub id_counter : ℕ
  pub gone : List (Option ℕ)

-- An assignment through a pointer
abbrev pub modify : ServerSide → ℕ → (Connection → Connection) → ServerSide
modify s i f = record s { heap = λ j. if j == i then f (s.heap j) else s.heap j }

unfoldable pub on_client_disconnect : ServerSide → Option ℕ → ServerSide
on_client_disconnect s client = record s { gone = client ∷ s.gone }

-- `client && client->IsConnected()`
unfoldable pub is_connected : ServerSide → Option ℕ → Bool
is_connected s none = false
is_connected s (some i) = (s.heap i).is_open

abbrev pub same_client : Option ℕ → ℕ → Bool
same_client none i = false
same_client (some j) i = i == j

-- `std::remove` of the null pointers, and `erase`
unfoldable pub erase_null : List (Option ℕ) → List (Option ℕ)
erase_null [] = []
erase_null (none ∷ l) = erase_null l
erase_null (some i ∷ l) = some i ∷ erase_null l

-- The pointer is reset before the container is searched for it, so that null pointers are erased.
unfoldable pub message_client : ServerSide → Option ℕ → Message → ServerSide
unfolding is_connected on_client_disconnect erase_null send
message_client s none msg =
    let s' = on_client_disconnect s none in record s' { connections = erase_null s'.connections }
message_client s (some i) msg =
    let s' = on_client_disconnect s (some i) in
    if is_connected s (some i)
    then modify s i (λ c. send c msg)
    else record s' { connections = erase_null s'.connections }

-- The body of the loop of `MessageAllClients`: the pointer afterwards, and the server.
unfoldable pub message_one : Message → Option ℕ → Option ℕ → ServerSide → Option ℕ × ServerSide
unfolding on_client_disconnect send
message_one msg ignore none s = (none, on_client_disconnect s none)
message_one msg ignore (some i) s =
    if (s.heap i).is_open
    then (some i, if not (same_client ignore i) then modify s i (λ c. send c msg) else s)
    else (none, on_client_disconnect s (some i))

-- The loop: whether a pointer was reset, the pointers afterwards, and the server.
unfoldable pub message_each :
    Message → Option ℕ → List (Option ℕ) → ServerSide → Bool × List (Option ℕ) × ServerSide
unfolding message_one
message_each msg ignore [] s = (false, [], s)
message_each msg ignore (p ∷ l) s =
    let (p', s') = message_one msg ignore p s in
    let (invalid, l', s'') = message_each msg ignore l s' in
    (elim p' [ none ↦ true | some i ↦ invalid ], p' ∷ l', s'')

unfoldable pub message_all_clients : ServerSide → Message → Option ℕ → ServerSide
unfolding message_each erase_null
message_all_clients s msg ignore =
    let (invalid, l, s') = message_each msg ignore s.connections s in
    record s' { connections = if invalid then erase_null l else l }

-- The handler of `WaitForClientConnection` for a new connection at the place `i`; `allowed` is the
-- result of `OnClientConnect`.
unfoldable pub on_accept :
    ServerSide → ℕ → (new_connection : Connection) → (allowed : Bool) → ServerSide
unfolding connect_to_client
on_accept s i new_connection false = s
on_accept s i new_connection true = record s {
  heap = λ j. if j == i then connect_to_client new_connection s.id_counter else s.heap j;
  connections = s.connections ++ (some i ∷ []);
  id_counter = suc s.id_counter;
}

-- The loop of `Update` over the messages received, of which `OnMessage` handles `max` at most.
unfoldable pub update {ℓ} :
    {A : Type ℓ}
    → (A → OwnedMessage → A)
    → (max : ℕ) → List OwnedMessage
    → A
    → List OwnedMessage × A
update on_message zero messages s = (messages, s)
update on_message (suc max) [] s = ([], s)
update on_message (suc max) (m ∷ messages) s = update on_message max messages (on_message s m)
