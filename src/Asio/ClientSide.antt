-- ===== src/Asio/ClientSide.antt =====
-- Asio/AsioNet/client_side.h: a client with one connection, `none` for a null `m_connection`. The queue
-- of incoming messages is that of the connection; `left` is what it held when the connection was let
-- go. The thread of the context, which calls the handlers, is left out.
use server_programming.Base.{ℕ, Bool, true, false, Option, none, some, List, [], if◌then◌else◌}
use server_programming.Asio.Message.{Message}
use server_programming.Asio.Connection.{Connection, OwnedMessage, Owner}
use server_programming.Asio.Connection

pub record ClientSide : Type 0 where
  pub connection : Option Connection
  pub left : List OwnedMessage

unfoldable pub none_yet : ClientSide
none_yet = record { connection = none; left = [] }

-- `Incoming`
unfoldable pub incoming : ClientSide → List OwnedMessage
incoming s = elim s.connection [ none ↦ s.left | some c ↦ c.messages_in ]

-- The queue with other messages
unfoldable pub set_incoming : ClientSide → List OwnedMessage → ClientSide
set_incoming s messages = elim s.connection [
  | none ↦ record s { left = messages }
  | some c ↦ record s { connection = some (record c { messages_in = messages }) }
]

-- `Connect`, and its result: `resolves` tells that the host was found, and `now` is the count of the
-- clock. The connection's answer comes later, in `Connection.on_connect`.
unfoldable pub connect : ClientSide → (resolves : Bool) → (now : ℕ) → Bool × ClientSide
unfolding incoming Connection.new
connect s false now = (false, s)
connect s true now =
    let c = Connection.new Owner.client now in
    (true, record s { connection = some (record c { messages_in = incoming s }) })

unfoldable pub is_connected : ClientSide → Bool
is_connected s = elim s.connection [ none ↦ false | some c ↦ c.is_open ]

-- `Disconnect`: the connection is closed, and the pointer released.
unfoldable pub disconnect : ClientSide → ClientSide
unfolding incoming
disconnect s = record s { left = incoming s; connection = none }

unfoldable pub send : ClientSide → Message → ClientSide
unfolding is_connected Connection.send
send s msg = elim s.connection [
  | none ↦ s
  | some c ↦ if c.is_open then record s { connection = some (Connection.send c msg) } else s
]
