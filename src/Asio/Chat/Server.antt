-- ===== src/Asio/Chat/Server.antt =====
-- Asio/AsioServer/server_main.cpp: what `CustomServer` does when a client connects and when a message
-- arrives. The lines that it prints are left out.
use server_programming.Base.{ℕ, Bool, true, Option, none, some, List, length, ◌==◌, if◌then◌else◌}
use server_programming.Asio.Message.{Message}
use server_programming.Asio.Connection.{Connection, send}
use server_programming.Asio.ServerSide.{ServerSide, modify, on_accept, message_all_clients}
use server_programming.Asio.Chat.{
  server_accept, server_ping, message_all, server_message, fresh, push_text, pop_text,
}

-- Whether the client is allowed, and the message that `Send` is called with.
unfoldable pub on_client_connect : Bool × Message
unfolding fresh
on_client_connect = (true, fresh server_accept)

-- A new connection at the place `i`: the job of `Send` waits for the end of the handler that accepts
-- the client.
unfoldable pub accept_client : ServerSide → ℕ → Connection → ServerSide
unfolding on_client_connect on_accept send
accept_client s i new_connection =
    let (allowed, msg) = on_client_connect in
    modify (on_accept s i new_connection allowed) i (λ c. send c msg)

-- The message for everyone: the text, and the name on top of it. The resized strings have the lengths
-- that were read.
unfoldable pub push_name : List ℕ → Option Message → Option Message
unfolding push_text
push_name name none = none
push_name name (some m) = push_text m name (length name)

unfoldable pub announcement : List ℕ → List ℕ → Option Message
unfolding push_name fresh
announcement name text = push_name name (push_text (fresh server_message) text (length text))

unfoldable pub broadcast : ServerSide → Option Message → Option ServerSide
unfolding message_all_clients
broadcast s none = none
broadcast s (some msg) = some (message_all_clients s msg none)

-- The rest of the case `MessageAll`, with the name and with the text
unfoldable pub relay_text : ServerSide → List ℕ → Option (List ℕ × Message) → Option ServerSide
unfolding broadcast announcement
relay_text s name none = none
relay_text s name (some (text, m)) = broadcast s (announcement name text)

unfoldable pub relay : ServerSide → Option (List ℕ × Message) → Option ServerSide
unfolding relay_text pop_text
relay s none = none
relay s (some (name, m)) = relay_text s name (pop_text m)

-- `none` where a text is longer than the message.
unfoldable pub on_message : ServerSide → (client : ℕ) → Message → Option ServerSide
unfolding relay send
on_message s client msg =
    if msg.id == server_ping
    then some (modify s client (λ c. send c msg))
    else if msg.id == message_all
    then relay s (pop_text msg)
    else some s
