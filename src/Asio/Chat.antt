-- ===== src/Asio/Chat.antt =====
-- What Asio/AsioServer/server_main.cpp and Asio/AsioClient/client_main.cpp share: the types of their
-- messages, and texts in a message, each with its length behind it. `none` stands for a copy outside of
-- its block.
pub mod Texts
pub mod Server
pub mod Client
pub mod Talk
pub mod Lines
pub mod Keys
use server_programming.Base.{
  ℕ, ◌+◌, ◌*◌, ◌/◌, ◌%◌, Option, none, some, List, [], ◌∷◌, length, get_or,
}
use server_programming.Asio.Message.{Message, push_data, pop_data, encode_string, decode_string}
use server_programming.Asio.Connection.{resize}

-- `CustomMsgTypes`
abbrev pub server_accept : ℕ
server_accept = 0

abbrev pub server_deny : ℕ
server_deny = 1

abbrev pub server_ping : ℕ
server_ping = 2

abbrev pub message_all : ℕ
message_all = 3

abbrev pub server_message : ℕ
server_message = 4

-- `net::message<CustomMsgTypes> msg; msg.header.id = id;`
unfoldable pub fresh : ℕ → Message
fresh id = record { id = id; size = 0; body = [] }

-- `(uint16_t)n` as its bytes, and a `uint16_t` from its bytes
unfoldable pub put_uint16 : ℕ → List ℕ
put_uint16 n = n % 256 ∷ n % 65536 / 256 ∷ []

unfoldable pub get_uint16 : List ℕ → ℕ
get_uint16 bytes = get_or bytes 0 0 + 256 * get_or bytes 1 0

-- `msg.encodeString(str, count); msg << (uint16_t)count;`
unfoldable pub push_length : ℕ → Option Message → Option Message
unfolding put_uint16
push_length count none = none
push_length count (some m) = some (push_data m (put_uint16 count))

unfoldable pub push_text : Message → List ℕ → ℕ → Option Message
unfolding push_length
push_text m str count = push_length count (encode_string m str count)

-- `uint16_t len; msg >> len; string s; s.resize(len); msg.decodeString(s, len);`
unfoldable pub decode_sized : Option (List ℕ × Message) → Option (List ℕ × Message)
unfolding get_uint16 resize
decode_sized none = none
decode_sized (some (bytes, m)) = decode_string m (resize (get_uint16 bytes) []) (get_uint16 bytes)

unfoldable pub pop_text : Message → Option (List ℕ × Message)
unfolding decode_sized
pop_text m = decode_sized (pop_data m 2)
