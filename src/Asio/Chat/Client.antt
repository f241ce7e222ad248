-- ===== src/Asio/Chat/Client.antt =====
-- Asio/AsioClient/client_main.cpp: `CustomClient`, the body of its input thread, and the loop of
-- `main`. A key is what `_getch` returns, a name what was typed for it. The screen shows the input line and the
-- lines of `print_que`; drawing it is left out. `pings` holds the times that pings brought back, the
-- newest first.
use server_programming.Base.{
  ℕ, Bool, true, false, not, ◌&&◌, Option, none, some, List, [], ◌∷◌, ◌++◌, length, drop, ltb, ◌==◌,
  if◌then◌else◌,
}
use server_programming.Asio.Message.{Message, push_data, pop_data}
use server_programming.Asio.Connection.{OwnedMessage}
use server_programming.Asio.ClientSide.{
  ClientSide, none_yet, incoming, set_incoming, is_connected, send,
}
use server_programming.Asio.Chat.{
  server_accept, server_ping, message_all, server_message, fresh, push_text, pop_text,
}

pub record CustomClient : Type 0 where
  pub net : ClientSide
  pub loop : Bool
  pub dirty_flag : Bool
  pub input_data : List ℕ
  pub print_que : List (List ℕ)
  pub user_name : List ℕ
  pub has_threads : Bool
  pub pings : List (List ℕ)

unfoldable pub new : CustomClient
unfolding none_yet
new = record {
  net = none_yet;
  loop = true;
  dirty_flag = true;
  input_data = [];
  print_que = [];
  user_name = [];
  has_threads = false;
  pings = [];
}

-- The queue holds ten lines at most.
unfoldable pub append_msg : CustomClient → List ℕ → CustomClient
append_msg c s =
    let lines = c.print_que ++ (s ∷ []) in
    record c {
      dirty_flag = true;
      print_que = if ltb 10 (length lines) then drop 1 lines else lines;
    }

-- `time_now` holds the bytes of the time.
unfoldable pub ping_server : CustomClient → (time_now : List ℕ) → CustomClient
unfolding send push_data fresh
ping_server c time_now = record c { net = send c.net (push_data (fresh server_ping) time_now) }

-- The message of `MessageAll`: the text, and the user's name on top of it
unfoldable pub push_user_name : List ℕ → Option Message → Option Message
unfolding push_text
push_user_name name none = none
push_user_name name (some m) = push_text m name (length name)

unfoldable pub saying : List ℕ → List ℕ → Option Message
unfolding push_user_name fresh
saying name s = push_user_name name (push_text (fresh message_all) s (length s))

unfoldable pub send_all : CustomClient → Option Message → CustomClient
unfolding send
send_all c none = c
send_all c (some msg) = record c { net = send c.net msg }

unfoldable pub say : CustomClient → List ℕ → CustomClient
unfolding saying send_all
say c s = send_all c (saying c.user_name s)

-- The text "exit"
abbrev pub exit_text : List ℕ
exit_text = 101 ∷ 120 ∷ 105 ∷ 116 ∷ []

unfoldable pub same_text : List ℕ → List ℕ → Bool
same_text [] [] = true
same_text [] (d ∷ t) = false
same_text (c ∷ s) [] = false
same_text (c ∷ s) (d ∷ t) = c == d && same_text s t

-- `inputData.erase(inputData.end() - 1)`
unfoldable pub erase_last : List ℕ → List ℕ
erase_last [] = []
erase_last (c ∷ []) = []
erase_last (c ∷ d ∷ s) = c ∷ erase_last (d ∷ s)

unfoldable pub is_blank : List ℕ → Bool
is_blank [] = true
is_blank (c ∷ s) = false

-- Enter
unfoldable pub enter : CustomClient → CustomClient
unfolding same_text say
enter c =
    let c' = record c { loop = c.loop && not (same_text c.input_data exit_text) } in
    record (say c' c.input_data) { input_data = []; dirty_flag = true }

-- One round of the input thread, for a key while the window is in the foreground
unfoldable pub on_key : CustomClient → ℕ → CustomClient
unfolding enter erase_last is_blank
on_key c key =
    if key == 13
    then enter c
    else if key == 8 && not (is_blank c.input_data)
    then record c { input_data = erase_last c.input_data; dirty_flag = true }
    else if not (key == 27)
    then record c { input_data = c.input_data ++ (key ∷ []); dirty_flag = true }
    else record c { dirty_flag = true }

-- "[" + userName + "]  :  " + message
abbrev pub line : List ℕ → List ℕ → List ℕ
line name text = 91 ∷ (name ++ (93 ∷ 32 ∷ 32 ∷ 58 ∷ 32 ∷ 32 ∷ text))

-- The case `ServerMessage`, with the name and with the text. `none` where a text is longer than the
-- message.
unfoldable pub show_text : CustomClient → List ℕ → Option (List ℕ × Message) → Option CustomClient
unfolding append_msg
show_text c name none = none
show_text c name (some (text, m)) = some (append_msg c (line name text))

unfoldable pub show_message : CustomClient → Option (List ℕ × Message) → Option CustomClient
unfolding show_text pop_text
show_message c none = none
show_message c (some (name, m)) = show_text c name (pop_text m)

-- The case `ServerPing`
unfoldable pub note_ping : CustomClient → Option (List ℕ × Message) → Option CustomClient
note_ping c none = none
note_ping c (some (time_then, m)) = some (record c { pings = time_then ∷ c.pings })

-- `SetUserName` and `AssignThreads`. A second assignment to a running thread ends the process.
unfoldable pub start_chat : CustomClient → (name : List ℕ) → Option CustomClient
start_chat c name =
    if c.has_threads then none else some (record c { user_name = name; has_threads = true })

-- The `switch` of `main`
unfoldable pub on_incoming : CustomClient → (name : List ℕ) → Message → Option CustomClient
unfolding show_message note_ping start_chat pop_text pop_data
on_incoming c name msg =
    if msg.id == server_accept
    then start_chat c name
    else if msg.id == server_ping
    then note_ping c (pop_data msg 8)
    else if msg.id == server_message
    then show_message c (pop_text msg)
    else some c

-- One round of the loop of `main`
unfoldable pub take_message :
    CustomClient → (name : List ℕ) → List OwnedMessage → Option CustomClient
unfolding on_incoming set_incoming
take_message c name [] = some c
take_message c name (m ∷ messages) =
    on_incoming (record c { net = set_incoming c.net messages }) name m.msg

unfoldable pub round : CustomClient → (name : List ℕ) → Option CustomClient
unfolding take_message incoming is_connected
round c name =
    if is_connected c.net
    then take_message c name (incoming c.net)
    else some (record c { loop = false })
