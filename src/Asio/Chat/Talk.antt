-- ===== src/Asio/Chat/Talk.antt =====
-- From a text that one client says to the lines that the others show.
use server_programming.Base.{
  ℕ, ◌+◌, ◌-◌, ◌*◌, ◌<◌, ◌≡◌, refl, ap, ◌∙◌, true, false, ◌&&◌, Option, none, some, List, [], ◌∷◌,
  ◌++◌, arith, leb, length, length-append, take-append_left, drop-append_left, if◌then◌else◌,
}
use server_programming.Asio.Message.{Message, push_data, set_body, pop_data, decode_string}
use server_programming.Asio.Message.Stack.{push_data-IsSized}
use server_programming.Asio.Connection.{Connection, resize}
use server_programming.Asio.Connection
use server_programming.Asio.ServerSide.{ServerSide, message_all_clients}
use server_programming.Asio.ServerSide.Broadcast.{holds, live, is_unique, message_all_clients_lem}
use server_programming.Asio.Chat.{
  message_all, server_message, fresh, get_uint16, decode_sized, pop_text,
}
use server_programming.Asio.Chat.Texts.{with_text, push_text_lem, pop_text-with_text, length-resize}
use server_programming.Asio.Chat.Server.{
  push_name, announcement, broadcast, relay_text, relay, on_message,
}
use server_programming.Asio.Chat.Client.{
  CustomClient, append_msg, push_user_name, saying, line, show_text, show_message, on_incoming,
}

-- A message that holds a text, and a name on top of it
abbrev pub two_texts : ℕ → List ℕ → List ℕ → Message
two_texts id name text = with_text (with_text (fresh id) text) name

module _ (name text : List ℕ) where
  saying_lem : saying name text ≡ some (two_texts message_all name text)
  unfolding saying push_user_name
  saying_lem =
      ap (push_user_name name) (push_text_lem (fresh message_all) text)
      ∙ push_text_lem (with_text (fresh message_all) text) name

  announcement_lem : announcement name text ≡ some (two_texts server_message name text)
  unfolding announcement push_name
  announcement_lem =
      ap (push_name name) (push_text_lem (fresh server_message) text)
      ∙ push_text_lem (with_text (fresh server_message) text) name

  module _ (short_name : length name < 65536) (short_text : length text < 65536) (id : ℕ) where
    pop_name : pop_text (two_texts id name text) ≡ some (name, with_text (fresh id) text)
    pop_name =
        pop_text-with_text (with_text (fresh id) text) name (push_data-IsSized _ _) short_name

    pop_words : pop_text (with_text (fresh id) text) ≡ some (text, fresh id)
    unfolding fresh
    pop_words = pop_text-with_text (fresh id) text (omega arith) short_text

  on_message_lem :
      length name < 65536
      → length text < 65536
      → (s : ServerSide) (i : ℕ)
      → on_message s i (two_texts message_all name text)
        ≡ some (message_all_clients s (two_texts server_message name text) none)
  unfolding on_message push_data fresh relay relay_text broadcast
  on_message_lem n t s i =
      ap (relay s) (pop_name n t message_all)
      ∙ ap (relay_text s name) (pop_words n t message_all)
      ∙ ap (broadcast s) announcement_lem

  on_incoming_lem :
      length name < 65536
      → length text < 65536
      → (c : CustomClient) (typed : List ℕ)
      → on_incoming c typed (two_texts server_message name text)
        ≡ some (append_msg c (line name text))
  unfolding on_incoming push_data fresh show_message show_text
  on_incoming_lem n t c typed =
      ap (show_message c) (pop_name n t server_message)
      ∙ ap (show_text c name) (pop_words n t server_message)

-- A name and a text of less than 65536 bytes, said by one client, make a message that the server, in
-- whose container no pointer stands twice, handles by one message to exactly the connections in the
-- container that are open, where it keeps exactly the pointers to those; and a client that handles that
-- message appends the line with the name and the text.
pub said_is_shown :
    (name text : List ℕ)
    → length name < 65536
    → length text < 65536
    → (s : ServerSide) (i : ℕ) (c : CustomClient) (typed : List ℕ) → is_unique s.connections ≡ true
    → (m : Message) × (shown : Message) × (s' : ServerSide) × (saying name text ≡ some m)
      × (on_message s i m ≡ some s')
      × (s'.connections ≡ live s.heap s.connections)
      × ((j : ℕ)
          → s'.heap j ≡ (
              if holds j s.connections && (s.heap j).is_open
              then Connection.send (s.heap j) shown
              else s.heap j))
      × (on_incoming c typed shown ≡ some (append_msg c (line name text)))
said_is_shown name text n t s i c typed unique =
    let shown = two_texts server_message name text in
    (
      two_texts message_all name text,
      shown,
      message_all_clients s shown none,
      saying_lem name text,
      on_message_lem name text n t s i,
      (message_all_clients_lem s shown none unique i).0,
      λ j. (message_all_clients_lem s shown none unique j).1 ∙ ground arith,
      on_incoming_lem name text n t c typed,
    )

pop_length :
    (m : Message) (body : List ℕ) (lo hi : ℕ)
    → m.body ≡ body ++ (lo ∷ hi ∷ [])
    → pop_data m 2 ≡ some (lo ∷ hi ∷ [], set_body m body)
unfolding pop_data
pop_length m body lo hi e =
    let rest : length body + 2 - 2 ≡ length body = omega arith in
    let fits : leb 2 (length body + 2) ≡ true = ground arith in
    rw (e, length-append body (lo ∷ hi ∷ []), fits, rest, take-append_left, drop-append_left) refl

decode_too_long : (m : Message) (n : ℕ) → length m.body < n → decode_string m (resize n []) n ≡ none
unfolding decode_string pop_data
decode_too_long m n long =
    let itself : leb n n ≡ true = ground arith in
    let not_there : leb n (length m.body) ≡ false = ground arith in
    rw (length-resize, itself, not_there) refl

relays :
    (s : ServerSide) (i : ℕ) (m : Message)
    → m.id ≡ message_all
    → on_message s i m ≡ relay s (pop_text m)
unfolding on_message
relays s i m e = ground arith

-- A message for everyone whose last two bytes state a longer name than the bytes before them makes
-- the server copy from outside of the message.
pub lying_length_faults :
    (s : ServerSide) (i : ℕ) (m : Message) (body : List ℕ) (lo hi : ℕ)
    → m.id ≡ message_all
    → m.body ≡ body ++ (lo ∷ hi ∷ [])
    → length body < lo + 256 * hi
    → on_message s i m ≡ none
unfolding relay pop_text get_uint16
lying_length_faults s i m body lo hi id_eq e long =
    relays s i m id_eq
    ∙ ap (λ (r : Option (List ℕ × Message)). relay s (decode_sized r)) (pop_length m body lo hi e)
    ∙ ap (relay s) (decode_too_long (set_body m body) (lo + 256 * hi) long)
