-- ===== src/Asio/Chat/Texts.antt =====
-- A text comes out of a message as it was put in, if its length fits in two bytes.
use server_programming.Base.{
  ℕ, zero, suc, ◌<◌, ◌≡◌, refl, ap, ◌∙◌, true, some, List, [], ◌∷◌, arith, leb, length, take, drop,
  append-nil,
}
use server_programming.Asio.Message.{Message, push_data, encode_string, decode_string}
use server_programming.Asio.Message.Stack.{IsSized, pop_data-push_data, push_data-IsSized}
use server_programming.Asio.Connection.{resize}
use server_programming.Asio.Chat.{
  put_uint16, get_uint16, push_length, push_text, decode_sized, pop_text,
}

take_all : (xs : List ℕ) → take (length xs) xs ≡ xs
take_all [] = refl
take_all (x ∷ xs) = ap (◌∷◌ x) (take_all xs)

drop-resize : (n : ℕ) → drop n (resize n []) ≡ []
unfolding resize
drop-resize zero = refl
drop-resize (suc n) = drop-resize n

pub length-resize : (n : ℕ) → length (resize n []) ≡ n
unfolding resize
length-resize zero = refl
length-resize (suc n) = ap suc (length-resize n)

pub get_uint16-put_uint16 : (n : ℕ) → n < 65536 → get_uint16 (put_uint16 n) ≡ n
unfolding get_uint16 put_uint16
get_uint16-put_uint16 n h = omega arith

-- The message with a text on top
abbrev pub with_text : Message → List ℕ → Message
with_text m s = push_data (push_data m s) (put_uint16 (length s))

pub encode_all : (m : Message) (s : List ℕ) → encode_string m s (length s) ≡ some (push_data m s)
unfolding encode_string push_data
encode_all m s =
    let fits : leb (length s) (length s) ≡ true = ground arith in rw (fits, take_all) refl

pub push_text_lem : (m : Message) (s : List ℕ) → push_text m s (length s) ≡ some (with_text m s)
unfolding push_text
push_text_lem m s = ap (push_length (length s)) (encode_all m s)

decoded :
    (m : Message) (s : List ℕ)
    → IsSized m
    → decode_string (push_data m s) (resize (length s) []) (length s) ≡ some (s, m)
unfolding decode_string
decoded m s sized =
    let fits : leb (length s) (length s) ≡ true = ground arith in
    rw (length-resize, fits, pop_data-push_data m s sized, drop-resize, append-nil) refl

pub pop_text-with_text :
    (m : Message) (s : List ℕ)
    → IsSized m
    → length s < 65536
    → pop_text (with_text m s) ≡ some (s, m)
unfolding pop_text put_uint16
pop_text-with_text m s sized short =
    ap decode_sized
      (pop_data-push_data (push_data m s) (put_uint16 (length s)) (push_data-IsSized m s))
    ∙ ap (λ (n : ℕ). decode_string (push_data m s) (resize n []) n)
        (get_uint16-put_uint16 (length s) short)
    ∙ decoded m s sized
