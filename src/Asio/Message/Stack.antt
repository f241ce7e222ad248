-- ===== src/Asio/Message/Stack.antt =====
-- A message gives back what was put into it, the last value first.
use server_programming.Base.{
  ℕ, ◌+◌, ◌-◌, ◌%◌, ◌^◌, ◌≤◌, ◌≡◌, refl, ap, ◌∙◌, true, Option, none, some, List, [], ◌∷◌, ◌++◌,
  arith, leb, length, take, drop, length-append, length-take, take-append_left, drop-append_left,
  map,
}
use server_programming.Asio.Message.{Message, push_data, pop_data, encode_string, decode_string}

-- The header states the size of the body.
abbrev pub IsSized : Message → Type 0
IsSized m = m.size ≡ length m.body % 2 ^ 32

-- A value put into a message whose header states its size is taken out again, and leaves the message.
pub pop_data-push_data :
    (m : Message) (bytes : List ℕ)
    → IsSized m
    → pop_data (push_data m bytes) (length bytes) ≡ some (bytes, m)
unfolding pop_data push_data
pop_data-push_data m bytes sized =
    let rest : length m.body + length bytes - length bytes ≡ length m.body = omega arith in
    let fits : leb (length bytes) (length m.body + length bytes) ≡ true = ground arith in
    rw (length-append m.body bytes, fits, rest, take-append_left, drop-append_left, ← sized) refl

pub push_data-IsSized : (m : Message) (bytes : List ℕ) → IsSized (push_data m bytes)
unfolding push_data
push_data-IsSized m bytes = refl

-- Values put into a message one after the other.
abbrev pub push_all : Message → List (List ℕ) → Message
push_all m [] = m
push_all m (d ∷ ds) = push_all (push_data m d) ds

-- A value taken out, in front of those taken before it.
abbrev before : List (List ℕ) → Option (List ℕ × Message) → Option (List (List ℕ) × Message)
before ds none = none
before ds (some (d, m)) = some (d ∷ ds, m)

abbrev pop_next : ℕ → Option (List (List ℕ) × Message) → Option (List (List ℕ) × Message)
pop_next n none = none
pop_next n (some (ds, m)) = before ds (pop_data m n)

-- Values of the given sizes taken out, the last one first.
abbrev pub pop_all : List ℕ → Message → Option (List (List ℕ) × Message)
pop_all [] m = some ([], m)
pop_all (n ∷ ns) m = pop_next n (pop_all ns m)

-- Values that are put into a message whose header states its size, and taken out in the reverse order,
-- come out unchanged, and the message is as before.
pub pop_all-push_all :
    (ds : List (List ℕ)) (m : Message)
    → IsSized m
    → pop_all (map length ds) (push_all m ds) ≡ some (ds, m)
pop_all-push_all [] m sized = refl
pop_all-push_all (d ∷ ds) m sized =
    ap (pop_next (length d)) (pop_all-push_all ds (push_data m d) (push_data-IsSized m d))
    ∙ ap (before ds) (pop_data-push_data m d sized)

-- The first `count` characters of a string that is long enough can be put into a message, and are then
-- written over those of another string; the message is as before.
pub decode_string-encode_string :
    (m : Message) (str out : List ℕ) (count : ℕ)
    → IsSized m
    → count ≤ length str
    → count ≤ length out
    → (m' : Message) × (encode_string m str count ≡ some m')
      × (decode_string m' out count ≡ some (take count str ++ drop count out, m))
unfolding encode_string decode_string push_data
decode_string-encode_string m str out count sized fits fits' =
    (push_data m (take count str), rw test refl, rw (test', back) refl)
  where
    size : count ≡ length (take count str)
    size = omega (arith, length-take count str)

    test : leb count (length str) ≡ true
    test = ground arith

    test' : leb count (length out) ≡ true
    test' = ground arith

    back : pop_data (push_data m (take count str)) count ≡ some (take count str, m)
    back =
        ap (pop_data (push_data m (take count str))) size
        ∙ pop_data-push_data m (take count str) sized
