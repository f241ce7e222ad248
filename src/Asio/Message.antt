-- ===== src/Asio/Message.antt =====
-- Asio/AsioNet/message.h: a message whose body is a stack of bytes. A value of a type `DataType`
-- is its bytes, `sizeof(DataType)` of them. `none` stands for a copy outside of its block.
pub mod Stack
use server_programming.Base.{
  ℕ, zero, suc, ◌-◌, ◌%◌, ◌^◌, Bool, Option, none, some, List, [], ◌∷◌, ◌++◌, leb, if◌then◌else◌,
  length, take, drop,
}

-- The header and the body.
pub record Message : Type 0 where
  pub id : ℕ
  pub size : ℕ
  pub body : List ℕ

-- `header.size = body.size()`, a `uint32_t`
abbrev pub set_body : Message → List ℕ → Message
set_body m bytes = record m { size = length bytes % 2 ^ 32; body = bytes }

unfoldable pub size_of : Message → ℕ
size_of m = m.size

-- `operator<<`
unfoldable pub push_data : Message → List ℕ → Message
push_data m bytes = set_body m (m.body ++ bytes)

-- `operator>>` into a variable of `count` bytes
unfoldable pub pop_data : Message → ℕ → Option (List ℕ × Message)
pop_data m count =
    let i = length m.body - count in
    if leb count (length m.body) then some (drop i m.body, set_body m (take i m.body)) else none

unfoldable pub encode_string : Message → List ℕ → ℕ → Option Message
encode_string m str count =
    if leb count (length str) then some (set_body m (m.body ++ take count str)) else none

-- The string keeps its length: its first `count` characters are overwritten.
unfoldable pub decode_string : Message → List ℕ → ℕ → Option (List ℕ × Message)
unfolding pop_data
decode_string m str count =
    if leb count (length str)
    then elim (pop_data m count) [
      | none ↦ none
      | some (bytes, m') ↦ some (bytes ++ drop count str, m')
    ]
    else none
