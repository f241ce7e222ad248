-- ===== src/Client/NetClient/Cut.antt =====
-- Any beginning of a stream of packets (GameServer/D2DApp/NetClient.cpp).
use server_programming.Base.{
  ℕ, ◌≤◌, ◌<◌, ◌≡◌, refl, sym, ap, ◌∙◌, inl, inr, List, [], ◌∷◌, ◌++◌, append_assoc, arith, length,
  length-append,
}
use native.Mathlib.Decide.{dec_lt}
use server_programming.Network.BufferQueue.Split.{IsBlock, IsRest}
use server_programming.Network.Protocol.{Packet, encode}
use server_programming.Network.Protocol.Blocks.{encode-IsBlock}
use server_programming.Client.NetClient.Stream.{encode_all}

-- A list that begins two lists in one is the beginning of the longer one.
record Split (c a b d : List ℕ) : Type 0 where
  middle : List ℕ
  longer : a ≡ c ++ middle
  behind : middle ++ b ≡ d

split : (c a b d : List ℕ) → a ++ b ≡ c ++ d → length c ≤ length a → Split c a b d
split [] a b d e le = record { middle = a; longer = refl; behind = e }
split (x ∷ c) [] b d e le = absurd (omega arith)
split (x ∷ c) (y ∷ a) b d e le =
    let s = split c a b d (ground arith) (omega arith) in
    record { middle = s.middle; longer = ground (arith, s.longer); behind = s.behind }

-- Any beginning of the bytes of packets is whole packets and then a part of the next one.
pub record Cut (packets : List Packet) (seen ahead : List ℕ) : Type 0 where
  pub done : List Packet
  pub todo : List Packet
  pub rest : List ℕ
  pub all : packets ≡ done ++ todo
  pub seen_eq : seen ≡ encode_all done ++ rest
  pub ahead_eq : rest ++ ahead ≡ encode_all todo
  pub is_rest : IsRest rest

short-IsRest :
    (p : Packet) (packets : List Packet) (seen ahead : List ℕ)
    → seen ++ ahead ≡ encode p ++ encode_all packets
    → length seen < length (encode p)
    → IsRest seen
short-IsRest p packets [] ahead e short = inl refl
short-IsRest p packets (b ∷ seen) ahead e short = inr (first (encode p) (encode-IsBlock p) e short)
  where
    first :
        (bytes : List ℕ)
        → IsBlock bytes
        → (b ∷ seen) ++ ahead ≡ bytes ++ encode_all packets
        → length (b ∷ seen) < length bytes
        → (length (b ∷ seen) < b) × (b < 128)
    first [] k e short = absurd (omega arith)
    first (x ∷ bytes) k e short =
        let same : b ≡ x = ground arith in
        let size : x ≡ length (x ∷ bytes) = k.size in
        let small : length (x ∷ bytes) < 128 = k.small in
        (omega (arith, same, size, short), omega (arith, same, size, small))

pub cut :
    (packets : List Packet) (seen ahead : List ℕ)
    → seen ++ ahead ≡ encode_all packets
    → Cut packets seen ahead
unfolding encode_all
cut [] [] ahead e = record {
  done = [];
  todo = [];
  rest = [];
  all = refl;
  seen_eq = refl;
  ahead_eq = e;
  is_rest = inl refl;
}
cut [] (b ∷ seen) ahead e = ground arith
cut (p ∷ packets) seen ahead e = elim (dec_lt (length seen) (length (encode p))) [
  | yes short ↦ record {
    done = [];
    todo = p ∷ packets;
    rest = seen;
    all = refl;
    seen_eq = refl;
    ahead_eq = e;
    is_rest = short-IsRest p packets seen ahead e short;
  }
  | no long ↦
      let s = split (encode p) seen ahead (encode_all packets) e (omega arith) in
      let k = cut packets s.middle ahead s.behind in
      record {
        done = p ∷ k.done;
        todo = k.todo;
        rest = k.rest;
        all = ap (◌∷◌ p) k.all;
        seen_eq =
            s.longer
            ∙ ap (◌++◌ (encode p)) k.seen_eq
            ∙ sym (append_assoc (encode p) (encode_all k.done) k.rest);
        ahead_eq = k.ahead_eq;
        is_rest = k.is_rest;
      }
]

-- Bytes that are not yet a packet are no packets.
pub nothing_todo :
    (todo : List Packet) (rest : List ℕ) → rest ≡ encode_all todo → IsRest rest → todo ≡ []
unfolding encode_all
nothing_todo [] rest e part = refl
nothing_todo (p ∷ todo) rest e part = absurd (refuse (encode p) (encode-IsBlock p) e part)
  where
    refuse : (bytes : List ℕ) → IsBlock bytes → rest ≡ bytes ++ encode_all todo → IsRest rest → ⊥
    refuse [] k e part = ground (arith, k.some_bytes)
    refuse (x ∷ bytes) k e part =
        let size : x ≡ length (x ∷ bytes) = k.size in
        let total = ap length e ∙ length-append (x ∷ bytes) (encode_all todo) in
        ground (arith, size, total)
