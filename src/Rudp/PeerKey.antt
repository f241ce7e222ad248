-- ===== src/Rudp/PeerKey.antt =====
-- `getPeerKey` and `stringToEp` of RUDP/Network/RUDPSocket.cpp: an address as a text and back. The
-- functions of the sockets' library are the argument `Winsock`.
use server_programming.Base.{
  ℕ, suc, ◌+◌, ◌^◌, ◌<◌, ◌≡◌, refl, ap, ap₂, ◌∙◌, Option, none, some, List, [], ◌∷◌, ◌++◌, arith,
  length, take, drop, take-append_left, ◌==◌, if◌then◌else◌,
}
use server_programming.Base.Int.{ℤ, residue}
use server_programming.Base.Decimal.{decimal, stoi, stoi-decimal, NotIn, decimal-NotIn}

pub record SockaddrIn : Type 0 where
  pub sin_family : ℕ
  pub sin_port : ℕ
  pub sin_addr : ℕ

abbrev pub af_inet : ℕ
af_inet = 2

-- Text and number of an address, and the order of the bytes of a port; what is documented of them.
pub record Winsock : Type 0 where
  pub inet_ntop : ℕ → List ℕ
  pub inet_pton : List ℕ → ℕ
  pub ntohs : ℕ → ℕ
  pub htons : ℕ → ℕ
  pub inet_pton-inet_ntop : (a : ℕ) → a < 2 ^ 32 → inet_pton (inet_ntop a) ≡ a
  pub htons-ntohs : (p : ℕ) → p < 65536 → htons (ntohs p) ≡ p
  pub ntohs_bound : (p : ℕ) → p < 65536 → ntohs p < 65536

-- The loop that looks for the last colon, from the index `i` on
unfoldable pub find_split : List ℕ → (i split : ℕ) → ℕ
find_split [] i split = split
find_split (c ∷ peer) i split = find_split peer (suc i) (if c == 58 then i else split)

module _ (net : Winsock) where
  -- `ipStr + ':' + std::to_string(port)`
  unfoldable pub get_peer_key : SockaddrIn → List ℕ
  unfolding decimal
  get_peer_key addr = net.inet_ntop addr.sin_addr ++ (58 ∷ decimal 5 (net.ntohs addr.sin_port) [])

  -- `none` for an exception of `std::stoi`
  unfoldable pub with_port : List ℕ → Option ℤ → Option SockaddrIn
  unfolding residue
  with_port ip none = none
  with_port ip (some n) = some (record {
    sin_family = af_inet;
    sin_port = net.htons (residue 65536 n);
    sin_addr = net.inet_pton ip;
  })

  unfoldable pub string_to_ep : List ℕ → Option SockaddrIn
  unfolding find_split with_port stoi
  string_to_ep peer =
      let split = find_split peer 0 0 in with_port (take split peer) (stoi (drop (suc split) peer))

find_split-NotIn : (s : List ℕ) (i split : ℕ) → NotIn 58 s → find_split s i split ≡ split
unfolding find_split
find_split-NotIn [] i split free = refl
find_split-NotIn (c ∷ s) i split (other, free) = rw other (find_split-NotIn s (suc i) split free)

-- The colon in front of a text without one is found.
find_split-append :
    (ip port : List ℕ) (i split : ℕ)
    → NotIn 58 port
    → find_split (ip ++ (58 ∷ port)) i split ≡ i + length ip
unfolding find_split
find_split-append [] port i split free = find_split-NotIn port (suc i) i free ∙ omega arith
find_split-append (c ∷ ip) port i split free =
    find_split-append ip port (suc i) (if c == 58 then i else split) free ∙ omega arith

drop-suc_append : (ip port : List ℕ) (c : ℕ) → drop (suc (length ip)) (ip ++ (c ∷ port)) ≡ port
drop-suc_append [] port c = refl
drop-suc_append (d ∷ ip) port c = drop-suc_append ip port c

-- The key of an IPv4 address, with its address and port in their ranges, is read back as that address,
-- if the functions of the sockets' library are inverse to each other.
pub string_to_ep-get_peer_key :
    (net : Winsock) (addr : SockaddrIn)
    → addr.sin_family ≡ af_inet
    → addr.sin_port < 65536
    → addr.sin_addr < 2 ^ 32
    → string_to_ep net (get_peer_key net addr) ≡ some addr
unfolding string_to_ep get_peer_key
string_to_ep-get_peer_key net addr family port ip =
    ap (λ (split : ℕ). with_port net (take split key) (stoi (drop (suc split) key)))
      (find_split-append host digits 0 0 (decimal-NotIn 5 number 58 [] (omega arith) tt)
        ∙ omega arith)
    ∙ ap₂ (λ (h p : List ℕ). with_port net h (stoi p)) (take-append_left host (58 ∷ digits))
        (drop-suc_append host digits 58)
    ∙ ap (with_port net host) (stoi-decimal number bound)
    ∙ ap some (
        let small = net.ntohs_bound addr.sin_port port in
        let port_eq = net.htons-ntohs addr.sin_port port in
        let addr_eq = net.inet_pton-inet_ntop addr.sin_addr ip in ground arith)
  where
    number : ℕ
    number = net.ntohs addr.sin_port

    bound : number < 65536
    bound = net.ntohs_bound addr.sin_port port

    host : List ℕ
    host = net.inet_ntop addr.sin_addr

    digits : List ℕ
    digits = decimal 5 number []

    key : List ℕ
    key = host ++ (58 ∷ digits)
