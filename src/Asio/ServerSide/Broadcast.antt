-- ===== src/Asio/ServerSide/Broadcast.antt =====
-- Whom a message to all clients reaches.
use server_programming.Base.{
  ℕ, ◌≡◌, refl, sym, ap, ◌∙◌, inl, inr, Bool, Bool-cases, true, false, not, ◌&&◌, ◌||◌, Option,
  none, some, List, [], ◌∷◌, arith, ◌==◌, ==_iff, if◌then◌else◌,
}
use server_programming.Asio.Message.{Message}
use server_programming.Asio.Connection.{Connection, send}
use server_programming.Asio.ServerSide.{
  ServerSide, same_client, erase_null, message_one, message_each, message_all_clients,
  on_client_disconnect,
}

-- The container holds a pointer to `i`.
unfoldable pub holds : ℕ → List (Option ℕ) → Bool
holds i [] = false
holds i (none ∷ l) = holds i l
holds i (some j ∷ l) = i == j || holds i l

-- No pointer but null stands in the container twice.
unfoldable pub is_unique : List (Option ℕ) → Bool
unfolding holds
is_unique [] = true
is_unique (none ∷ l) = is_unique l
is_unique (some j ∷ l) = not (holds j l) && is_unique l

-- The pointers to connections that are open
unfoldable pub live : (ℕ → Connection) → List (Option ℕ) → List (Option ℕ)
live heap [] = []
live heap (none ∷ l) = live heap l
live heap (some i ∷ l) = let rest = live heap l in if (heap i).is_open then some i ∷ rest else rest

send-is_open : (c : Connection) (msg : Message) → (send c msg).is_open ≡ c.is_open
unfolding send
send-is_open c msg = ground arith

live-congr :
    (f g : ℕ → Connection) (l : List (Option ℕ))
    → ((i : ℕ) → (f i).is_open ≡ (g i).is_open)
    → live f l ≡ live g l
unfolding live
live-congr f g [] same = refl
live-congr f g (none ∷ l) same = live-congr f g l same
live-congr f g (some i ∷ l) same = rw (same i, live-congr f g l same) refl

-- A connection after the message, by whether the container points to it
unfoldable pub reached : Message → Option ℕ → ℕ → (among : Bool) → Connection → Connection
unfolding send
reached msg ignore i among c =
    if among && c.is_open && not (same_client ignore i) then send c msg else c

one-heap :
    (msg : Message) (ignore : Option ℕ) (j : ℕ) (s : ServerSide) (i : ℕ)
    → (message_one msg ignore (some j) s).1.heap i ≡ reached msg ignore i (i == j) (s.heap i)
unfolding message_one on_client_disconnect reached
one-heap msg ignore j s i = elim (Bool-cases (i == j)) [
  | inl same ↦ rw ((==_iff i j).0 same) (ground arith)
  | inr other ↦ ground arith
]

one-is_open :
    (msg : Message) (ignore : Option ℕ) (p : Option ℕ) (s : ServerSide) (i : ℕ)
    → ((message_one msg ignore p s).1.heap i).is_open ≡ (s.heap i).is_open
unfolding message_one on_client_disconnect
one-is_open msg ignore none s i = refl
one-is_open msg ignore (some j) s i = ground (arith, send-is_open (s.heap i) msg)

each-heap :
    (msg : Message) (ignore : Option ℕ) (l : List (Option ℕ)) (s : ServerSide) (i : ℕ)
    → is_unique l ≡ true
    → (message_each msg ignore l s).2.heap i ≡ reached msg ignore i (holds i l) (s.heap i)
unfolding message_each is_unique holds reached on_client_disconnect
each-heap msg ignore [] s i unique = refl
each-heap msg ignore (none ∷ l) s i unique =
    each-heap msg ignore l (on_client_disconnect s none) i unique
each-heap msg ignore (some j ∷ l) s i unique =
    each-heap msg ignore l (message_one msg ignore (some j) s).1 i (ground arith)
    ∙ ap (λ (c : Connection). reached msg ignore i (holds i l) c) (one-heap msg ignore j s i)
    ∙ elim (Bool-cases (i == j)) [
      | inl same ↦
          let e : holds i l ≡ false =
            ap (λ (k : ℕ). holds k l) ((==_iff i j).0 same) ∙ ground arith in
          rw (same, e) refl
      | inr other ↦ rw other refl
    ]

one-pointer :
    (msg : Message) (ignore : Option ℕ) (j : ℕ) (s : ServerSide)
    → (message_one msg ignore (some j) s).0 ≡ (if (s.heap j).is_open then some j else none)
unfolding message_one
one-pointer msg ignore j s = ground arith

-- The pointers with one more in front, which is reset unless `b`
with_front :
    (b : Bool) (j : ℕ) (p : Option ℕ) (invalid : Bool) (l rest : List (Option ℕ))
    → p ≡ (if b then some j else none)
    → erase_null l ≡ rest
    → (invalid ≡ false → erase_null l ≡ l)
    → (erase_null (p ∷ l) ≡ (if b then some j ∷ rest else rest))
      × ((elim p [ none ↦ true | some i ↦ invalid ]) ≡ false → erase_null (p ∷ l) ≡ p ∷ l)
unfolding erase_null
with_front false j none invalid l rest e a keep = (a, λ f. ground arith)
with_front true j none invalid l rest e a keep = ground arith
with_front false j (some i) invalid l rest e a keep = ground arith
with_front true j (some i) invalid l rest e a keep = (ground arith, λ f. ap (◌∷◌ (some i)) (keep f))

each-live :
    (msg : Message) (ignore : Option ℕ) (l : List (Option ℕ)) (s : ServerSide)
    → (erase_null (message_each msg ignore l s).1 ≡ live s.heap l)
      × ((message_each msg ignore l s).0 ≡ false
          → erase_null (message_each msg ignore l s).1 ≡ (message_each msg ignore l s).1)
unfolding message_each erase_null live on_client_disconnect
each-live msg ignore [] s = (refl, λ e. refl)
each-live msg ignore (none ∷ l) s =
    ((each-live msg ignore l (on_client_disconnect s none)).0, λ e. ground arith)
each-live msg ignore (some j ∷ l) s =
    let s' : ServerSide = (message_one msg ignore (some j) s).1 in
    let (rest, keep) = each-live msg ignore l s' in
    with_front (s.heap j).is_open j (message_one msg ignore (some j) s).0
      (message_each msg ignore l s').0 (message_each msg ignore l s').1 (live s.heap l)
      (one-pointer msg ignore j s)
      (rest ∙ live-congr s'.heap s.heap l (one-is_open msg ignore (some j) s)) keep

-- `MessageAllClients` on a container in which no pointer stands twice sends the message to exactly the connections in it that are open and not the
-- ignored one, and leaves exactly the pointers to open connections in the container, in their order.
pub message_all_clients_lem :
    (s : ServerSide) (msg : Message) (ignore : Option ℕ)
    → is_unique s.connections ≡ true
    → (i : ℕ)
    → let s' = message_all_clients s msg ignore in
      (s'.connections ≡ live s.heap s.connections)
      × (s'.heap i ≡ (
          if holds i s.connections && (s.heap i).is_open && not (same_client ignore i)
          then send (s.heap i) msg
          else s.heap i))
unfolding message_all_clients reached
message_all_clients_lem s msg ignore unique i =
    let (kept, keep) = each-live msg ignore s.connections s in
    (
      elim (Bool-cases (message_each msg ignore s.connections s).0) [
        | inl invalid ↦ rw invalid kept
        | inr valid ↦ rw valid (sym (keep valid) ∙ kept)
      ],
      each-heap msg ignore s.connections s i unique,
    )
