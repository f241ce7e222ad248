-- ===== src/Client/NetClient/Segments.antt =====
-- The byte stream may reach the client in pieces of any sizes (GameServer/D2DApp/NetClient.cpp).
pub mod Pieces
pub mod Delivery
pub mod Full
use server_programming.Base.{
  ℕ, zero, suc, ◌+◌, ◌-◌, ◌≤◌, ◌<◌, ◌≡◌, refl, sym, ap, ap₂, ◌∙◌, subst, ◌⊎◌, inl, inr, Bool, true,
  false, not, ◌&&◌, Bool-cases, Option, none, some, List, [], ◌∷◌, ◌++◌, append_assoc, append-nil,
  arith, ◌==◌, length, length-append, length-take, take, drop, if◌then◌else◌,
}
use Prim.Native.Nat.{min}
use server_programming.Base.Int.{ℤ, pos, pos_part, negsuc, eqb_ℤ}
use server_programming.Network.BufferQueue.{
  BufferQueue, Memory, get_left_buf_len, copy_in, max_buffer_size,
}
use server_programming.Network.BufferQueue.Invariant.{IsValid, left_eq}
use server_programming.Network.BufferQueue.Contents.{contents, receive, receive_appends}
use server_programming.Network.BufferQueue.Split.{IsRest}
use server_programming.Network.Protocol.{
  Packet, login_ok, login_fail, put_object, move, remove_object, status_change, battle_result, chat,
}
use server_programming.Client.NetClient.{
  NetClient, handle, process_packets, Operation, recv, handle_completion_info, recv_msg,
}
use server_programming.Client.NetClient.Stream.{
  encode_all, AllPackets, handle_all, goes_on, Outcome, process_packets-encode_all,
}

-- Bytes that arrive are stored in the buffer, and their operation completes.
unfoldable pub arrive : ℕ → BufferQueue → ℕ → NetClient → List ℕ → Option (BufferQueue × NetClient)
unfolding handle_completion_info
arrive fuel q now c bytes =
    handle_completion_info fuel (record q { buffer = copy_in q.buffer q.write_index bytes }) now c
      (recv (length bytes))

-- A stream of bytes that arrives in pieces of `n + 1` bytes each, as far as the buffer had room when
-- they were asked for: what is left of the stream, the buffer and the client. A request for no bytes
-- completes with none.
unfoldable pub deliver :
    ℕ → List ℕ → List ℕ → BufferQueue → ℕ → NetClient → Option (List ℕ × BufferQueue × NetClient)
unfolding arrive
deliver fuel [] stream q now c = some (stream, q, c)
deliver fuel (n ∷ sizes) [] q now c = some ([], q, c)
deliver fuel (n ∷ sizes) (b ∷ stream) q now c =
    let k = min (suc n) (pos_part (get_left_buf_len q)) in
    elim (arrive fuel q now c (take k (b ∷ stream))) [
      | none ↦ none
      | some (q', c') ↦
          if k == 0
          then some (b ∷ stream, q', c')
          else deliver fuel sizes (drop k (b ∷ stream)) q' now c'
    ]

module _ (now fuel : ℕ) where
  -- A piece of `k` bytes
  pub deliver_piece :
      ℕ → List ℕ → List ℕ → BufferQueue → NetClient → Option (List ℕ × BufferQueue × NetClient)
  deliver_piece k sizes stream q c = elim (arrive fuel q now c (take k stream)) [
    | none ↦ none
    | some (q', c') ↦
        if k == 0 then some (stream, q', c') else deliver fuel sizes (drop k stream) q' now c'
  ]

  pub deliver_eq :
      (n b k : ℕ) (sizes stream : List ℕ) (q : BufferQueue) (c : NetClient)
      → min (suc n) (pos_part (get_left_buf_len q)) ≡ k
      → deliver fuel (n ∷ sizes) (b ∷ stream) q now c ≡ deliver_piece k sizes (b ∷ stream) q c
  unfolding deliver deliver_piece
  deliver_eq n b k sizes stream q c e = ap (λ (m : ℕ). deliver_piece m sizes (b ∷ stream) q c) e

pub take-append-drop : (n : ℕ) (l : List ℕ) → take n l ++ drop n l ≡ l
take-append-drop zero l = refl
take-append-drop (suc n) [] = refl
take-append-drop (suc n) (x ∷ l) = ap (◌∷◌ x) (take-append-drop n l)

-- The handlers do not read how often data was asked for.
abbrev pub asked : NetClient → ℕ → NetClient
asked c n = record c { receiving = n }

handle-asked :
    (c : NetClient) (n now : ℕ) (p : Packet)
    → handle (asked c n) now p ≡ ((handle c now p).0, asked (handle c now p).1 n)
unfolding handle
handle-asked c n now (login_ok id x y level hp max_hp exp) = refl
handle-asked c n now (login_fail reason) = refl
handle-asked c n now (put_object id x y object_type name) = refl
handle-asked c n now (move id x y move_time) = refl
handle-asked c n now (remove_object id) = refl
handle-asked c n now (status_change level hp max_hp exp) = refl
handle-asked c n now (battle_result result_type target value) =
    elim (Bool-cases (eqb_ℤ result_type (negsuc 0))) [
      | inl effect ↦ rw effect refl
      | inr log ↦ rw log refl
    ]
handle-asked c n now (chat id message) = refl

pub handle_all-asked :
    (packets : List Packet) (c : NetClient) (n now : ℕ)
    → (handle_all (asked c n) now packets ≡ asked (handle_all c now packets) n)
      × (goes_on (asked c n) now packets ≡ goes_on c now packets)
unfolding handle_all goes_on
handle_all-asked [] c n now = (refl, refl)
handle_all-asked (p ∷ packets) c n now =
    let rest = handle_all-asked packets (handle c now p).1 n now in
    elim (Bool-cases (handle c now p).0) [
      | inl more ↦ rw (handle-asked c n now p, more) rest
      | inr last ↦ rw (handle-asked c n now p, last) (refl, refl)
    ]

-- Packets after packets that do not end the loop
pub handle_all-append :
    (first second : List Packet) (c : NetClient) (now : ℕ)
    → goes_on c now (first ++ second) ≡ true
    → (handle_all c now (first ++ second) ≡ handle_all (handle_all c now first) now second)
      × (goes_on c now first ≡ true)
      × (goes_on (handle_all c now first) now second ≡ true)
unfolding handle_all goes_on
handle_all-append [] second c now h = (refl, refl, h)
handle_all-append (p ∷ first) second c now h = elim (Bool-cases (handle c now p).0) [
  | inl more ↦ rw more (handle_all-append first second (handle c now p).1 now (rw more at h))
  | inr last ↦ absurd (ground arith)
]

pub AllPackets-append :
    (first second : List Packet)
    → AllPackets (first ++ second)
    → AllPackets first × AllPackets second
unfolding AllPackets
AllPackets-append [] second h = (tt, h)
AllPackets-append (p ∷ first) second h =
    let (a, b) = AllPackets-append first second h.1 in ((h.0, a), b)
