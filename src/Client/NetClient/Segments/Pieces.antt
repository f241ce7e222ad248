-- ===== src/Client/NetClient/Segments/Pieces.antt =====
-- One piece of the byte stream at the client.
use server_programming.Base.{
  ℕ, suc, ◌+◌, ◌≤◌, ◌<◌, ◌≡◌, sym, ap, ◌∙◌, subst, true, Option, none, some, List, ◌∷◌, ◌++◌,
  append_assoc, arith, length, length-append,
}
use server_programming.Network.BufferQueue.{BufferQueue, max_buffer_size}
use server_programming.Network.BufferQueue.Invariant.{IsValid}
use server_programming.Network.BufferQueue.Contents.{contents, receive, receive_appends}
use server_programming.Network.BufferQueue.Split.{IsRest}
use server_programming.Network.Protocol.{Packet}
use server_programming.Client.NetClient.{NetClient, handle_completion_info, recv_msg}
use server_programming.Client.NetClient.Stream.{
  encode_all, AllPackets, handle_all, goes_on, Outcome, outcome_lem,
}
use server_programming.Client.NetClient.Cut.{Cut, cut}
use server_programming.Client.NetClient.Segments.{
  arrive, asked, handle_all-asked, handle_all-append, AllPackets-append,
}

-- How far the client has got: the packets that he has handled, and those whose bytes he has not all
-- seen.
pub record Progress (packets : List Packet) (c₀ : NetClient) (now : ℕ) (stream : List ℕ)
    (q : BufferQueue) (c : NetClient) : Type 0 where
  pub done : List Packet
  pub todo : List Packet
  pub count : ℕ
  pub all : packets ≡ done ++ todo
  pub client : c ≡ asked (handle_all c₀ now done) count
  pub valid : IsValid q
  pub bytes : contents valid ++ stream ≡ encode_all todo
  pub is_rest : IsRest (contents valid)

module _ (packets : List Packet) (c₀ : NetClient) (now fuel : ℕ)
    (goes : goes_on c₀ now packets ≡ true) (fits : AllPackets packets)
    (enough : length packets < fuel) where
  module _ (q : BufferQueue) (c : NetClient) (b : ℕ) (bytes ahead : List ℕ)
      (g : Progress packets c₀ now ((b ∷ bytes) ++ ahead) q c)
      (room : g.valid.read + g.valid.filled + length (b ∷ bytes) ≤ max_buffer_size) where
    received :
        (v' : IsValid (receive q (b ∷ bytes))) × (contents v' ≡ contents g.valid ++ (b ∷ bytes))
    received = receive_appends g.valid (b ∷ bytes) room

    now_seen : Cut g.todo (contents received.0) ahead
    now_seen = cut g.todo (contents received.0) ahead (
        ap (λ (l : List ℕ). l ++ ahead) received.1
        ∙ append_assoc (contents g.valid) (b ∷ bytes) ahead
        ∙ g.bytes)

    cut_all : packets ≡ (g.done ++ now_seen.done) ++ now_seen.todo
    cut_all =
        g.all
        ∙ ap (◌++◌ g.done) now_seen.all
        ∙ sym (append_assoc g.done now_seen.done now_seen.todo)

    run_all :
        (handle_all c₀ now (g.done ++ now_seen.done)
          ≡ handle_all (handle_all c₀ now g.done) now now_seen.done)
        × (goes_on c₀ now g.done ≡ true)
        × (goes_on (handle_all c₀ now g.done) now now_seen.done ≡ true)
    run_all =
        handle_all-append g.done now_seen.done c₀ now
          (handle_all-append (g.done ++ now_seen.done) now_seen.todo c₀ now
            (subst (λ l. goes_on c₀ now l ≡ true) cut_all goes)).1

    fit_now : AllPackets now_seen.done
    fit_now =
        (AllPackets-append g.done now_seen.done
          (AllPackets-append (g.done ++ now_seen.done) now_seen.todo
            (subst AllPackets cut_all fits)).0).1

    few : length now_seen.done < fuel
    few =
        let total : length packets ≡ length g.done + length now_seen.done + length now_seen.todo =
          ap length cut_all
          ∙ length-append (g.done ++ now_seen.done) now_seen.todo
          ∙ ap (λ (n : ℕ). n + length now_seen.todo) (length-append g.done now_seen.done) in
        omega (arith, enough, total)

    outcome : Outcome fuel (receive q (b ∷ bytes)) now c now_seen.done now_seen.rest
    outcome =
        outcome_lem now_seen.done now_seen.rest fuel received.0 now c now_seen.seen_eq fit_now
          now_seen.is_rest few

    arrived :
        arrive fuel q now c (b ∷ bytes)
        ≡ some (outcome.left, recv_msg (handle_all c now now_seen.done))
    unfolding arrive handle_completion_info receive
    arrived =
        ap
          (λ (r : Option (BufferQueue × NetClient)).
            elim r as (λ _. Option (BufferQueue × NetClient)) [
              | none ↦ none
              | some (q', c') ↦ some (q', recv_msg c')
            ])
          outcome.done

    as_one :
        handle_all c now now_seen.done ≡ asked (handle_all c₀ now (g.done ++ now_seen.done)) g.count
    as_one =
        ap (λ (d : NetClient). handle_all d now now_seen.done) g.client
        ∙ (handle_all-asked now_seen.done (handle_all c₀ now g.done) g.count now).0
        ∙ ap (λ (d : NetClient). asked d g.count) (sym run_all.0)

    continues : goes_on c now now_seen.done ≡ true
    continues =
        ap (λ (d : NetClient). goes_on d now now_seen.done) g.client
        ∙ (handle_all-asked now_seen.done (handle_all c₀ now g.done) g.count now).1
        ∙ run_all.2

    next : Progress packets c₀ now ahead outcome.left (recv_msg (handle_all c now now_seen.done))
    unfolding recv_msg
    next =
        let (v, left) = outcome.kept continues in
        record {
          done = g.done ++ now_seen.done;
          todo = now_seen.todo;
          count = suc g.count;
          all = cut_all;
          client = ap (λ (d : NetClient). recv_msg d) as_one;
          valid = v;
          bytes = ap (λ (l : List ℕ). l ++ ahead) left ∙ now_seen.ahead_eq;
          is_rest = subst IsRest (sym left) now_seen.is_rest;
        }

    -- A piece that fits is handled as far as its packets are whole.
    pub one_piece :
        (r : BufferQueue × NetClient) × (arrive fuel q now c (b ∷ bytes) ≡ some r)
        × Progress packets c₀ now ahead r.0 r.1
    one_piece = ((outcome.left, recv_msg (handle_all c now now_seen.done)), arrived, next)
