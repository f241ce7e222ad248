-- ===== src/System/Keys.antt =====
-- From a key in the client's window to the move on the server (GameServer/D2DApp/NetClient.cpp,
-- GameServer/Server/IOCPServer.cpp).
use server_programming.Base.{
  ℕ, ◌≡◌, refl, sym, ap, subst, ◌∙◌, some, List, [], ◌∷◌, arith, if◌then◌else◌, ◌-◌,
}
use mathlib.Core.Path.{fun_ext}
use server_programming.Base.Int.{ℤ, pos, ◌+ℤ◌, ◌-ℤ◌, ltb_ℤ}
use server_programming.Network.BufferQueue.{Memory}
use server_programming.Network.Bytes.{Stores, IsChar}
use server_programming.Network.Protocol.{cs_move, encode_command}
use server_programming.Server.PlayerInfo.{PlayerInfo, world_width, world_height}
use server_programming.Server.Geometry.{move_position}
use server_programming.Server.World.{World, modify}
use server_programming.Server.Packets.{settle, move_client, handle_packet}
use server_programming.Server.Packets.Stream.{perform, handle_packet-encode_command}
use server_programming.Client.NetClient.{NetClient, on_process_key_input, key_direction}

-- The arrow keys, with their codes in Windows
pub data Arrow : Type 0 where
  left up right down : Arrow

abbrev pub code : Arrow → ℤ
code left = pos 0x25
code up = pos 0x26
code right = pos 0x27
code down = pos 0x28

-- One tile in the direction of the arrow, unless the border of the world is there.
abbrev pub toward : Arrow → PlayerInfo → PlayerInfo
toward left p = record p { x = if ltb_ℤ (pos 0) p.x then p.x -ℤ pos 1 else p.x }
toward up p = record p { y = if ltb_ℤ (pos 0) p.y then p.y -ℤ pos 1 else p.y }
toward right p = record p { x = if ltb_ℤ p.x (pos (world_width - 1)) then p.x +ℤ pos 1 else p.x }
toward down p = record p { y = if ltb_ℤ p.y (pos (world_height - 1)) then p.y +ℤ pos 1 else p.y }

arrow_sends :
    (c : NetClient) (k : Arrow)
    → (on_process_key_input c (code k)).sent
      ≡ encode_command (cs_move (key_direction (code k)) (pos 0)) ∷ c.sent
unfolding on_process_key_input key_direction
arrow_sends c left = refl
arrow_sends c up = refl
arrow_sends c right = refl
arrow_sends c down = refl

direction_toward :
    (k : Arrow) (p : PlayerInfo) → move_position p (key_direction (code k)) ≡ toward k p
unfolding move_position key_direction
direction_toward left p = ground arith
direction_toward up p = ground arith
direction_toward right p = ground arith
direction_toward down p = ground arith

direction-IsChar : (k : Arrow) → IsChar (key_direction (code k))
unfolding key_direction
direction-IsChar left = (omega arith, omega arith)
direction-IsChar up = (omega arith, omega arith)
direction-IsChar right = (omega arith, omega arith)
direction-IsChar down = (omega arith, omega arith)

-- The packet that the client sent last
abbrev pub newest : NetClient → List ℕ
newest c = elim c.sent [ [] ↦ [] | bytes ∷ sent ↦ bytes ]

-- An arrow key makes the client send one packet. The server that handles it moves the player one tile
-- in the direction of the arrow, if the border of the world is not there, and settles him at his new
-- place.
pub arrow_moves_player :
    (c : NetClient) (k : Arrow) (w : World) (id : ℕ) (m : Memory)
    → Stores m 0 (newest (on_process_key_input c (code k)))
    → ((on_process_key_input c (code k)).sent ≡ newest (on_process_key_input c (code k)) ∷ c.sent)
      × (handle_packet w id m
          ≡ some (
              settle
                (modify w id (λ s. record s { info = toward k s.info; last_move_time = pos 0 }))
                id
                (w.clients id).info))
unfolding perform move_client
arrow_moves_player c k w id m stored =
    let d = key_direction (code k) in
    let bytes_eq =
      ap (λ (sent : List (List ℕ)). elim sent as (λ _. List ℕ) [ [] ↦ [] | bytes ∷ l ↦ bytes ])
        (arrow_sends c k) in
    (
      arrow_sends c k ∙ ap (λ (bytes : List ℕ). bytes ∷ c.sent) (sym bytes_eq),
      handle_packet-encode_command w id (cs_move d (pos 0)) m
            (direction-IsChar k, (omega arith, omega arith)) (subst (Stores m 0) bytes_eq stored)
          ∙ ap
              (λ (f : PlayerInfo → PlayerInfo). some (
                settle (modify w id (λ s. record s { info = f s.info; last_move_time = pos 0 })) id
                  (w.clients id).info))
              (fun_ext (direction_toward k)),
    )
