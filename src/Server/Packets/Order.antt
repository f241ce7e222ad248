-- ===== src/Server/Packets/Order.antt =====
-- A move of a player leaves the grid in order: every active client is in the sector of its position.
use server_programming.Base.{
  ℕ, ◌≡◌, refl, sym, ◌∙◌, inl, inr, true, Bool-cases, List, [], ◌∷◌, arith, ◌==◌, ==_iff, subst,
}
use server_programming.Base.Int.{ℤ}
use server_programming.Server.PlayerInfo.{PlayerInfo}
use server_programming.Server.Geometry.{move_position}
use server_programming.Server.Session.{is_state}
use server_programming.Server.World.{
  World, for_each, send_move_packet, send_put_object_packet, send_remove_packet,
}
use server_programming.Server.Sight.{
  meet, part, gather, near_sectors, handle_players_in_sight, handle_disappeared_players,
}
use server_programming.Server.Sight.Gather.{is_active, Still, gather-Still}
use server_programming.Server.Packets.{settle, move_client}
use server_programming.Server.Packets.Settle.{IsTracked, relocated}
use server_programming.Server.Packets.Move.{relocated-IsTracked, step-IsShift}

-- Positions, states and sectors are as before.
record Unmoved (w w' : World) : Type 0 where
  same_info : (j : ℕ) → (w'.clients j).info ≡ (w.clients j).info
  same_state : (j : ℕ) → (w'.clients j).state ≡ (w.clients j).state
  same_sectors : w'.sectors ≡ w.sectors

Unmoved-refl : (w : World) → Unmoved w w
Unmoved-refl w = record { same_info = λ j. refl; same_state = λ j. refl; same_sectors = refl }

Unmoved-trans : {u v w : World} → Unmoved u v → Unmoved v w → Unmoved u w
Unmoved-trans a b = record {
  same_info = λ j. b.same_info j ∙ a.same_info j;
  same_state = λ j. b.same_state j ∙ a.same_state j;
  same_sectors = b.same_sectors ∙ a.same_sectors;
}

-- The view lists are all that these loops change in a client.
meet-Unmoved : (viewlist : List ℕ) (me pid : ℕ) (w : World) → Unmoved w (meet viewlist me pid w)
unfolding meet send_move_packet send_put_object_packet
meet-Unmoved viewlist me pid w = record {
  same_info = λ j. ground arith;
  same_state = λ j. ground arith;
  same_sectors = ground arith;
}

part-Unmoved : (sights : List ℕ) (me pid : ℕ) (w : World) → Unmoved w (part sights me pid w)
unfolding part send_remove_packet
part-Unmoved sights me pid w = record {
  same_info = λ j. ground arith;
  same_state = λ j. ground arith;
  same_sectors = ground arith;
}

for_each-Unmoved :
    (ids : List ℕ) (body : ℕ → World → World)
    → ((pid : ℕ) (w : World) → Unmoved w (body pid w))
    → (w : World) → Unmoved w (for_each ids body w)
unfolding for_each
for_each-Unmoved [] body h w = Unmoved-refl w
for_each-Unmoved (id ∷ ids) body h w =
    Unmoved-trans (h id w) (for_each-Unmoved ids body h (body id w))

IsTracked-Unmoved : {w w' : World} → Unmoved w w' → IsTracked w → IsTracked w'
unfolding is_state
IsTracked-Unmoved {w} {w'} u t = record {
  grid = rw u.same_sectors t.grid;
  in_x = λ j a. rw u.same_info (t.in_x j (rw u.same_state at a));
  in_y = λ j a. rw u.same_info (t.in_y j (rw u.same_state at a));
  held = λ j a. rw (u.same_info, u.same_sectors) (t.held j (rw u.same_state at a));
}

-- The loops over the sectors move nobody, and wake or hit clients that are active already.
IsTracked-Still :
    {me : ℕ} {w w' : World} → Still me w w' → is_active w me ≡ true → IsTracked w → IsTracked w'
IsTracked-Still {me} {w} {w'} s active t = record {
  grid = rw s.same_sectors t.grid;
  in_x = λ j a. rw s.same_x (t.in_x j (before j a));
  in_y = λ j a. rw s.same_y (t.in_y j (before j a));
  held = λ j a. rw (s.same_x, s.same_y, s.same_sectors) (t.held j (before j a));
}
  where
    before : (j : ℕ) → is_active w' j ≡ true → is_active w j ≡ true
    before j a = elim (Bool-cases (j == me)) [
      | inl self ↦ subst (λ k. is_active w k ≡ true) (sym ((==_iff j me).0 self)) active
      | inr other ↦ sym (s.same_active j other) ∙ a
    ]

settle-IsTracked :
    (w : World) (id : ℕ) (prev : PlayerInfo)
    → IsTracked (relocated w id prev)
    → is_active w id ≡ true
    → IsTracked (settle w id prev)
unfolding settle handle_players_in_sight handle_disappeared_players send_move_packet
settle-IsTracked w id prev t active =
    IsTracked-Unmoved
      (Unmoved-trans
        (for_each-Unmoved found.0 (meet (w₃.clients id).view_list id)
          (meet-Unmoved (w₃.clients id).view_list id) w₃)
        (for_each-Unmoved (w₃.clients id).view_list (part found.0 id) (part-Unmoved found.0 id) _))
      (IsTracked-Unmoved
        (record { same_info = λ j. refl; same_state = λ j. refl; same_sectors = refl })
        (IsTracked-Still (gather-Still id (near_sectors w₁ id) ([], w₁)) active t))
  where
    w₁ : World
    w₁ = relocated w id prev

    found : List ℕ × World
    found = gather id (near_sectors w₁ id) ([], w₁)

    w₃ : World
    w₃ = send_move_packet found.1 id id

-- A move packet of an active client keeps the server's grid, every active client inside the world, and
-- each in the sector of its position.
pub move_client-IsTracked :
    (w : World) (id : ℕ) (direction move_time : ℤ)
    → IsTracked w
    → is_active w id ≡ true
    → IsTracked (move_client w id direction move_time)
unfolding move_client is_state
move_client-IsTracked w id direction move_time t active =
    settle-IsTracked _ id (w.clients id).info
      (relocated-IsTracked w id
        (λ s. record s { info = move_position s.info direction; last_move_time = move_time }) t
        active (step-IsShift w id direction move_time t active))
      (ground arith)
