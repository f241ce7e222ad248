-- ===== src/Server/Packets/Move.antt =====
-- The packets that change a player's place: the grid stays in order, and sight follows the move.
use server_programming.Base.{
  ℕ, suc, ◌%◌, ◌≡◌, refl, sym, ap, subst, ◌∙◌, inl, inr, true, false, not, ◌&&◌, Bool-cases, arith,
  ◌==◌, ==_iff, if◌then◌else◌,
}
use server_programming.Base.Sets.{mem}
use server_programming.Base.Int.{ℤ, pos}
use server_programming.Server.PlayerInfo.{IsCoordinate, world_width, world_height}
use server_programming.Server.Geometry.{is_npc, move_position, move_position-stays}
use server_programming.Server.SectorManager.{SectorManager, move_id}
use server_programming.Server.SectorManager.Cover.{IsServerGrid}
use server_programming.Server.SectorManager.Sets.{
  Holds, move_id-Holds, move_id-keeps, get_sector_index-move_id,
}
use server_programming.Server.Session.{Session}
use server_programming.Server.World.{World, modify}
use server_programming.Server.Sight.{is_visible}
use server_programming.Server.Sight.Views.{views, IsMutual}
use server_programming.Server.Sight.Gather.{is_active}
use server_programming.Server.Packets.{settle, move_client, teleport_client}
use server_programming.Server.Packets.Settle.{IsTracked, relocated, views-settle}

grid-move_id :
    (m : SectorManager) (id : ℕ) (px py x y : ℤ)
    → IsServerGrid m
    → IsServerGrid (move_id m id px py x y)
unfolding move_id
grid-move_id m id px py x y g = ground arith

-- A session changed in its position alone, as far as sight goes.
pub record IsShift (s s' : Session) : Type 0 where
  pub same_state : s'.state ≡ s.state
  pub same_view : s'.view_list ≡ s.view_list
  pub new_x : IsCoordinate s'.info.x world_width
  pub new_y : IsCoordinate s'.info.y world_height

module _ (w : World) (id : ℕ) (f : Session → Session) where
  abbrev pub moved : World
  moved = relocated (modify w id f) id (w.clients id).info

  self_eq : (id == id) ≡ true
  self_eq = ground arith

  other_active : (j : ℕ) → (j == id) ≡ false → is_active moved j ≡ true → is_active w j ≡ true
  other_active j other a = ground arith

  held_self :
      IsTracked w
      → is_active w id ≡ true
      → Holds moved.sectors id (f (w.clients id)).info.x (f (w.clients id)).info.y
  held_self t active = rw self_eq (
      move_id-Holds w.sectors id (w.clients id).info.x (w.clients id).info.y
        (f (w.clients id)).info.x (f (w.clients id)).info.y (t.held id active))

  held_other :
      (j : ℕ)
      → (j == id) ≡ false
      → Holds w.sectors j (w.clients j).info.x (w.clients j).info.y
      → Holds moved.sectors j (w.clients j).info.x (w.clients j).info.y
  held_other j other h =
      rw (get_sector_index-move_id, move_id-keeps w.sectors id _ _ _ _ j _ other) h

  -- Both the grid and the bounds survive a move of an active client inside the world.
  pub relocated-IsTracked :
      IsTracked w
      → is_active w id ≡ true
      → IsShift (w.clients id) (f (w.clients id))
      → IsTracked moved
  relocated-IsTracked t active shift = record {
    grid = grid-move_id w.sectors id _ _ _ _ t.grid;
    in_x = λ j a. elim (Bool-cases (j == id)) [
      | inl self ↦ rw self (
          subst (λ k. IsCoordinate (f (w.clients k)).info.x world_width)
            (sym ((==_iff j id).0 self)) shift.new_x)
      | inr other ↦ rw other (t.in_x j (other_active j other a))
    ];
    in_y = λ j a. elim (Bool-cases (j == id)) [
      | inl self ↦ rw self (
          subst (λ k. IsCoordinate (f (w.clients k)).info.y world_height)
            (sym ((==_iff j id).0 self)) shift.new_y)
      | inr other ↦ rw other (t.in_y j (other_active j other a))
    ];
    held = λ j a. elim (Bool-cases (j == id)) [
      | inl self ↦ rw self (
          subst (λ k. Holds moved.sectors k (f (w.clients k)).info.x (f (w.clients k)).info.y)
            (sym ((==_iff j id).0 self)) (held_self t active))
      | inr other ↦ rw other (held_other j other (t.held j (other_active j other a)))
    ];
  }

  shifted_views :
      IsShift (w.clients id) (f (w.clients id))
      → (j x : ℕ) → views (modify w id f) j x ≡ views w j x
  shifted_views shift j x = elim (Bool-cases (j == id)) [
    | inl self ↦ rw self (
        subst (λ k. mem x (f (w.clients k)).view_list ≡ mem x (w.clients k).view_list)
          (sym ((==_iff j id).0 self)) (ap (mem x) shift.same_view))
    | inr other ↦ rw other
  ]

  -- Sight after a move, for either kind of move.
  views-shift :
      IsTracked w
      → is_active w id ≡ true
      → IsMutual w id
      → IsShift (w.clients id) (f (w.clients id))
      → (j x : ℕ)
      → views (settle (modify w id f) id (w.clients id).info) j x ≡ (
          if j == id
          then is_visible (modify w id f) id x
          else if x == id && not (is_npc j)
          then is_visible (modify w id f) id j
          else views w j x)
  unfolding is_visible
  views-shift t active m shift j x =
      views-settle (modify w id f) id (w.clients id).info (relocated-IsTracked t active shift)
        (rw self_eq shift.new_x) (rw self_eq shift.new_y)
        (record {
          not_self = shifted_views shift id id ∙ m.not_self;
          both = λ k player.
              shifted_views shift k id ∙ m.both k player ∙ sym (shifted_views shift id k);
        })
        j x
      ∙ rw (shifted_views shift)

-- A step of an active client is such a change.
pub step-IsShift :
    (w : World) (id : ℕ) (direction move_time : ℤ)
    → IsTracked w
    → is_active w id ≡ true
    → IsShift (w.clients id) (
        let s = w.clients id in
        record s { info = move_position s.info direction; last_move_time = move_time })
step-IsShift w id direction move_time t active = record {
  same_state = refl;
  same_view = refl;
  new_x = inside.0;
  new_y = inside.1;
}
  where
    inside :
        IsCoordinate (move_position (w.clients id).info direction).x world_width
        × IsCoordinate (move_position (w.clients id).info direction).y world_height
    inside = move_position-stays (w.clients id).info direction (t.in_x id active) (t.in_y id active)

-- The player `id` after a step in a direction.
abbrev pub stepped : World → ℕ → ℤ → ℤ → World
stepped w id direction move_time =
    modify w id
      (λ s. record s { info = move_position s.info direction; last_move_time = move_time })

-- After a move packet of an active client, where the grid holds every active client in its sector
-- and the client's view list and the players' agree, he sees exactly the active clients near his
-- new position, a player's list names him exactly if that player is one of them, and no other entry
-- of any view list has changed.
pub views-move_client :
    (w : World) (id : ℕ) (direction move_time : ℤ)
    → IsTracked w
    → is_active w id ≡ true
    → IsMutual w id
    → (j x : ℕ)
    → let w' = stepped w id direction move_time in
      views (move_client w id direction move_time) j x ≡ (
        if j == id
        then is_visible w' id x
        else if x == id && not (is_npc j)
        then is_visible w' id j
        else views w j x)
unfolding move_client
views-move_client w id direction move_time t active m =
    views-shift w id
      (λ s. record s { info = move_position s.info direction; last_move_time = move_time }) t active
      m (step-IsShift w id direction move_time t active)

-- The player `id` at a random place.
abbrev pub thrown : World → ℕ → World
thrown w id =
    let x' = pos (w.rand w.rand_calls % world_width) in
    let y' = pos (w.rand (suc w.rand_calls) % world_height) in
    let w' =
      modify w id (λ s. let info = s.info in record s { info = record info { x = x'; y = y' } }) in
    record w' { rand_calls = suc (suc w.rand_calls) }

-- After a teleport packet, wherever the random numbers take an active client, where the grid
-- holds every active client in its sector and the client's view list and the players' agree, he sees
-- exactly the active clients near his new position, a player's list names him exactly if that player
-- is one of them, and no other entry of any view list has changed.
views-teleport_client :
    (w : World) (id : ℕ)
    → IsTracked w
    → is_active w id ≡ true
    → IsMutual w id
    → (j x : ℕ)
    → views (teleport_client w id) j x ≡ (
        if j == id
        then is_visible (thrown w id) id x
        else if x == id && not (is_npc j)
        then is_visible (thrown w id) id j
        else views w j x)
unfolding teleport_client
views-teleport_client w id t active m =
    views-shift (record w { rand_calls = suc (suc w.rand_calls) }) id
      (λ s.
        let info = s.info in
        record s {
          info = record info {
            x = pos (w.rand w.rand_calls % world_width);
            y = pos (w.rand (suc w.rand_calls) % world_height);
          };
        })
      (record { grid = t.grid; in_x = t.in_x; in_y = t.in_y; held = t.held }) active
      (record { not_self = m.not_self; both = m.both })
      (record { same_state = refl; same_view = refl; new_x = omega arith; new_y = omega arith })
