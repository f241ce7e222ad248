-- ===== src/Server/Sight/Gather.antt =====
-- What the loops over the sectors collect, and what they leave alone.
use server_programming.Base.{
  ℕ, ◌≡◌, refl, ap, ap₂, ◌∙◌, inl, inr, Bool, true, false, ◌&&◌, ◌||◌, Bool-cases, List, [], ◌∷◌,
  arith, ◌==◌,
}
use server_programming.Base.Sets.{mem, mem-insert}
use server_programming.Server.Geometry.{is_npc, is_near-congr}
use server_programming.Server.SectorManager.{Sector, SectorManager, get_ids_in_sector}
use server_programming.Server.Session.{Session, ingame, sleep, is_state, set_attack_duration}
use server_programming.Server.World.{
  World, execute_lua_func, send_battle_result_packet, send_status_change_packet,
}
use server_programming.Server.Npc.{activate_npc, strike, npc_attack, handle_npc_attack}
use server_programming.Server.Sight.{is_visible, meet_npc, gather_one, gather_ids, gather}

-- In the game, or an NPC asleep.
abbrev pub is_active : World → ℕ → Bool
is_active w id = is_state (w.clients id) ingame || is_state (w.clients id) sleep

-- The world has changed in nothing that the sight of `me` depends on: positions, view lists, sectors,
-- and who of the others is active.
pub record Still (me : ℕ) (w w' : World) : Type 0 where
  pub same_x : (j : ℕ) → (w'.clients j).info.x ≡ (w.clients j).info.x
  pub same_y : (j : ℕ) → (w'.clients j).info.y ≡ (w.clients j).info.y
  pub same_views : (j : ℕ) → (w'.clients j).view_list ≡ (w.clients j).view_list
  pub same_active : (j : ℕ) → (j == me) ≡ false → is_active w' j ≡ is_active w j
  pub same_sectors : w'.sectors ≡ w.sectors

pub Still-refl : (me : ℕ) (w : World) → Still me w w
Still-refl me w = record {
  same_x = λ j. refl;
  same_y = λ j. refl;
  same_views = λ j. refl;
  same_active = λ j ne. refl;
  same_sectors = refl;
}

pub Still-trans : {me : ℕ} {u v w : World} → Still me u v → Still me v w → Still me u w
Still-trans a b = record {
  same_x = λ j. b.same_x j ∙ a.same_x j;
  same_y = λ j. b.same_y j ∙ a.same_y j;
  same_views = λ j. b.same_views j ∙ a.same_views j;
  same_active = λ j ne. b.same_active j ne ∙ a.same_active j ne;
  same_sectors = b.same_sectors ∙ a.same_sectors;
}

-- Nor has it where the clients and the sectors are the same.
Still-of : (me : ℕ) (w w' : World) → w'.clients ≡ w.clients → w'.sectors ≡ w.sectors → Still me w w'
Still-of me w w' e f = record {
  same_x = λ j. ap (λ (c : ℕ → Session). (c j).info.x) e;
  same_y = λ j. ap (λ (c : ℕ → Session). (c j).info.y) e;
  same_views = λ j. ap (λ (c : ℕ → Session). (c j).view_list) e;
  same_active = λ j ne. ap (λ (c : ℕ → Session). is_state (c j) ingame || is_state (c j) sleep) e;
  same_sectors = f;
}

pub activate_npc-Still : (me npc player : ℕ) (w : World) → Still me w (activate_npc w npc player)
unfolding activate_npc is_state
activate_npc-Still me npc player w = record {
  same_x = λ j. ground arith;
  same_y = λ j. ground arith;
  same_views = λ j. ground arith;
  same_active = λ j ne. ground arith;
  same_sectors = ground arith;
}

pub npc_attack-Still : (me npc : ℕ) (w : World) → Still me w (npc_attack w npc me)
unfolding npc_attack execute_lua_func set_attack_duration strike send_battle_result_packet
    send_status_change_packet is_state
npc_attack-Still me npc w = record {
  same_x = λ j. ground arith;
  same_y = λ j. ground arith;
  same_views = λ j. ground arith;
  same_active = λ j ne. ground arith;
  same_sectors = ground arith;
}

pub handle_npc_attack-Still : (me npc : ℕ) (w : World) → Still me w (handle_npc_attack w npc me)
unfolding handle_npc_attack
handle_npc_attack-Still me npc w = ground (arith, npc_attack-Still me npc w, Still-refl me w)

meet_npc-Still : (me other : ℕ) (w : World) → Still me w (meet_npc me other w)
unfolding meet_npc
meet_npc-Still me other w = elim (Bool-cases (is_npc other)) [
  | inl npc ↦ rw npc (
      Still-trans (activate_npc-Still me other me w)
        (handle_npc_attack-Still me other (activate_npc w other me)))
  | inr player ↦ rw player (Still-refl me w)
]

-- So nobody comes into sight or leaves it.
is_visible-Still :
    {me : ℕ} (w w' : World) → Still me w w' → (x : ℕ) → is_visible w' me x ≡ is_visible w me x
unfolding is_visible
is_visible-Still {me} w w' s x = elim (Bool-cases (x == me)) [
  | inl self ↦ rw self (ground arith)
  | inr ne ↦ rw ne (
      ap₂ (λ (a b : Bool). a && true && b) (s.same_active x ne)
        (is_near-congr _ (w'.clients x).info _ (w'.clients me).info (s.same_x x) (s.same_y x)
          (s.same_x me) (s.same_y me)))
]

-- What one id, the ids of a sector and a list of sectors add to the ids collected.
gather_one-Still :
    (me other : ℕ) (acc : List ℕ × World) → Still me acc.1 (gather_one me other acc).1
unfolding gather_one
gather_one-Still me other (l, w) = elim (Bool-cases (is_visible w me other)) [
  | inl yes' ↦ rw yes' (meet_npc-Still me other w)
  | inr no' ↦ rw no' (Still-refl me w)
]

mem-gather_one :
    (me other : ℕ) (acc : List ℕ × World) (x : ℕ)
    → mem x (gather_one me other acc).0 ≡ (x == other && is_visible acc.1 me other || mem x acc.0)
unfolding gather_one
mem-gather_one me other (l, w) x = ground (arith, mem-insert other x l)

gather_ids-Still :
    (me : ℕ) (ids : List ℕ) (acc : List ℕ × World) → Still me acc.1 (gather_ids me ids acc).1
unfolding gather_ids
gather_ids-Still me [] acc = Still-refl me acc.1
gather_ids-Still me (o ∷ ids) acc =
    Still-trans (gather_one-Still me o acc) (gather_ids-Still me ids (gather_one me o acc))

mem-gather_ids :
    (me : ℕ) (ids : List ℕ) (acc : List ℕ × World) (x : ℕ)
    → mem x (gather_ids me ids acc).0 ≡ (mem x ids && is_visible acc.1 me x || mem x acc.0)
unfolding gather_ids mem
mem-gather_ids me [] acc x = refl
mem-gather_ids me (o ∷ ids) acc x = ground (
  arith,
  mem-gather_ids me ids (gather_one me o acc) x,
  mem-gather_one me o acc x,
  is_visible-Still acc.1 (gather_one me o acc).1 (gather_one-Still me o acc) x,
)

-- `x` is in one of the sectors.
unfoldable pub in_sectors : SectorManager → List Sector → ℕ → Bool
unfolding get_ids_in_sector
in_sectors m [] x = false
in_sectors m (s ∷ ss) x = mem x (get_ids_in_sector m s) || in_sectors m ss x

pub gather-Still :
    (me : ℕ) (ss : List Sector) (acc : List ℕ × World) → Still me acc.1 (gather me ss acc).1
unfolding gather
gather-Still me [] acc = Still-refl me acc.1
gather-Still me (s ∷ ss) acc = Still-trans (gather_ids-Still me _ acc) (gather-Still me ss _)

-- The loops over the sectors collect, with the ids that were collected before, exactly the ids of
-- those sectors that were visible at the start, although NPCs are woken and attack on the way.
pub mem-gather :
    (me : ℕ) (ss : List Sector) (acc : List ℕ × World) (x : ℕ)
    → mem x (gather me ss acc).0
      ≡ (in_sectors acc.1.sectors ss x && is_visible acc.1 me x || mem x acc.0)
unfolding gather in_sectors
mem-gather me [] acc x = refl
mem-gather me (s ∷ ss) acc x =
    let ids = get_ids_in_sector acc.1.sectors s in
    let still = gather_ids-Still me ids acc in
    ground (
      arith,
      mem-gather me ss (gather_ids me ids acc) x,
      mem-gather_ids me ids acc x,
      still.same_sectors,
      is_visible-Still acc.1 (gather_ids me ids acc).1 still x,
    )
