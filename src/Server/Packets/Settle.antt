-- ===== src/Server/Packets/Settle.antt =====
-- A player at a new place: with the sectors in order, the loops over nearby sectors find everyone in
-- sight, and the view lists follow.
use server_programming.Base.{
  ℕ, ◌≡◌, sym, ap, ◌∙◌, inl, inr, true, false, not, ◌&&◌, Bool-cases, List, [], ◌∷◌, arith, ◌==◌,
  if◌then◌else◌,
}
use server_programming.Base.Sets.{mem}
use server_programming.Base.Int.{eqb_ℤ→eq}
use server_programming.Server.PlayerInfo.{PlayerInfo, IsCoordinate, world_width, world_height}
use server_programming.Server.Geometry.{is_npc, is_near, is_near_symm}
use server_programming.Server.SectorManager.{
  Sector, SectorManager, same_sector, move_id, get_sector_index, get_ids_in_sector,
}
use server_programming.Server.SectorManager.Cover.{listed, IsServerGrid, near_sectors_cover}
use server_programming.Server.SectorManager.Sets.{Holds}
use server_programming.Server.World.{World, send_move_packet}
use server_programming.Server.World.Frame.{clients-move}
use server_programming.Server.Sight.{is_visible, gather, near_sectors}
use server_programming.Server.Sight.Views.{views, IsMutual, views_follow_sight}
use server_programming.Server.Sight.Gather.{is_active, Still, in_sectors, gather-Still, mem-gather}
use server_programming.Server.Packets.{settle}

-- The server's grid holds every active client in the sector of its position, and active clients
-- stand inside the world.
pub record IsTracked (w : World) : Type 0 where
  pub grid : IsServerGrid w.sectors
  pub in_x : (j : ℕ) → is_active w j ≡ true → IsCoordinate (w.clients j).info.x world_width
  pub in_y : (j : ℕ) → is_active w j ≡ true → IsCoordinate (w.clients j).info.y world_height
  pub held :
      (j : ℕ) → is_active w j ≡ true → Holds w.sectors j (w.clients j).info.x (w.clients j).info.y

same_sector-eq : (s t : Sector) → same_sector s t ≡ true → s ≡ t
same_sector-eq s t h = ground (arith, eqb_ℤ→eq s.row t.row, eqb_ℤ→eq s.col t.col)

-- An id of a listed sector is found.
listed-in_sectors :
    (m : SectorManager) (s : Sector) (ss : List Sector) (x : ℕ)
    → listed s ss ≡ true
    → mem x (get_ids_in_sector m s) ≡ true
    → in_sectors m ss x ≡ true
unfolding listed in_sectors
listed-in_sectors m s [] x l h = cc
listed-in_sectors m s (t ∷ ts) x l h = elim (Bool-cases (same_sector s t)) [
  | inl same ↦ rw (← same_sector-eq s t same, h)
  | inr other ↦ ground (arith, listed-in_sectors m s ts x)
]

visible-parts :
    (w : World) (me x : ℕ)
    → is_visible w me x ≡ true
    → (is_active w x ≡ true)
      × ((x == me) ≡ false)
      × (is_near (w.clients x).info (w.clients me).info ≡ true)
unfolding is_visible
visible-parts w me x h = ground arith

-- Everyone visible is in one of the sectors that are looked at.
visible-in_sectors :
    (w : World) (me x : ℕ)
    → IsTracked w
    → IsCoordinate (w.clients me).info.x world_width
    → IsCoordinate (w.clients me).info.y world_height
    → is_visible w me x ≡ true
    → in_sectors w.sectors (near_sectors w me) x ≡ true
unfolding near_sectors
visible-in_sectors w me x t cx cy seen =
    let (active, other, near) = visible-parts w me x seen in
    listed-in_sectors w.sectors
      (get_sector_index w.sectors (w.clients x).info.x (w.clients x).info.y) _ x
      (near_sectors_cover w.sectors t.grid (w.clients me).info (w.clients x).info cx cy
        (t.in_x x active) (t.in_y x active)
        (is_near_symm (w.clients me).info (w.clients x).info ∙ near))
      (t.held x active)

-- The world of `settle` once the sector manager has followed the move.
abbrev pub relocated : World → ℕ → PlayerInfo → World
relocated w id prev =
    let next = (w.clients id).info in
    record w { sectors = move_id w.sectors id prev.x prev.y next.x next.y }

-- The ids gathered are exactly those in sight.
mem-gathered :
    (w : World) (me x : ℕ)
    → IsTracked w
    → IsCoordinate (w.clients me).info.x world_width
    → IsCoordinate (w.clients me).info.y world_height
    → mem x (gather me (near_sectors w me) ([], w)).0 ≡ is_visible w me x
unfolding mem
mem-gathered w me x t cx cy = elim (Bool-cases (is_visible w me x)) [
  | inl seen ↦
      mem-gather me (near_sectors w me) ([], w) x
      ∙ rw (seen, visible-in_sectors w me x t cx cy seen)
  | inr hidden ↦ mem-gather me (near_sectors w me) ([], w) x ∙ rw hidden (ground arith)
]

invisible_self : (w : World) (me : ℕ) → is_visible w me me ≡ false
unfolding is_visible
invisible_self w me = ground arith

-- What `settle` makes of the view lists: one sees exactly those in sight from the new place, each
-- other player sees one exactly if he is in sight, and no other entry changes.
pub views-settle :
    (w : World) (id : ℕ) (prev : PlayerInfo)
    → IsTracked (relocated w id prev)
    → IsCoordinate (w.clients id).info.x world_width
    → IsCoordinate (w.clients id).info.y world_height
    → IsMutual w id
    → (j x : ℕ)
    → views (settle w id prev) j x ≡ (
        if j == id
        then is_visible (relocated w id prev) id x
        else if x == id && not (is_npc j)
        then is_visible (relocated w id prev) id j
        else views w j x)
unfolding settle
views-settle w id prev t cx cy m j x =
    views_follow_sight w₃ found.0 id (exact id ∙ invisible_self w₁ id)
      (record {
        not_self = same id id ∙ m.not_self;
        both = λ k player. same k id ∙ m.both k player ∙ sym (same id k);
      })
      j x
    ∙ rw (exact, exact, same)
  where
    w₁ : World
    w₁ = relocated w id prev

    found : List ℕ × World
    found = gather id (near_sectors w₁ id) ([], w₁)

    still : Still id w₁ found.1
    still = gather-Still id (near_sectors w₁ id) ([], w₁)

    w₃ : World
    w₃ = send_move_packet found.1 id id

    exact : (k : ℕ) → mem k found.0 ≡ is_visible w₁ id k
    exact k = mem-gathered w₁ id k t cx cy

    same : (k y : ℕ) → views w₃ k y ≡ views w k y
    same k y = rw clients-move (ap (mem y) (still.same_views k))
