-- ===== src/Server/SectorManager.antt =====
-- GameServer/Server/SectorManager.h and SectorManager.cpp: the grid of sets of ids. A sector is
-- named by its row and column; the vectors of the source are a function of the two, and Cover
-- shows that the positions inside the world use rows and columns of the grid only. The mutex makes
-- each operation one step.
pub mod Cover
pub mod Sets
use server_programming.Base.{
  ℕ, ◌+◌, ◌-◌, ◌*◌, ◌/◌, Bool, true, false, ◌&&◌, ◌||◌, List, [], ◌∷◌, ◌++◌, if◌then◌else◌,
}
use server_programming.Base.Sets.{insert, erase}
use server_programming.Base.Int.{
  ℤ, pos, negsuc, pos_part, neg_part, ◌+ℤ◌, ◌-ℤ◌, ◌*ℤ◌, ltb_ℤ, leb_ℤ, eqb_ℤ, quot,
}
use server_programming.Server.PlayerInfo.{world_width, world_height, range}

pub record Sector : Type 0 where
  pub row : ℤ
  pub col : ℤ

abbrev pub same_sector : Sector → Sector → Bool
same_sector a b = eqb_ℤ a.row b.row && eqb_ℤ a.col b.col

pub record SectorManager : Type 0 where
  pub width : ℕ
  pub height : ℕ
  pub ids : Sector → List ℕ

-- The constructor: every set is empty.
unfoldable pub new : ℕ → ℕ → SectorManager
new sector_width sector_height = record {
  width = sector_width;
  height = sector_height;
  ids = λ _. [];
}

unfoldable pub get_sector_index : SectorManager → ℤ → ℤ → Sector
get_sector_index m x y = record { row = quot y m.height; col = quot x m.width }

-- A write to one element of `mSectorArray`
abbrev pub update : SectorManager → Sector → (List ℕ → List ℕ) → SectorManager
update m at f = record m { ids = λ s. if same_sector s at then f (m.ids s) else m.ids s }

unfoldable pub insert_id : SectorManager → ℕ → ℤ → ℤ → SectorManager
insert_id m id x y = update m (get_sector_index m x y) (insert id)

unfoldable pub erase_id : SectorManager → ℕ → ℤ → ℤ → SectorManager
erase_id m id x y = update m (get_sector_index m x y) (erase id)

unfoldable pub move_id : SectorManager → ℕ → ℤ → ℤ → ℤ → ℤ → SectorManager
move_id m id prev_x prev_y next_x next_y =
    if eqb_ℤ prev_x next_x && eqb_ℤ prev_y next_y
    then m
    else update (update m (get_sector_index m prev_x prev_y) (erase id))
        (get_sector_index m next_x next_y) (insert id)

unfoldable pub get_ids_in_sector : SectorManager → Sector → List ℕ
get_ids_in_sector m s = m.ids s

-- `push_back` under a test
unfoldable pub push_if : Bool → List Sector → List Sector → List Sector
push_if b more found = if b then found ++ more else found

abbrev pub shift : Sector → ℤ → ℤ → Sector
shift s dr dc = record { row = s.row +ℤ dr; col = s.col +ℤ dc }

-- The four tests of `GetNearSectorIndexes`, each against one boundary of the sector.
unfoldable pub sees_above : SectorManager → ℤ → ℤ → Bool
unfolding get_sector_index
sees_above m x y =
    let sec_top = pos m.height *ℤ (get_sector_index m x y).row in
    let sight_top = y -ℤ pos range in leb_ℤ (pos 0) sight_top && ltb_ℤ sight_top sec_top

unfoldable pub sees_below : SectorManager → ℤ → ℤ → Bool
unfolding get_sector_index
sees_below m x y =
    let sec_bottom = pos m.height *ℤ (get_sector_index m x y).row +ℤ pos m.height -ℤ pos 1 in
    let sight_bottom = y +ℤ pos range in
    ltb_ℤ sight_bottom (pos world_height) && ltb_ℤ sec_bottom sight_bottom

unfoldable pub sees_left : SectorManager → ℤ → ℤ → Bool
unfolding get_sector_index
sees_left m x y =
    let sec_left = pos m.width *ℤ (get_sector_index m x y).col in
    let sight_left = x -ℤ pos range in leb_ℤ (pos 0) sight_left && ltb_ℤ sight_left sec_left

unfoldable pub sees_right : SectorManager → ℤ → ℤ → Bool
unfolding get_sector_index
sees_right m x y =
    let sec_right = pos m.width *ℤ (get_sector_index m x y).col +ℤ pos m.width -ℤ pos 1 in
    let sight_right = x +ℤ pos range in
    ltb_ℤ sight_right (pos world_width) && ltb_ℤ sec_right sight_right

-- The sectors pushed for the given results of the four tests, in the order of the source.
unfoldable pub side_sectors : Sector → Bool → Bool → Bool → Bool → List Sector
side_sectors at above left below right =
    push_if right
      ((if above then shift at (negsuc 0) (pos 1) ∷ [] else []) ++ shift at (pos 0) (pos 1) ∷ [])
      (push_if below
        ((if right then shift at (pos 1) (pos 1) ∷ [] else []) ++ shift at (pos 1) (pos 0) ∷ [])
        (push_if left
          ((if below then shift at (pos 1) (negsuc 0) ∷ [] else [])
            ++ shift at (pos 0) (negsuc 0) ∷ [])
          (push_if above
            ((if left then shift at (negsuc 0) (negsuc 0) ∷ [] else [])
              ++ shift at (negsuc 0) (pos 0) ∷ [])
            (at ∷ []))))

unfoldable pub get_near_sector_indexes : SectorManager → ℤ → ℤ → List Sector
unfolding side_sectors
get_near_sector_indexes m x y =
    side_sectors (get_sector_index m x y) (sees_above m x y) (sees_left m x y) (sees_below m x y)
      (sees_right m x y)
