-- ===== src/Server/SectorManager/Sets.antt =====
-- How the operations change the set of each sector.
use server_programming.Base.{ℕ, ◌≡◌, true, false, ◌&&◌, arith, ◌==◌, Bool-cases, inl, inr}
use server_programming.Base.Sets.{mem, insert, erase, mem-insert, mem-erase}
use server_programming.Base.Int.{ℤ, eqb_ℤ, eqb_ℤ→eq}
use server_programming.Server.SectorManager.{
  Sector, SectorManager, get_sector_index, insert_id, move_id, get_ids_in_sector, update,
}

-- `id` is in the set of the sector of the position.
abbrev pub Holds : SectorManager → ℕ → ℤ → ℤ → Type 0
Holds m id x y = mem id (get_ids_in_sector m (get_sector_index m x y)) ≡ true

pub insert_id-Holds : (m : SectorManager) (id : ℕ) (x y : ℤ) → Holds (insert_id m id x y) id x y
unfolding insert_id get_ids_in_sector get_sector_index
insert_id-Holds m id x y = ground (arith, mem-insert id id (m.ids (get_sector_index m x y)))

-- An insertion takes no id out of any set.
pub insert_id-keeps :
    (m : SectorManager) (id : ℕ) (x y : ℤ) (other : ℕ) (x' y' : ℤ)
    → Holds m other x' y'
    → Holds (insert_id m id x y) other x' y'
unfolding insert_id get_ids_in_sector get_sector_index
insert_id-keeps m id x y other x' y' h =
    ground (arith, mem-insert id other (m.ids (get_sector_index m x' y')))

-- A second insertion leaves the set of every other sector, and the ids other than its own.
update-insert-holds :
    (m : SectorManager) (at : Sector) (id : ℕ) → mem id ((update m at (insert id)).ids at) ≡ true
update-insert-holds m at id = ground (arith, mem-insert id id (m.ids at))

pub move_id-arrives :
    (m : SectorManager) (id : ℕ) (px py x y : ℤ)
    → (eqb_ℤ px x && eqb_ℤ py y) ≡ false
    → Holds (move_id m id px py x y) id x y
unfolding move_id get_ids_in_sector get_sector_index
move_id-arrives m id px py x y moved = rw moved (
    update-insert-holds (update m (get_sector_index m px py) (erase id)) (get_sector_index m x y)
      id)

-- The id that moves is in the sector of its new position afterwards.
pub move_id-Holds :
    (m : SectorManager) (id : ℕ) (px py x y : ℤ)
    → Holds m id px py
    → Holds (move_id m id px py x y) id x y
unfolding move_id get_ids_in_sector get_sector_index
move_id-Holds m id px py x y h = elim (Bool-cases (eqb_ℤ px x && eqb_ℤ py y)) [
  | inl same ↦ rw (same, ← eqb_ℤ→eq px x (ground arith), ← eqb_ℤ→eq py y (ground arith)) h
  | inr moved ↦ move_id-arrives m id px py x y moved
]

-- The others stay where they were.
pub move_id-keeps :
    (m : SectorManager) (id : ℕ) (px py x y : ℤ) (other : ℕ) (s : Sector)
    → (other == id) ≡ false
    → mem other (get_ids_in_sector (move_id m id px py x y) s) ≡ mem other (get_ids_in_sector m s)
unfolding move_id get_ids_in_sector
move_id-keeps m id px py x y other s h = ground (
  arith,
  mem-erase id other (m.ids s),
  mem-insert id other (m.ids s),
  mem-insert id other (erase id (m.ids s)),
)

pub get_sector_index-move_id :
    (m : SectorManager) (id : ℕ) (px py x y x' y' : ℤ)
    → get_sector_index (move_id m id px py x y) x' y' ≡ get_sector_index m x' y'
unfolding move_id get_sector_index
get_sector_index-move_id m id px py x y x' y' = ground arith
