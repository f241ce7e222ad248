-- ===== src/Server/SectorManager/Cover.antt =====
-- `GetNearSectorIndexes` covers everything in sight, and names sectors of the grid only.
use server_programming.Base.{
  ℕ, suc, ◌+◌, ◌-◌, ◌*◌, ◌/◌, ◌≤◌, ◌<◌, ◌≡◌, refl, ◌⊎◌, inl, inr, Bool, true, false, ◌&&◌, ◌||◌,
  List, [], ◌∷◌, ◌++◌, arith, if◌then◌else◌, ltb, leb,
}
use server_programming.Base.Int.{ℤ, pos, negsuc, pos_part, ◌+ℤ◌, ◌-ℤ◌, ◌*ℤ◌, quot}
use server_programming.Server.PlayerInfo.{
  PlayerInfo, IsCoordinate, world_width, world_height, sector_width, sector_height, range,
}
use server_programming.Server.Geometry.{is_near, is_near-within}
use server_programming.Server.SectorManager.{
  Sector, SectorManager, same_sector, get_sector_index, get_near_sector_indexes, side_sectors,
  sees_above, sees_below, sees_left, sees_right, push_if, shift,
}

-- The sector is one of the list.
unfoldable pub listed : Sector → List Sector → Bool
listed s [] = false
listed s (t ∷ ts) = same_sector s t || listed s ts

-- The grid that the server makes.
abbrev pub IsServerGrid : SectorManager → Type 0
IsServerGrid m = (m.width ≡ sector_width) × (m.height ≡ sector_height)

module _ (m : SectorManager) (grid : IsServerGrid m) (x y : ℤ) (cx : IsCoordinate x world_width)
    (cy : IsCoordinate y world_height) where
  row_eq : (get_sector_index m x y).row ≡ pos (pos_part y / 20)
  unfolding get_sector_index quot
  row_eq = ground arith

  col_eq : (get_sector_index m x y).col ≡ pos (pos_part x / 20)
  unfolding get_sector_index quot
  col_eq = ground arith

  above_eq :
      sees_above m x y ≡ (leb 10 (pos_part y) && ltb (pos_part y - 10) (20 * (pos_part y / 20)))
  unfolding sees_above ◌-ℤ◌ ◌*ℤ◌
  above_eq = rw (row_eq, grid.1) (ground arith)

  below_eq :
      sees_below m x y
      ≡ (ltb (pos_part y + 10) 2000 && ltb (20 * (pos_part y / 20) + 19) (pos_part y + 10))
  unfolding sees_below ◌+ℤ◌ ◌-ℤ◌ ◌*ℤ◌
  below_eq = rw (row_eq, grid.1) (ground arith)

  left_eq :
      sees_left m x y ≡ (leb 10 (pos_part x) && ltb (pos_part x - 10) (20 * (pos_part x / 20)))
  unfolding sees_left ◌-ℤ◌ ◌*ℤ◌
  left_eq = rw (col_eq, grid.0) (ground arith)

  right_eq :
      sees_right m x y
      ≡ (ltb (pos_part x + 10) 2000 && ltb (20 * (pos_part x / 20) + 19) (pos_part x + 10))
  unfolding sees_right ◌+ℤ◌ ◌-ℤ◌ ◌*ℤ◌
  right_eq = rw (col_eq, grid.0) (ground arith)

abbrev square : ℕ → ℕ → Sector
square r c = record { row = pos r; col = pos c }

-- A row or column next to one's own is looked at on that side.
data Beside (at to : ℕ) (before behind : Bool) : Type 0 where
  same : to ≡ at → Beside at to before behind
  left : suc to ≡ at → before ≡ true → Beside at to before behind
  right : to ≡ suc at → behind ≡ true → Beside at to before behind

-- One coordinate of the argument: the sector of a position within the range is the same, or the next
-- one on a side on which the test of the source succeeds.
beside :
    (u v : ℕ)
    → u < 2000
    → v < 2000
    → u ≤ v + 10
    → v ≤ u + 10
    → Beside
        (u / 20)
        (v / 20)
        (leb 10 u && ltb (u - 10) (20 * (u / 20)))
        (ltb (u + 10) 2000 && ltb (20 * (u / 20) + 19) (u + 10))
beside u v lu lv h k = elim (order (u / 20) (v / 20)) [
  | inl e ↦ same e
  | inr (inl lt) ↦ left (omega arith) (ground arith)
  | inr (inr gt) ↦ right (omega arith) (ground arith)
]
  where
    order : (m n : ℕ) → (n ≡ m) ⊎ (n < m) ⊎ (m < n)
    order m n = grind arith

module _ (s : Sector) where
  listed-append : (xs ys : List Sector) → listed s (xs ++ ys) ≡ (listed s xs || listed s ys)
  unfolding listed
  listed-append [] ys = refl
  listed-append (x ∷ xs) ys = ground (arith, listed-append xs ys)

  old :
      (b : Bool) (more found : List Sector)
      → listed s found ≡ true
      → listed s (push_if b more found) ≡ true
  unfolding push_if
  old true more found h = rw (listed-append found more, h)
  old false more found h = h

  fresh :
      {b : Bool} (more found : List Sector)
      → b ≡ true
      → listed s more ≡ true
      → listed s (push_if b more found) ≡ true
  unfolding push_if
  fresh more found e h = rw (e, listed-append found more, h) (ground arith)

  corner :
      {x : Bool} (s₁ s₂ : Sector)
      → x ≡ true
      → same_sector s s₁ ≡ true
      → listed s ((if x then s₁ ∷ [] else []) ++ s₂ ∷ []) ≡ true
  unfolding listed
  corner s₁ s₂ e h = rw (e, h)

  edge :
      (x : Bool) (s₁ s₂ : Sector)
      → same_sector s s₂ ≡ true
      → listed s ((if x then s₁ ∷ [] else []) ++ s₂ ∷ []) ≡ true
  unfolding listed
  edge true s₁ s₂ h = ground arith
  edge false s₁ s₂ h = ground arith

module _ (r c r' c' : ℕ) (a l b d : Bool) where
  abbrev at : Sector
  at = square r c

  abbrev to : Sector
  to = square r' c'

  -- The vertical and the horizontal neighbour together name one of the pushed sectors.
  side_listed :
      Beside r r' a b → Beside c c' l d → listed (square r' c') (side_sectors at a l b d) ≡ true
  unfolding listed side_sectors ◌+ℤ◌
  side_listed (same e) (same e') =
      old to d _ _ (old to b _ _ (old to l _ _ (old to a _ _ (ground arith))))
  side_listed (same e) (left e' h') = old to d _ _ (
      old to b _ _ (
        fresh to _ _ h'
          (edge to b (shift at (pos 1) (negsuc 0)) (shift at (pos 0) (negsuc 0)) (ground arith))))
  side_listed (same e) (right e' h') =
      fresh to _ _ h'
        (edge to a (shift at (negsuc 0) (pos 1)) (shift at (pos 0) (pos 1)) (ground arith))
  side_listed (left e h) (same e') = old to d _ _ (
      old to b _ _ (
        old to l _ _ (
          fresh to _ _ h (
            edge to l (shift at (negsuc 0) (negsuc 0)) (shift at (negsuc 0) (pos 0))
              (ground arith)))))
  side_listed (left e h) (left e' h') = old to d _ _ (
      old to b _ _ (
        old to l _ _ (
          fresh to _ _ h (
            corner to (shift at (negsuc 0) (negsuc 0)) (shift at (negsuc 0) (pos 0)) h'
              (ground arith)))))
  side_listed (left e h) (right e' h') =
      fresh to _ _ h'
        (corner to (shift at (negsuc 0) (pos 1)) (shift at (pos 0) (pos 1)) h (ground arith))
  side_listed (right e h) (same e') = old to d _ _ (
      fresh to _ _ h
        (edge to d (shift at (pos 1) (pos 1)) (shift at (pos 1) (pos 0)) (ground arith)))
  side_listed (right e h) (left e' h') = old to d _ _ (
      old to b _ _ (
        fresh to _ _ h'
          (corner to (shift at (pos 1) (negsuc 0)) (shift at (pos 0) (negsuc 0)) h (ground arith))))
  side_listed (right e h) (right e' h') = old to d _ _ (
      fresh to _ _ h
        (corner to (shift at (pos 1) (pos 1)) (shift at (pos 1) (pos 0)) h' (ground arith)))

module _ (m : SectorManager) (grid : IsServerGrid m) where
  index_eq :
      (x y : ℤ)
      → IsCoordinate x world_width
      → IsCoordinate y world_height
      → get_sector_index m x y ≡ square (pos_part y / 20) (pos_part x / 20)
  unfolding get_sector_index quot
  index_eq x y cx cy = ground arith

  -- Of two positions inside the world, of which `IsNear` accepts one from the other, the list of the
  -- one has the sector of the other.
  pub near_sectors_cover :
      (p q : PlayerInfo)
      → IsCoordinate p.x world_width
      → IsCoordinate p.y world_height
      → IsCoordinate q.x world_width
      → IsCoordinate q.y world_height
      → is_near p q ≡ true
      → listed (get_sector_index m q.x q.y) (get_near_sector_indexes m p.x p.y) ≡ true
  unfolding get_near_sector_indexes
  near_sectors_cover p q px py qx qy near =
      rw
        (
          index_eq q.x q.y qx qy,
          index_eq p.x p.y px py,
          above_eq m grid p.x p.y px py,
          below_eq m grid p.x p.y px py,
          left_eq m grid p.x p.y px py,
          right_eq m grid p.x p.y px py,
        )
        (side_listed _ _ _ _ _ _ _ _ rows cols)
    where
      within :
          (pos_part p.x ≤ pos_part q.x + range)
          × (pos_part q.x ≤ pos_part p.x + range)
          × (pos_part p.y ≤ pos_part q.y + range)
          × (pos_part q.y ≤ pos_part p.y + range)
      within = is_near-within p q near px py qx qy

      rows :
          Beside
            (pos_part p.y / 20)
            (pos_part q.y / 20)
            (leb 10 (pos_part p.y) && ltb (pos_part p.y - 10) (20 * (pos_part p.y / 20)))
            (ltb (pos_part p.y + 10) 2000
              && ltb (20 * (pos_part p.y / 20) + 19) (pos_part p.y + 10))
      rows = beside (pos_part p.y) (pos_part q.y) py.1 qy.1 within.2 within.3

      cols :
          Beside
            (pos_part p.x / 20)
            (pos_part q.x / 20)
            (leb 10 (pos_part p.x) && ltb (pos_part p.x - 10) (20 * (pos_part p.x / 20)))
            (ltb (pos_part p.x + 10) 2000
              && ltb (20 * (pos_part p.x / 20) + 19) (pos_part p.x + 10))
      cols = beside (pos_part p.x) (pos_part q.x) px.1 qx.1 within.0 within.1
