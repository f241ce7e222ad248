-- ===== src/Base/Sets.antt =====
-- `std::unordered_set<int>` as a list without regard to order: membership, insertion and erasure.
-- A loop over such a set follows the list, which stands for the order that the container happens
-- to give.
use server_programming.Base.{
  ℕ, ◌≡◌, Bool, false, not, ◌&&◌, ◌||◌, List, [], ◌∷◌, arith, ◌==◌, if◌then◌else◌,
}

-- `s.find(x) != s.end()`
unfoldable pub mem : ℕ → List ℕ → Bool
mem x [] = false
mem x (y ∷ s) = x == y || mem x s

-- `s.insert(x)`
unfoldable pub insert : ℕ → List ℕ → List ℕ
insert x s = if mem x s then s else x ∷ s

-- `s.erase(x)`
unfoldable pub erase : ℕ → List ℕ → List ℕ
erase x [] = []
erase x (y ∷ s) = let r = erase x s in if x == y then r else y ∷ r

pub mem-insert : (x y : ℕ) (s : List ℕ) → mem y (insert x s) ≡ (y == x || mem y s)
unfolding insert mem
mem-insert x y s = ground arith

pub mem-erase : (x y : ℕ) (s : List ℕ) → mem y (erase x s) ≡ (not (y == x) && mem y s)
unfolding erase mem
mem-erase x y [] = ground arith
mem-erase x y (z ∷ s) = ground (arith, mem-erase x y s)
