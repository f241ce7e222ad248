-- ===== src/Server/Geometry.antt =====
-- `namespace Helper` of GameServer/Server/common.h and the macro `ABS` of stdafx.h. A difference of
-- two `short`s is an `int`, which does not wrap.
use server_programming.Base.{
  ℕ, ◌+◌, ◌-◌, ◌≤◌, ◌<◌, ◌≡◌, sym, ◌∙◌, ap, ◌⊎◌, inl, inr, Bool, true, false, ◌&&◌, ◌||◌, arith,
  ltb, leb, if◌then◌else◌,
}
use server_programming.Base.Int.{ℤ, pos, negsuc, pos_part, neg_part, ◌+ℤ◌, ◌-ℤ◌, ltb_ℤ, eqb_ℤ}
use server_programming.Server.PlayerInfo.{
  PlayerInfo, world_width, world_height, range, npc_id_start, npc_id_end, IsCoordinate,
}

unfoldable pub abs : ℤ → ℤ
abs z = if ltb_ℤ z (pos 0) then pos 0 -ℤ z else z

unfoldable pub is_npc : ℕ → Bool
is_npc id = leb npc_id_start id && leb id npc_id_end

unfoldable pub is_near : PlayerInfo → PlayerInfo → Bool
unfolding abs
is_near a b =
    if ltb_ℤ (pos range) (abs (a.x -ℤ b.x))
    then false
    else if ltb_ℤ (pos range) (abs (a.y -ℤ b.y))
    then false
    else true

-- The `switch` on the direction; `x` and `y` are the fields that the source passes by reference.
unfoldable pub move_position : PlayerInfo → ℤ → PlayerInfo
move_position p direction =
    if eqb_ℤ direction (pos 0)
    then (if ltb_ℤ (pos 0) p.y then record p { y = p.y -ℤ pos 1 } else p)
    else if eqb_ℤ direction (pos 1)
    then (if ltb_ℤ p.y (pos (world_height - 1)) then record p { y = p.y +ℤ pos 1 } else p)
    else if eqb_ℤ direction (pos 2)
    then (if ltb_ℤ (pos 0) p.x then record p { x = p.x -ℤ pos 1 } else p)
    else if eqb_ℤ direction (pos 3)
    then (if ltb_ℤ p.x (pos (world_width - 1)) then record p { x = p.x +ℤ pos 1 } else p)
    else p

unfoldable pub get_direction_to_target : PlayerInfo → PlayerInfo → ℤ
unfolding abs
get_direction_to_target mine target =
    let abs_x = abs (target.x -ℤ mine.x) in
    let abs_y = abs (target.y -ℤ mine.y) in
    if eqb_ℤ abs_x (pos 0) && eqb_ℤ abs_y (pos 0)
    then negsuc 0
    else if ltb_ℤ abs_x abs_y
    then (if ltb_ℤ target.y mine.y then pos 0 else pos 1)
    else (if ltb_ℤ target.x mine.x then pos 2 else pos 3)

-- The Manhattan distance of two positions.
abbrev gap : ℤ → ℤ → ℕ
gap a b = pos_part (a -ℤ b) + neg_part (a -ℤ b)

unfoldable pub distance : PlayerInfo → PlayerInfo → ℕ
distance a b = gap a.x b.x + gap a.y b.y

-- A move in any direction keeps a position that is inside the world there.
pub move_position-stays :
    (p : PlayerInfo) (d : ℤ)
    → IsCoordinate p.x world_width
    → IsCoordinate p.y world_height
    → IsCoordinate (move_position p d).x world_width
      × IsCoordinate (move_position p d).y world_height
unfolding move_position ◌+ℤ◌ ◌-ℤ◌
move_position-stays p d ix iy = ground arith

-- `ABS` of a difference against the range, by the parts of the two numbers.
abs-sub :
    (a b : ℤ)
    → ltb_ℤ (pos range) (abs (a -ℤ b)) ≡ (
        ltb (pos_part b + neg_part a + range) (pos_part a + neg_part b)
        || ltb (pos_part a + neg_part b + range) (pos_part b + neg_part a))
unfolding abs ◌-ℤ◌
abs-sub a b = ground arith

-- A position sees another one exactly if the other one sees it.
pub is_near_symm : (p q : PlayerInfo) → is_near p q ≡ is_near q p
unfolding is_near
is_near_symm p q =
    ground (arith, abs-sub p.x q.x, abs-sub q.x p.x, abs-sub p.y q.y, abs-sub q.y p.y)

-- Sight depends on the positions only.
pub is_near-congr :
    (p p' q q' : PlayerInfo)
    → p'.x ≡ p.x
    → p'.y ≡ p.y
    → q'.x ≡ q.x
    → q'.y ≡ q.y
    → is_near p' q' ≡ is_near p q
unfolding is_near
is_near-congr p p' q q' a b c d = rw (a, b, c, d)

-- Two positions inside the world see each other exactly when no coordinate differs by more than the
-- range.
pub is_near-within :
    (p q : PlayerInfo)
    → is_near p q ≡ true
    → IsCoordinate p.x world_width
    → IsCoordinate p.y world_height
    → IsCoordinate q.x world_width
    → IsCoordinate q.y world_height
    → (pos_part p.x ≤ pos_part q.x + range)
      × (pos_part q.x ≤ pos_part p.x + range)
      × (pos_part p.y ≤ pos_part q.y + range)
      × (pos_part q.y ≤ pos_part p.y + range)
unfolding is_near
is_near-within p q near _ _ _ _ = ground (arith, abs-sub p.x q.x, abs-sub p.y q.y)

-- The coordinates of a chaser and its target, inside the world.
record Chase (p q : PlayerInfo) (a b c d : ℕ) : Type 0 where
  p_x : p.x ≡ pos a
  p_y : p.y ≡ pos b
  q_x : q.x ≡ pos c
  q_y : q.y ≡ pos d
  in_x : c < world_width
  in_y : d < world_height

abs-pos : (u v : ℕ) → abs (pos u -ℤ pos v) ≡ pos (u - v + (v - u))
unfolding abs ◌-ℤ◌
abs-pos u v = ground arith

distance-pos :
    (p q : PlayerInfo) (a b c d : ℕ)
    → p.x ≡ pos a
    → p.y ≡ pos b
    → q.x ≡ pos c
    → q.y ≡ pos d
    → distance p q ≡ (a - c) + (c - a) + ((b - d) + (d - b))
unfolding distance ◌-ℤ◌
distance-pos p q a b c d ea eb ec ed = rw (ea, eb, ec, ed) (ground arith)

module _ {p q : PlayerInfo} {a b c d : ℕ} (k : Chase p q a b c d) where
  direction-cases :
      let dir = get_direction_to_target p q in
      (dir ≡ negsuc 0) × (a ≡ c) × (b ≡ d)
      ⊎ (dir ≡ pos 0) × (d < b)
      ⊎ (dir ≡ pos 1) × (b < d)
      ⊎ (dir ≡ pos 2) × (c < a)
      ⊎ (dir ≡ pos 3) × (a < c)
  unfolding get_direction_to_target
  direction-cases = rw (k.p_x, k.p_y, k.q_x, k.q_y, abs-pos, abs-pos) (ground arith)

  nearer :
      (p' : PlayerInfo) (a' b' : ℕ)
      → p'.x ≡ pos a'
      → p'.y ≡ pos b'
      → (a' - c) + (c - a') + ((b' - d) + (d - b')) ≡ (a - c) + (c - a) + ((b - d) + (d - b)) - 1
      → distance p' q ≡ distance p q - 1
  nearer p' a' b' ex ey e =
      distance-pos p' q a' b' c d ex ey k.q_x k.q_y
      ∙ e
      ∙ ap (λ (n : ℕ). n - 1) (sym (distance-pos p q a b c d k.p_x k.p_y k.q_x k.q_y))

  chase_lem : distance (move_position p (get_direction_to_target p q)) q ≡ distance p q - 1
  unfolding move_position ◌-ℤ◌ ◌+ℤ◌
  chase_lem = elim direction-cases [
    | inl (e, same, same') ↦ nearer _ a b (ground arith) (ground arith) (omega arith)
    | inr (inl (e, up)) ↦ nearer _ a (b - 1) (ground arith) (ground arith) (omega arith)
    | inr (inr (inl (e, down))) ↦ nearer _ a (b + 1) (ground arith) (ground arith) (omega arith)
    | inr (inr (inr (inl (e, left)))) ↦
        nearer _ (a - 1) b (ground arith) (ground arith) (omega arith)
    | inr (inr (inr (inr (e, right)))) ↦
        nearer _ (a + 1) b (ground arith) (ground arith) (omega arith)
  ]

-- A step in the direction of `GetDirectionToTarget`, of one inside the world towards a target inside
-- it, makes the distance less by one tile, and leaves the distance 0 as it is.
chase_closer :
    (p q : PlayerInfo) (a b c d : ℕ)
    → p.x ≡ pos a
    → p.y ≡ pos b
    → q.x ≡ pos c
    → q.y ≡ pos d
    → a < world_width
    → b < world_height
    → c < world_width
    → d < world_height
    → distance (move_position p (get_direction_to_target p q)) q ≡ distance p q - 1
chase_closer p q a b c d ea eb ec ed _ _ lc ld =
    chase_lem (record { p_x = ea; p_y = eb; q_x = ec; q_y = ed; in_x = lc; in_y = ld })
