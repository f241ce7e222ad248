-- ===== src/Server/Packets/Attack.antt =====
-- An attack hits each NPC within one tile once.
use server_programming.Base.{
  ℕ, zero, suc, ◌<◌, ◌+◌, ◌≡◌, refl, ◌∙◌, inl, inr, Bool, ◌&&◌, Bool-cases, Option, none, some,
  List, [], ◌∷◌, arith, ◌==◌, leb, if◌then◌else◌,
}
use server_programming.Base.Int.{
  ℤ, pos, pos_part, neg_part, ◌+ℤ◌, ◌-ℤ◌, eqb_ℤ, to_short, to_short-fits,
}
use server_programming.Server.PlayerInfo.{PlayerInfo}
use server_programming.Server.Geometry.{is_npc}
use server_programming.Server.Session.{
  Session, is_same_position, increase_exp, exp_gain, gain, level_up, increase_level_with_condition,
}
use server_programming.Server.World.{World, for_range, fail, send_remove_packet}
use server_programming.Server.Npc.{forget_dead, handle_dead_npc}
use server_programming.Server.Packets.{
  reward, bury, end_kill, kill_npc, wound, hit_npc, hit_tile, hit_tiles, tiles, attack_one,
}

-- Nobody has moved.
abbrev Stays : World → World → Type 0
Stays w w' =
    (j : ℕ)
    → ((w'.clients j).info.x ≡ (w.clients j).info.x)
      × ((w'.clients j).info.y ≡ (w.clients j).info.y)

wound-Stays : (id pid : ℕ) (w : World) → Stays w (wound id pid w)
unfolding wound
wound-Stays id pid w j = ground arith

forget_dead-Stays : (npc player : ℕ) (w : World) → Stays w (forget_dead npc player w)
unfolding forget_dead send_remove_packet
forget_dead-Stays npc player w j = ground arith

forget_range-Stays :
    (npc count first : ℕ) (w : World) → Stays w (for_range count first (forget_dead npc) w)
unfolding for_range
forget_range-Stays npc zero first w j = (refl, refl)
forget_range-Stays npc (suc count) first w j =
    let a = forget_range-Stays npc count (suc first) (forget_dead npc first w) j in
    let b = forget_dead-Stays npc first w j in (a.0 ∙ b.0, a.1 ∙ b.1)

handle_dead_npc-Stays : (npc : ℕ) (w : World) → Stays w (handle_dead_npc w npc)
unfolding handle_dead_npc
handle_dead_npc-Stays npc w = forget_range-Stays npc _ 0 w

bury-Stays : (id pid : ℕ) (w : World) → Stays w (bury id pid w)
unfolding bury
bury-Stays id pid w j = ground (arith, handle_dead_npc-Stays pid w j)

-- A level-up moves nobody either.
abbrev SamePlace : Session → Session → Type 0
SamePlace s t = (t.info.x ≡ s.info.x) × (t.info.y ≡ s.info.y)

increase_level-SamePlace :
    (fuel : ℕ) (s t : Session) → increase_level_with_condition fuel s ≡ some t → SamePlace s t
unfolding increase_level_with_condition level_up
increase_level-SamePlace zero s t e = cc
increase_level-SamePlace (suc fuel) s t e =
    ground (arith, increase_level-SamePlace fuel (level_up s) t)

reward-Stays :
    (id pid : ℕ) (amount : ℤ) (s : Session) (w : World)
    → SamePlace (w.clients id) s
    → Stays w (reward id pid amount s w)
unfolding reward
reward-Stays id pid amount s w p j = ground arith

end_kill-Stays :
    (id pid : ℕ) (op_level : ℤ) (r : Option Session) (w : World)
    → ((s : Session) → r ≡ some s → SamePlace (w.clients id) s)
    → Stays w (end_kill id pid op_level r w)
unfolding end_kill fail
end_kill-Stays id pid op_level none w h j = (refl, refl)
end_kill-Stays id pid op_level (some s) w h j =
    let a = bury-Stays id pid (reward id pid (exp_gain op_level) s w) j in
    let b = reward-Stays id pid (exp_gain op_level) s w (h s refl) j in (a.0 ∙ b.0, a.1 ∙ b.1)

kill_npc-Stays : (id pid : ℕ) (w : World) → Stays w (kill_npc id pid w)
unfolding kill_npc increase_exp
kill_npc-Stays id pid w = end_kill-Stays id pid _ _ w (λ s e.
    increase_level-SamePlace _ (gain (w.clients id) (exp_gain (w.clients pid).info.level)) s e)

hit_npc-Stays : (id pid : ℕ) (w : World) → Stays w (hit_npc id pid w)
unfolding hit_npc
hit_npc-Stays id pid w j =
    ground (arith, wound-Stays id pid w j, kill_npc-Stays id pid (wound id pid w) j)

-- How many of the tiles, as pairs of `short`, are the position.
abbrev hits : List (ℤ × ℤ) → ℤ → ℤ → ℕ
hits [] x y = 0
hits ((col, row) ∷ ts) x y =
    (if eqb_ℤ x (to_short col) && eqb_ℤ y (to_short row) then 1 else 0) + hits ts x y

hit_tiles_none :
    (id pid : ℕ) (ts : List (ℤ × ℤ)) (w : World)
    → hits ts (w.clients pid).info.x (w.clients pid).info.y ≡ 0
    → hit_tiles id pid ts w ≡ w
unfolding hit_tiles hit_tile
hit_tiles_none id pid [] w h = refl
hit_tiles_none id pid ((col, row) ∷ ts) w h = ground (arith, hit_tiles_none id pid ts w)

hit_tiles_one :
    (id pid : ℕ) (ts : List (ℤ × ℤ)) (w : World)
    → hits ts (w.clients pid).info.x (w.clients pid).info.y ≡ 1
    → hit_tiles id pid ts w ≡ hit_npc id pid w
unfolding hit_tiles hit_tile
hit_tiles_one id pid [] w h = absurd (omega arith)
hit_tiles_one id pid ((col, row) ∷ ts) w h =
    elim (Bool-cases (is_same_position (w.clients pid) (to_short col) (to_short row))) [
      | inl here ↦ rw here (
          hit_tiles_none id pid ts (hit_npc id pid w)
            (rw ((hit_npc-Stays id pid w pid).0, (hit_npc-Stays id pid w pid).1) (ground arith)))
      | inr there ↦ rw there (hit_tiles_one id pid ts w (ground arith))
    ]

-- A coordinate whose neighbours a `short` holds, too.
abbrev pub IsInner : ℤ → Type 0
IsInner v = (pos_part v < 32767) × (neg_part v < 32768)

neighbours-fit :
    (v : ℤ)
    → IsInner v
    → (to_short (v -ℤ pos 1) ≡ v -ℤ pos 1)
      × (to_short (v -ℤ pos 1 +ℤ pos 1) ≡ v -ℤ pos 1 +ℤ pos 1)
      × (to_short (v -ℤ pos 1 +ℤ pos 2) ≡ v -ℤ pos 1 +ℤ pos 2)
unfolding ◌+ℤ◌ ◌-ℤ◌
neighbours-fit v (small, small') = (
  to_short-fits _ (ground (arith, small)) (ground (arith, small')),
  to_short-fits _ (ground (arith, small)) (ground (arith, small')),
  to_short-fits _ (ground (arith, small)) (ground (arith, small')),
)

-- The tests of the nine tiles, by the distance from the corner.
tile-eq :
    (u v : ℤ)
    → (eqb_ℤ u (v -ℤ pos 1) ≡ (pos_part u + neg_part v + 1 == pos_part v + neg_part u))
      × (eqb_ℤ u (v -ℤ pos 1 +ℤ pos 1) ≡ (pos_part u + neg_part v == pos_part v + neg_part u))
      × (eqb_ℤ u (v -ℤ pos 1 +ℤ pos 2) ≡ (pos_part u + neg_part v == pos_part v + neg_part u + 1))
unfolding ◌+ℤ◌ ◌-ℤ◌
tile-eq u v = (ground arith, ground arith, ground arith)

-- No more than one tile away, in one coordinate.
abbrev pub beside : ℤ → ℤ → Bool
beside u v =
    leb (pos_part u + neg_part v) (pos_part v + neg_part u + 1)
    && leb (pos_part v + neg_part u) (pos_part u + neg_part v + 1)

-- How many of the tiles, as they are, are the position.
abbrev exact_hits : List (ℤ × ℤ) → ℤ → ℤ → ℕ
exact_hits [] x y = 0
exact_hits ((col, row) ∷ ts) x y = (if eqb_ℤ x col && eqb_ℤ y row then 1 else 0) + exact_hits ts x y

exact_hits-tiles :
    (x y x' y' : ℤ)
    → exact_hits (tiles (x' -ℤ pos 1) (y' -ℤ pos 1)) x y
      ≡ (if beside x x' && beside y y' then 1 else 0)
exact_hits-tiles x y x' y' =
    let (a, b, c) = tile-eq x x' in
    let (d, e, f) = tile-eq y y' in rw (a, b, c, d, e, f) (ground arith)

-- The nine tiles round (x', y') are that position once each: a position beside it is one of them.
hits-tiles :
    (x y x' y' : ℤ)
    → IsInner x'
    → IsInner y'
    → hits (tiles (x' -ℤ pos 1) (y' -ℤ pos 1)) x y ≡ (if beside x x' && beside y y' then 1 else 0)
hits-tiles x y x' y' inner inner' =
    let (a, b, c) = neighbours-fit x' inner in
    let (d, e, f) = neighbours-fit y' inner' in rw (a, b, c, d, e, f) (exact_hits-tiles x y x' y')

-- An attack of a player none of whose neighbouring coordinates is outside of `short` hits an NPC of the
-- view list that is at most one tile away in each coordinate exactly once, and leaves the world as it
-- is for any other id.
pub attack_one_lem :
    (id pid : ℕ) (info : PlayerInfo) (w : World)
    → IsInner info.x
    → IsInner info.y
    → let target = (w.clients pid).info in
      attack_one id (tiles (info.x -ℤ pos 1) (info.y -ℤ pos 1)) pid w ≡ (
        if is_npc pid && (beside target.x info.x && beside target.y info.y)
        then hit_npc id pid w
        else w)
unfolding attack_one
attack_one_lem id pid info w inner inner' = elim (Bool-cases (is_npc pid)) [
  | inr player ↦ rw player
  | inl npc ↦ elim (Bool-cases (beside target.x info.x && beside target.y info.y)) [
    | inl near ↦
        rw (npc, near)
          (hit_tiles_one id pid area w
            (hits-tiles target.x target.y info.x info.y inner inner' ∙ rw near))
    | inr far ↦
        rw (npc, far)
          (hit_tiles_none id pid area w
            (hits-tiles target.x target.y info.x info.y inner inner' ∙ rw far))
  ]
]
  where
    target : PlayerInfo
    target = (w.clients pid).info

    area : List (ℤ × ℤ)
    area = tiles (info.x -ℤ pos 1) (info.y -ℤ pos 1)
