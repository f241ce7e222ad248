-- ===== src/Server/Packets/Buffers/Attack.antt =====
-- The attack packet leaves every receive buffer as it is.
use server_programming.Base.{
  ℕ, zero, suc, ◌≡◌, refl, ◌∙◌, inl, inr, Bool-cases, Option, none, some, List, [], ◌∷◌, arith,
}
use server_programming.Base.Int.{ℤ}
use server_programming.Server.Session.{
  Session, level_up, increase_level_with_condition, increase_exp, exp_gain, is_attack_time_out,
  set_attack_duration,
}
use server_programming.Server.World.{World, modify, fail}
use server_programming.Server.Packets.{
  reward, bury, end_kill, wound, kill_npc, hit_npc, hit_tile, hit_tiles, attack_one,
  process_attack_packet, attack,
}
use server_programming.Server.Packets.Buffers.Sight.{
  Keeps, for_each-Keeps, handle_dead_npc-Keeps, modified-Keeps,
}

-- Attacks.
increase_level-Keeps :
    (fuel : ℕ) (s t : Session)
    → increase_level_with_condition fuel s ≡ some t
    → t.recv_buffer ≡ s.recv_buffer
unfolding increase_level_with_condition level_up
increase_level-Keeps zero s t e = cc
increase_level-Keeps (suc fuel) s t e = ground (arith, increase_level-Keeps fuel (level_up s) t)

reward-Keeps :
    (id pid : ℕ) (amount : ℤ) (s : Session) (w : World)
    → s.recv_buffer ≡ (w.clients id).recv_buffer
    → Keeps w (reward id pid amount s w)
unfolding reward
reward-Keeps id pid amount s w e j = ground arith

bury-Keeps : (id pid : ℕ) (w : World) → Keeps w (bury id pid w)
unfolding bury
bury-Keeps id pid w j = ground (arith, handle_dead_npc-Keeps pid w j)

end_kill-Keeps :
    (id pid : ℕ) (op_level : ℤ) (r : Option Session) (w : World)
    → ((s : Session) → r ≡ some s → s.recv_buffer ≡ (w.clients id).recv_buffer)
    → Keeps w (end_kill id pid op_level r w)
unfolding end_kill fail
end_kill-Keeps id pid op_level none w h j = refl
end_kill-Keeps id pid op_level (some s) w h j =
    bury-Keeps id pid (reward id pid (exp_gain op_level) s w) j
    ∙ reward-Keeps id pid (exp_gain op_level) s w (h s refl) j

kill_npc-Keeps : (id pid : ℕ) (w : World) → Keeps w (kill_npc id pid w)
unfolding kill_npc increase_exp
kill_npc-Keeps id pid w = end_kill-Keeps id pid _ _ w (λ s e. increase_level-Keeps _ _ s e)

wound-Keeps : (id pid : ℕ) (w : World) → Keeps w (wound id pid w)
unfolding wound
wound-Keeps id pid w j = ground arith

hit_npc-Keeps : (id pid : ℕ) (w : World) → Keeps w (hit_npc id pid w)
unfolding hit_npc
hit_npc-Keeps id pid w j =
    ground (arith, wound-Keeps id pid w j, kill_npc-Keeps id pid (wound id pid w) j)

hit_tile-Keeps : (id pid : ℕ) (t : ℤ × ℤ) (w : World) → Keeps w (hit_tile id pid t w)
unfolding hit_tile
hit_tile-Keeps id pid (col, row) w j = ground (arith, hit_npc-Keeps id pid w j)

hit_tiles-Keeps : (id pid : ℕ) (ts : List (ℤ × ℤ)) (w : World) → Keeps w (hit_tiles id pid ts w)
unfolding hit_tiles
hit_tiles-Keeps id pid [] w j = refl
hit_tiles-Keeps id pid (t ∷ ts) w j =
    hit_tiles-Keeps id pid ts (hit_tile id pid t w) j ∙ hit_tile-Keeps id pid t w j

attack_one-Keeps :
    (id : ℕ) (area : List (ℤ × ℤ)) (pid : ℕ) (w : World) → Keeps w (attack_one id area pid w)
unfolding attack_one
attack_one-Keeps id area pid w j = ground (arith, hit_tiles-Keeps id pid area w j)

process_attack_packet-Keeps :
    (w : World) (id : ℕ) (viewlist : List ℕ) → Keeps w (process_attack_packet w id viewlist)
unfolding process_attack_packet
process_attack_packet-Keeps w id viewlist =
    for_each-Keeps viewlist (attack_one id _) (attack_one-Keeps id _) w

pub attack-Keeps : (id : ℕ) (w : World) → Keeps w (attack w id)
unfolding attack
attack-Keeps id w j = elim (Bool-cases (is_attack_time_out (w.clients id) w.now)) [
  | inl ready ↦ rw ready (
      process_attack_packet-Keeps (modify w id (λ s. set_attack_duration s w.now 1000)) id
        (w.clients id).view_list j
      ∙ modified-Keeps w id (λ s. set_attack_duration s w.now 1000) (λ s. refl) j)
  | inr waiting ↦ rw waiting
]
