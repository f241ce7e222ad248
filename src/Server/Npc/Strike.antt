-- ===== src/Server/Npc/Strike.antt =====
-- What an NPC's attack does to its victim.
use server_programming.Base.{
  ℕ, ◌+◌, ◌-◌, ◌≤◌, ◌<◌, ◌≡◌, refl, ap, ap₂, ◌∙◌, ◌⊎◌, inl, inr, Bool, true, false, ◌&&◌,
  Bool-cases, arith, ◌==◌, if◌then◌else◌,
}
use native.Mathlib.Decide.{dec_lt}
use server_programming.Base.Int.{
  ℤ, pos, negsuc, ◌-ℤ◌, leb_ℤ, pos_part, neg_part, to_short, to_short-fits, -ℤ-pos,
}
use server_programming.Server.Session.{
  Session, ingame, is_same_position, is_attack_time_out, set_attack_duration,
}
use server_programming.Server.World.{
  World, modify, event_npc_attack, execute_lua_func, send_battle_result_packet,
}
use server_programming.Server.World.Frame.{
  clients-lua, clients-status_change, clients-battle_result,
}
use server_programming.Server.Npc.{strike, npc_attack, handle_npc_attack}

module _ (s : Session) (power : ℤ) where
  survives :
      leb_ℤ (to_short (s.info.hp -ℤ power)) (pos 0) ≡ false
      → ((strike s power).info.hp ≡ to_short (s.info.hp -ℤ power))
        × ((strike s power).state ≡ s.state)
  unfolding strike
  survives alive = rw alive (refl, refl)

  dies :
      leb_ℤ (to_short (s.info.hp -ℤ power)) (pos 0) ≡ true
      → ((strike s power).info.hp ≡ s.info.max_hp) × ((strike s power).state ≡ ingame)
  unfolding strike
  dies dead = rw dead (refl, refl)

rest_points : (hp : ℤ) (p : ℕ) → p < pos_part hp → hp -ℤ pos p ≡ pos (pos_part hp - p)
rest_points (pos n) p h = -ℤ-pos n p (omega (arith, h))
rest_points (negsuc n) p h = absurd (omega (arith, h))

-- A hit for `p` points, where the rest is in the range of a `short`: who has more points keeps the
-- rest and his state; else he has the full points and is in the game, whatever his state was before.
strike_lem :
    (s : Session) (p : ℕ)
    → pos_part s.info.hp < 32768
    → neg_part s.info.hp + p ≤ 32768
    → (p < pos_part s.info.hp)
        × ((strike s (pos p)).info.hp ≡ pos (pos_part s.info.hp - p))
        × ((strike s (pos p)).state ≡ s.state)
      ⊎ (pos_part s.info.hp ≤ p)
        × ((strike s (pos p)).info.hp ≡ s.info.max_hp)
        × ((strike s (pos p)).state ≡ ingame)
unfolding ◌-ℤ◌
strike_lem s p small small' =
    let rest_eq : to_short (s.info.hp -ℤ pos p) ≡ s.info.hp -ℤ pos p =
      to_short-fits _ (ground arith) (ground arith) in
    elim (dec_lt p (pos_part s.info.hp)) [
      | yes some_left ↦
          let (hp, state) = survives s (pos p) (rw rest_eq (ground arith)) in
          inl (some_left, hp ∙ rest_eq ∙ rest_points s.info.hp p some_left, state)
      | no none_left ↦
          let (hp, state) = dies s (pos p) (rw rest_eq (ground arith)) in
          inr (omega arith, hp, state)
    ]

module _ (w : World) (npc_id player_id : ℕ) (other : (player_id == npc_id) ≡ false) where
  abbrev spoken : World
  spoken = execute_lua_func w npc_id event_npc_attack player_id

  abbrev paused : World
  paused = modify spoken npc_id (λ s. set_attack_duration s w.now 1000)

  self : (n : ℕ) → (n == n) ≡ true
  self n = ground arith

  power_eq : (paused.clients npc_id).attack_power ≡ (w.clients npc_id).attack_power
  unfolding set_attack_duration
  power_eq = rw (self npc_id) (
      ap (λ (c : ℕ → Session). (c npc_id).attack_power)
        (clients-lua w npc_id event_npc_attack player_id))

  victim_eq : paused.clients player_id ≡ w.clients player_id
  victim_eq =
      rw other
        (ap (λ (c : ℕ → Session). c player_id) (clients-lua w npc_id event_npc_attack player_id))

  struck : World
  struck = modify paused player_id (λ s. strike s (paused.clients npc_id).attack_power)

  struck_eq :
      struck.clients player_id ≡ strike (w.clients player_id) (w.clients npc_id).attack_power
  unfolding struck
  struck_eq = rw (self player_id) (ap₂ strike victim_eq power_eq)

  npc_attack-victim :
      (npc_attack w npc_id player_id).clients player_id
      ≡ strike (w.clients player_id) (w.clients npc_id).attack_power
  unfolding npc_attack struck
  npc_attack-victim =
      ap (λ (c : ℕ → Session). c player_id)
        (clients-status_change
            (send_battle_result_packet struck player_id npc_id (paused.clients npc_id).attack_power
              (pos 1))
            player_id
          ∙ clients-battle_result struck player_id npc_id (paused.clients npc_id).attack_power
              (pos 1))
      ∙ struck_eq

-- The tests of `HandleNPCAttack`: the NPC stands on the player, and its pause is over.
abbrev pub attacks : World → ℕ → ℕ → Bool
attacks w npc_id player_id =
    let info = (w.clients player_id).info in
    is_same_position (w.clients npc_id) info.x info.y && is_attack_time_out (w.clients npc_id) w.now

-- What `HandleNPCAttack` does to a client that is not the NPC itself: a hit by the NPC's power if both
-- tests hold, and nothing otherwise.
handle_npc_attack-victim :
    (w : World) (npc_id player_id : ℕ)
    → (player_id == npc_id) ≡ false
    → (handle_npc_attack w npc_id player_id).clients player_id ≡ (
        if attacks w npc_id player_id
        then strike (w.clients player_id) (w.clients npc_id).attack_power
        else w.clients player_id)
unfolding handle_npc_attack
handle_npc_attack-victim w npc_id player_id other =
    let info = (w.clients player_id).info in
    elim (Bool-cases (is_same_position (w.clients npc_id) info.x info.y)) [
      | inr apart ↦ rw apart
      | inl here ↦ elim (Bool-cases (is_attack_time_out (w.clients npc_id) w.now)) [
        | inr pause ↦ rw (here, pause)
        | inl ready ↦ rw (here, ready) (npc_attack-victim w npc_id player_id other)
      ]
    ]

-- `HandleNPCAttack` of an NPC on another client, whose points less the NPC's power are in the range of a
-- `short`. Unless the NPC stands on the client and its pause is over, the client's session is as before.
-- Else, if he has more points than its power, he keeps the rest and his state, and if he has not, he has
-- the full points and is in the game, whatever his state was before, also if he has not logged in.
pub handle_npc_attack_lem :
    (w : World) (npc_id player_id p : ℕ)
    → (player_id == npc_id) ≡ false
    → (w.clients npc_id).attack_power ≡ pos p
    → pos_part (w.clients player_id).info.hp < 32768
    → neg_part (w.clients player_id).info.hp + p ≤ 32768
    → let s = w.clients player_id in
      let s' = (handle_npc_attack w npc_id player_id).clients player_id in
      (attacks w npc_id player_id ≡ false) × (s' ≡ s)
      ⊎ (attacks w npc_id player_id ≡ true)
        × ((p < pos_part s.info.hp)
              × (s'.info.hp ≡ pos (pos_part s.info.hp - p))
              × (s'.state ≡ s.state)
            ⊎ (pos_part s.info.hp ≤ p) × (s'.info.hp ≡ s.info.max_hp) × (s'.state ≡ ingame))
handle_npc_attack_lem w npc_id player_id p other power small small' =
    let victim = handle_npc_attack-victim w npc_id player_id other in
    elim (Bool-cases (attacks w npc_id player_id)) [
      | inr spared ↦ inl (spared, victim ∙ rw spared refl)
      | inl hit ↦
          inr (hit, rw (victim, hit, power) (strike_lem (w.clients player_id) p small small'))
    ]
