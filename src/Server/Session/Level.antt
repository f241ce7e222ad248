-- ===== src/Server/Session/Level.antt =====
-- The level-up loop in the range where the arithmetic of the source is defined.
use native.Mathlib.Nat.{pow-suc, le_refl}
use server_programming.Base.{
  ℕ, zero, suc, ◌+◌, ◌-◌, ◌*◌, ◌^◌, ◌≤◌, ◌<◌, ◌≡◌, refl, ◌⊎◌, inl, inr, Bool-cases, some, arith,
  leb,
}
use server_programming.Base.Int.{
  pos, ◌+ℤ◌, ◌-ℤ◌, ◌*ℤ◌, leb_ℤ, to_short, to_int, to_int-pos, to_short-pos, -ℤ-pos,
}
use server_programming.Server.Session.{
  Session, exp_needed, pow_int, level_up, increase_level_with_condition,
}

-- The experience that level `suc k` asks for.
abbrev pub needed : ℕ → ℕ
needed k = 100 * 2 ^ k

pow-le-add : (k n : ℕ) → 2 ^ k ≤ 2 ^ (n + k)
pow-le-add k zero = let e : 0 + k ≡ k = omega arith in rw e (le_refl (2 ^ k))
pow-le-add k (suc n) =
    let e : suc n + k ≡ suc (n + k) = omega arith in rw (e, pow-suc) (omega (arith, pow-le-add k n))

pow-le : (k n : ℕ) → k ≤ n → 2 ^ k ≤ 2 ^ n
pow-le k n h = let e : n ≡ n - k + k = omega arith in rw e (pow-le-add k (n - k))

needed_lem : (k : ℕ) → k < 25 → exp_needed (pos (suc k)) ≡ pos (needed k)
unfolding exp_needed ◌-ℤ◌ ◌*ℤ◌ pow_int
needed_lem k h = ground (arith, pow-le k 24, to_int-pos (needed k))

-- A character of level `suc k` with experience `e`.
pub record IsAt (s : Session) (k e : ℕ) : Type 0 where
  pub level_eq : s.info.level ≡ pos (suc k)
  pub exp_eq : s.info.exp ≡ pos e
  pub level_ok : k < 25
  pub exp_ok : e < needed 24

-- The strength that goes with level `suc k`.
pub record IsFresh (s : Session) (k : ℕ) : Type 0 where
  pub max_hp_eq : s.info.max_hp ≡ pos (150 * suc k)
  pub hp_eq : s.info.hp ≡ pos (150 * suc k)
  pub power_eq : s.attack_power ≡ pos (suc k * 5)

module _ {s : Session} {k e : ℕ} (a : IsAt s k e) where
  paid_level : needed k ≤ e → k < 24
  paid_level paid = ground (arith, a.exp_ok, a.level_ok, pow-le 24 k)

  exp_paid : needed k ≤ e → to_int (pos e -ℤ pos (needed k)) ≡ pos (e - needed k)
  exp_paid paid = ground (arith, a.exp_ok, -ℤ-pos e (needed k) paid, to_int-pos (e - needed k))

  level_next : to_short (pos (suc k) +ℤ pos 1) ≡ pos (suc (suc k))
  unfolding ◌+ℤ◌
  level_next = ground (arith, a.level_ok, to_short-pos (suc (suc k)))

  max_hp_next : to_short (pos 150 *ℤ pos (suc (suc k))) ≡ pos (150 * suc (suc k))
  unfolding ◌*ℤ◌
  max_hp_next = ground (arith, a.level_ok, to_short-pos (150 * suc (suc k)))

  power_next : pos (suc (suc k)) *ℤ pos 5 ≡ pos (suc (suc k) * 5)
  unfolding ◌*ℤ◌
  power_next = ground arith

  -- A level-up in range: one level more, the experience paid, full strength of the new level.
  level_up_lem :
      needed k ≤ e → IsAt (level_up s) (suc k) (e - needed k) × IsFresh (level_up s) (suc k)
  unfolding level_up
  level_up_lem paid =
      rw
        (
          a.level_eq,
          a.exp_eq,
          needed_lem k a.level_ok,
          exp_paid paid,
          level_next,
          max_hp_next,
          power_next,
        )
        (
          record {
            level_eq = refl;
            exp_eq = refl;
            level_ok = omega (arith, paid_level paid);
            exp_ok = omega (arith, a.exp_ok);
          },
          record { max_hp_eq = refl; hp_eq = refl; power_eq = refl },
        )

-- What the loop makes of a character of level `suc k` with experience `e`: the experience that is left
-- does not suffice for another level, and no experience is lost. The strength is that of the new
-- level, or the character is unchanged.
pub data Promoted (s : Session) (k e : ℕ) (t : Session) : Type 0 where
  promoted :
      (k' e' : ℕ)
      → IsAt t k' e'
      → e' < needed k'
      → k ≤ k'
      → e' + needed k' ≡ e + needed k
      → (k' ≡ k) × (t ≡ s) ⊎ IsFresh t k'
      → Promoted s k e t

Promoted-step :
    {s : Session} {k e : ℕ} {t : Session}
    → needed k ≤ e
    → IsFresh (level_up s) (suc k)
    → Promoted (level_up s) (suc k) (e - needed k) t
    → Promoted s k e t
Promoted-step {k = k} {e = e} paid fresh (promoted k' e' a low up total strong) =
    promoted k' e' a low (omega arith) (omega (arith, pow-suc 2 k)) (inr (ground arith))

-- For a character of a level up to 25, whose experience is below what level 25 asks for, the loop ends
-- with the fuel for the levels up to 25, in a character as `Promoted` describes it.
pub increase_level_total :
    (fuel : ℕ) {s : Session} {k e : ℕ}
    → IsAt s k e
    → 25 < fuel + k
    → (t : Session) × (increase_level_with_condition fuel s ≡ some t) × Promoted s k e t
unfolding increase_level_with_condition
increase_level_total zero a h = absurd (omega (arith, a.level_ok))
increase_level_total (suc fuel) {s} {k} {e} a h = elim (Bool-cases (leb (needed k) e)) [
  | inl paid ↦
      let (up, fresh) = level_up_lem a (ground arith) in
      let (t, done, result) = increase_level_total fuel up (omega arith) in
      (t, rw (test, paid) done, Promoted-step (ground arith) fresh result)
  | inr short ↦
      (s, rw (test, short), promoted k e a (ground arith) (omega arith) refl (inl (refl, refl)))
]
  where
    test : leb_ℤ (exp_needed s.info.level) s.info.exp ≡ leb (needed k) e
    test = rw (a.level_eq, a.exp_eq, needed_lem k a.level_ok) (ground arith)
