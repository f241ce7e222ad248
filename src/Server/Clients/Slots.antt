-- ===== src/Server/Clients/Slots.antt =====
-- Free slots for new clients.
use server_programming.Base.{
  ℕ, zero, suc, ◌+◌, ◌≤◌, ◌<◌, ◌≡◌, refl, ◌∙◌, inl, inr, Bool, true, false, Bool-cases, Option,
  none, some, arith, ◌==◌, ==_iff, if◌then◌else◌,
}
use server_programming.Server.PlayerInfo.{max_user}
use server_programming.Server.Session.{Session, free, accept, same_state, compare_and_change_state}
use server_programming.Server.World.{World, modify}
use server_programming.Server.Clients.{find_free, get_available_id}

-- The slot can be given away.
abbrev pub is_free : World → ℕ → Bool
is_free w id = same_state (w.clients id).state free

-- The session once its slot is given away.
abbrev pub reserved : Session → Session
reserved s = record s { state = accept }

-- The first free slot of the `count` ones from `first` on, which is reserved; or none, and then none of
-- them is free. All other sessions are as before.
pub data FirstFree (w : World) (first count : ℕ) : Option ℕ × World → Type 0 where
  found :
      (id : ℕ) (w' : World)
      → first ≤ id
      → id < first + count
      → is_free w id ≡ true
      → ((j : ℕ) → first ≤ j → j < id → is_free w j ≡ false)
      → ((j : ℕ) → w'.clients j ≡ (if j == id then reserved (w.clients j) else w.clients j))
      → FirstFree w first count (some id, w')
  full :
      (w' : World)
      → ((j : ℕ) → first ≤ j → j < first + count → is_free w j ≡ false)
      → ((j : ℕ) → w'.clients j ≡ w.clients j)
      → FirstFree w first count (none, w')

-- A slot that is taken is passed over.
FirstFree-step :
    {w w₁ : World} {first count : ℕ} {r : Option ℕ × World}
    → is_free w first ≡ false
    → ((j : ℕ) → w₁.clients j ≡ w.clients j)
    → FirstFree w₁ (suc first) count r
    → FirstFree w first (suc count) r
FirstFree-step {w} {w₁} {first} {count} taken same (found id w' lo hi is_id below after) =
    found id w' (omega arith) (omega arith) (free_eq id ∙ is_id)
      (λ j lo' hi'. elim (Bool-cases (j == first)) [
        | inl at ↦ rw ((==_iff j first).0 at) taken
        | inr past ↦ free_eq j ∙ below j (ground arith) hi'
      ])
      (λ j. after j ∙ rw (same j))
  where
    free_eq : (j : ℕ) → is_free w j ≡ is_free w₁ j
    free_eq j = rw (same j)
FirstFree-step {w} {w₁} {first} {count} taken same (full w' all after) =
    full w'
      (λ j lo' hi'. elim (Bool-cases (j == first)) [
        | inl at ↦ rw ((==_iff j first).0 at) taken
        | inr past ↦ rw (← same j) (all j (ground arith) (omega arith))
      ])
      (λ j. after j ∙ same j)

-- The world after the exchange is tried on one slot.
abbrev tried : World → ℕ → World
tried w first = modify w first (λ s. (compare_and_change_state s free accept).1)

tried-taken :
    (w : World) (first : ℕ)
    → is_free w first ≡ false
    → (j : ℕ) → (tried w first).clients j ≡ w.clients j
unfolding compare_and_change_state
tried-taken w first taken j = ground arith

tried-free :
    (w : World) (first : ℕ)
    → is_free w first ≡ true
    → (j : ℕ)
    → (tried w first).clients j ≡ (if j == first then reserved (w.clients j) else w.clients j)
unfolding compare_and_change_state
tried-free w first yes' j = ground arith

exchanged :
    (w : World) (first : ℕ)
    → (compare_and_change_state (w.clients first) free accept).0 ≡ is_free w first
unfolding compare_and_change_state
exchanged w first = ground arith

find_free-FirstFree :
    (count first : ℕ) (w : World) → FirstFree w first count (find_free count first w)
unfolding find_free
find_free-FirstFree zero first w = full w (λ j lo hi. absurd (omega arith)) (λ j. refl)
find_free-FirstFree (suc count) first w = elim (Bool-cases (is_free w first)) [
  | inl yes' ↦
      rw (exchanged, yes')
        (found first (tried w first) (omega arith) (omega arith) yes'
          (λ j lo hi. absurd (omega arith)) (tried-free w first yes'))
  | inr taken ↦
      rw (exchanged, taken)
        (FirstFree-step taken (tried-taken w first taken)
          (find_free-FirstFree count (suc first) (tried w first)))
]

-- `GetAvailableID` reserves the first free slot of the players and changes nothing else, or finds that
-- every slot is taken.
pub get_available_id-FirstFree : (w : World) → FirstFree w 0 max_user (get_available_id w)
unfolding get_available_id
get_available_id-FirstFree w = find_free-FirstFree max_user 0 w
