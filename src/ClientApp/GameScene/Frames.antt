-- ===== src/ClientApp/GameScene/Frames.antt =====
-- Frames and packets.
use server_programming.Base.{
  ℕ, ◌≡◌, refl, sym, ap, ◌∙◌, inl, inr, true, false, not, ◌&&◌, ◌||◌, Option, none, some,
  Option-cases, List, [], ◌∷◌, arith, ◌==◌, ==_iff, if◌then◌else◌,
}
use server_programming.Base.Dict.{lookup, remove, lookup-assign}
use server_programming.Base.Dict.Keys.{
  has, has-cons, has-assign, has-remove, has_absent, has-nil, has_self, apart, lookup_absent,
  Distinct,
}
use server_programming.Base.Sets.{mem}
use server_programming.Base.Int.{ℤ}
use server_programming.ClientApp.ClientSocket.{Player}
use server_programming.ClientApp.GameScene.{
  Pawn, GameScene, append_object, append_one, append_all, trash_can, erase_all,
  append_or_delete_players, place, update_one, update_players_coord,
}

-- After `AppendOrDeletePlayers` the scene has exactly the players of the copy.
append_one-has :
    (my_id : ℤ) (id k : ℕ) (s : GameScene)
    → has k (append_one my_id id s).players ≡ (k == id || has k s.players)
unfolding append_one
append_one-has my_id id k s = elim (Option-cases (lookup id s.players)) [
  | inl absent ↦ rw (absent, append_one) (has-assign id k _ s.players)
  | inr (pawn, found) ↦ rw (found, append_one) (sym (has_self id k s.players found))
]

append_all-has :
    (my_id : ℤ) (coords : List (ℕ × Player)) (k : ℕ) (s : GameScene)
    → has k (append_all my_id coords s).players ≡ (has k coords || has k s.players)
unfolding append_all
append_all-has my_id [] k s = rw (has-nil Player k) refl
append_all-has my_id ((id, p) ∷ coords) k s =
    append_all-has my_id coords k (append_one my_id id s)
    ∙ ground (arith, append_one-has my_id id k s, has-cons id k p coords)

-- Those who go are those whom the copy does not have.
mem-trash_can :
    (coords : List (ℕ × Player)) (players : List (ℕ × Pawn)) (k : ℕ)
    → mem k (trash_can coords players) ≡ (has k players && not (has k coords))
unfolding trash_can mem
mem-trash_can coords [] k = rw (has-nil Pawn k) refl
mem-trash_can coords ((id, pawn) ∷ players) k = elim (Option-cases (lookup id coords)) [
  | inl absent ↦
      rw (absent, trash_can)
        (ground (
          arith,
          mem-trash_can coords players k,
          has-cons id k pawn players,
          has_absent id coords absent,
          ==_iff k id,
        ))
  | inr (p, found) ↦
      rw (found, trash_can)
        (mem-trash_can coords players k
          ∙ ground (arith, has-cons id k pawn players, has_self id k coords found))
]

has-erase_all :
    (ids : List ℕ) (players : List (ℕ × Pawn)) (k : ℕ)
    → has k (erase_all ids players) ≡ (not (mem k ids) && has k players)
unfolding erase_all mem
has-erase_all [] players k = refl
has-erase_all (id ∷ ids) players k =
    has-erase_all ids (remove id players) k ∙ ground (arith, has-remove id k players)

pub has-append_or_delete :
    (s : GameScene) (my_id : ℤ) (coords : List (ℕ × Player)) (k : ℕ)
    → has k (append_or_delete_players s my_id coords).players ≡ has k coords
unfolding append_or_delete_players
has-append_or_delete s my_id coords k =
    let s' = append_all my_id coords s in
    has-erase_all (trash_can coords s'.players) s'.players k
    ∙ ground (arith, mem-trash_can coords s'.players k, append_all-has my_id coords k s)

-- `UpdatePlayersCoord` brings no new pawn.
update_one-has :
    (id k : ℕ) (p : Player) (s : GameScene) → has k (update_one id p s).players ≡ has k s.players
unfolding update_one
update_one-has id k p s = elim (Option-cases (lookup id s.players)) [
  | inl absent ↦ rw (absent, update_one) refl
  | inr (pawn, found) ↦
      rw (found, update_one)
        (has-assign id k (place p pawn) s.players ∙ has_self id k s.players found)
]

-- A player without a pawn is a null pointer.
stays_faulty :
    (coords : List (ℕ × Player)) (s : GameScene)
    → s.fault ≡ true
    → (update_players_coord s coords).fault ≡ true
unfolding update_players_coord update_one
stays_faulty [] s f = f
stays_faulty ((id, p) ∷ coords) s f = stays_faulty coords (update_one id p s) (ground arith)

pub missing_faults :
    (coords : List (ℕ × Player)) (s : GameScene) (k : ℕ)
    → has k coords ≡ true
    → has k s.players ≡ false
    → (update_players_coord s coords).fault ≡ true
unfolding update_players_coord update_one
missing_faults [] s k here gone = ground (arith, has-nil Player k)
missing_faults ((id, p) ∷ coords) s k here gone = elim (Option-cases (lookup id s.players)) [
  | inl absent ↦ stays_faulty coords (update_one id p s) (rw (absent, update_one) refl)
  | inr (pawn, found) ↦
      missing_faults coords (update_one id p s) k
        (ground (arith, has-cons id k p coords, apart id k s.players found gone))
        (update_one-has id k p s ∙ gone)
]

-- The pawn of a player, if he has one, is put in his place.
unfoldable pub moved : Option Player → Option Pawn → Option Pawn
unfolding place
moved none pawn = pawn
moved (some p) none = none
moved (some p) (some pawn) = some (place p pawn)

update_one-lookup :
    (id k : ℕ) (p : Player) (s : GameScene) {pawn : Pawn}
    → lookup id s.players ≡ some pawn
    → ((update_one id p s).fault ≡ s.fault)
      × (lookup k (update_one id p s).players
          ≡ (if k == id then some (place p pawn) else lookup k s.players))
unfolding update_one
update_one-lookup id k p s {pawn} found = (
  rw (found, update_one) refl,
  rw (found, update_one) (lookup-assign id k (place p pawn) s.players),
)

-- A player with a pawn is where the copy says.
update_lem :
    (coords : List (ℕ × Player)) (s : GameScene)
    → Distinct coords
    → ((k : ℕ) → has k coords ≡ true → has k s.players ≡ true)
    → s.fault ≡ false
    → ((update_players_coord s coords).fault ≡ false)
      × ((k : ℕ)
          → lookup k (update_players_coord s coords).players
            ≡ moved (lookup k coords) (lookup k s.players))
unfolding update_players_coord moved lookup
update_lem [] s d all ok = (ok, λ k. refl)
update_lem ((id, p) ∷ coords) s d all ok = elim (Option-cases (lookup id s.players)) [
  | inl absent ↦
      absurd (ground (arith, all id, has-cons id id p coords, has_absent id s.players absent))
  | inr (pawn, found) ↦
      let (ok', at) =
        update_lem coords (update_one id p s) d.1
          (λ k here.
            update_one-has id k p s ∙ all k (has-cons id k p coords ∙ rw here (ground arith)))
          ((update_one-lookup id id p s found).0 ∙ ok) in
      (
        ok',
        λ k.
            at k
            ∙ ground (
              arith,
              (update_one-lookup id k p s found).1,
              lookup_absent id coords d.0,
              found,
              ==_iff k id,
            ),
      )
]

-- Where a pawn stands, and where a player is.
unfoldable pub spot : Option Pawn → Option (ℤ × ℤ)
spot none = none
spot (some pawn) = some (pawn.x, pawn.y)

unfoldable pub spot_of : Option Player → Option (ℤ × ℤ)
spot_of none = none
spot_of (some p) = some (p.x, p.y)

-- A scene that has the players of the copy shows each in his place.
pub update_shows :
    (coords : List (ℕ × Player)) (s : GameScene)
    → Distinct coords
    → ((k : ℕ) → has k s.players ≡ has k coords)
    → s.fault ≡ false
    → ((update_players_coord s coords).fault ≡ false)
      × ((k : ℕ)
          → spot (lookup k (update_players_coord s coords).players) ≡ spot_of (lookup k coords))
unfolding moved spot spot_of has
update_shows coords s d same ok =
    let (ok', at) = update_lem coords s d (λ k here. same k ∙ here) ok in
    (ok', λ k. ap spot (at k) ∙ ground (arith, same k))

pub has-update :
    (coords : List (ℕ × Player)) (s : GameScene) (k : ℕ)
    → has k (update_players_coord s coords).players ≡ has k s.players
unfolding update_players_coord
has-update [] s k = refl
has-update ((id, p) ∷ coords) s k =
    has-update coords (update_one id p s) k ∙ update_one-has id k p s

append_all-fault :
    (my_id : ℤ) (coords : List (ℕ × Player)) (s : GameScene)
    → (append_all my_id coords s).fault ≡ s.fault
unfolding append_all append_one append_object
append_all-fault my_id [] s = refl
append_all-fault my_id ((id, p) ∷ coords) s =
    append_all-fault my_id coords (append_one my_id id s) ∙ ground arith

pub append_or_delete-fault :
    (s : GameScene) (my_id : ℤ) (coords : List (ℕ × Player))
    → (append_or_delete_players s my_id coords).fault ≡ s.fault
unfolding append_or_delete_players
append_or_delete-fault s my_id coords = append_all-fault my_id coords s
