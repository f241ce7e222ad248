-- ===== src/System/Grid.antt =====
-- The sectors of the server, as its threads change them and the clients' places: the lemmas on single
-- changes. The children go on to all steps and runs.
pub mod Changes
pub mod Steps
pub mod Runs
use server_programming.Base.{
  ℕ, ◌≡◌, refl, sym, subst, ap, inl, inr, Bool, true, false, ◌&&◌, ◌||◌, Bool-cases, List, [], ◌∷◌,
  arith, ◌==◌, ==_iff,
}
use server_programming.Base.Int.{ℤ, eqb_ℤ, eqb_ℤ→eq}
use server_programming.Server.PlayerInfo.{PlayerInfo, IsCoordinate, world_width, world_height}
use server_programming.Server.Geometry.{is_npc}
use server_programming.Server.SectorManager.{SectorManager, insert_id, move_id}
use server_programming.Server.SectorManager.Cover.{IsServerGrid}
use server_programming.Server.SectorManager.Sets.{
  Holds, insert_id-Holds, insert_id-keeps, move_id-Holds, move_id-arrives, move_id-keeps,
  get_sector_index-move_id,
}
use server_programming.Server.Session.{Session, ingame, accept, is_state, compare_and_change_state}
use server_programming.Server.Timer.{EventType, TimerEvent, npc_move, npc_revive, add_timer_event}
use server_programming.Server.DbHandler.{Database, Row, fetched}
use server_programming.Server.World.{World, modify, add_timer}
use server_programming.Server.Clients.{put_in_game}
use server_programming.System.Keep.{Shift, is_awake, InWorld, relocate}

-- Every row of the database that can be fetched holds a place inside the world.
abbrev pub IsSound : Database → Type 0
IsSound database =
    (name : List ℕ) (r : Row)
    → database name ≡ fetched r
    → IsCoordinate r.x world_width × IsCoordinate r.y world_height

-- A client: the sectors hold him if he is inside the world, and he is if he is active, or if the
-- test `S` says so.
pub record IsPlacedAt (S : ℕ → Bool) (m : SectorManager) (j : ℕ) (s : Session) : Type 0 where
  pub held : InWorld s.info → Holds m j s.info.x s.info.y
  pub awake_in : is_awake s ≡ true → InWorld s.info
  pub inside : S j ≡ true → InWorld s.info

-- The events that revive are about NPCs.
unfoldable pub may_happen : EventType → ℕ → Bool
may_happen npc_move id = true
may_happen npc_revive id = is_npc id

unfoldable pub revives_npcs : List TimerEvent → Bool
revives_npcs [] = true
revives_npcs (e ∷ queue) = may_happen e.type e.object_id && revives_npcs queue

pub record IsPlaced (S : ℕ → Bool) (w : World) : Type 0 where
  pub grid : IsServerGrid w.sectors
  pub clients : (j : ℕ) → IsPlacedAt S w.sectors j (w.clients j)
  pub timers : revives_npcs w.timers ≡ true
  pub rows : IsSound w.database

-- One session changes.
modify-cases :
    (Q : ℕ → Session → Type 0) (w : World) (id : ℕ) (f : Session → Session)
    → Q id (f (w.clients id))
    → ((j : ℕ) → (j == id) ≡ false → Q j (w.clients j))
    → (j : ℕ) → Q j ((modify w id f).clients j)
modify-cases Q w id f here there j = elim (Bool-cases (j == id)) [
  | inl self ↦ rw self (subst (λ k. Q k (f (w.clients k))) (sym ((==_iff j id).0 self)) here)
  | inr other ↦ rw other (there j other)
]

grid-move_id :
    (m : SectorManager) (id : ℕ) (px py x y : ℤ)
    → IsServerGrid m
    → IsServerGrid (move_id m id px py x y)
unfolding move_id
grid-move_id m id px py x y g = ground arith

pub grid-insert_id :
    (m : SectorManager) (id : ℕ) (x y : ℤ) → IsServerGrid m → IsServerGrid (insert_id m id x y)
unfolding insert_id
grid-insert_id m id x y g = g

self_eq : (id : ℕ) → (id == id) ≡ true
self_eq id = ground arith

exchange_stays : (s : Session) → ((compare_and_change_state s accept ingame).1.info ≡ s.info)
unfolding compare_and_change_state
exchange_stays s = ground arith

pub still_awake : (s s' : Session) → s'.state ≡ s.state → is_awake s' ≡ true → is_awake s ≡ true
unfolding is_state
still_awake s s' state a = rw (← state) a

module _ {S : ℕ → Bool} where
  -- A change of the rest of the world.
  pub rest-IsPlaced :
      (w w' : World)
      → w'.clients ≡ w.clients
      → w'.sectors ≡ w.sectors
      → w'.timers ≡ w.timers
      → w'.database ≡ w.database
      → IsPlaced S w
      → IsPlaced S w'
  rest-IsPlaced w w' clients sectors timers database h = record {
    grid = rw sectors h.grid;
    clients = λ j. rw (clients, sectors) (h.clients j);
    timers = rw timers h.timers;
    rows = rw database h.rows;
  }

  -- A change of one client, and of the sectors.
  pub change-IsPlaced :
      {T : ℕ → Bool} (w : World) (id : ℕ) (f : Session → Session) (m : SectorManager)
      → IsServerGrid m
      → IsPlacedAt S m id (f (w.clients id))
      → ((j : ℕ) → (j == id) ≡ false → IsPlacedAt S m j (w.clients j))
      → IsPlaced T w
      → IsPlaced S (let w' = modify w id f in record w' { sectors = m })
  change-IsPlaced w id f m grid here there h = record {
    grid = grid;
    clients = modify-cases (IsPlacedAt S m) w id f here there;
    timers = h.timers;
    rows = h.rows;
  }

  -- A client who stays where he is
  pub stay-IsPlaced :
      (w : World) (id : ℕ) (f : Session → Session)
      → (f (w.clients id)).info.x ≡ (w.clients id).info.x
      → (f (w.clients id)).info.y ≡ (w.clients id).info.y
      → (is_awake (f (w.clients id)) ≡ true → InWorld (w.clients id).info)
      → IsPlaced S w
      → IsPlaced S (modify w id f)
  stay-IsPlaced w id f x y awake h =
      change-IsPlaced w id f w.sectors h.grid
        (record {
          held = rw (x, y) (h.clients id).held;
          awake_in = λ a. rw (x, y) (awake a);
          inside = rw (x, y) (h.clients id).inside;
        })
        (λ j other. h.clients j) h

  -- The others, in sectors that still hold what they held
  pub still_placed :
      (m m' : SectorManager) (j : ℕ) (s : Session)
      → (Holds m j s.info.x s.info.y → Holds m' j s.info.x s.info.y)
      → IsPlacedAt S m j s
      → IsPlacedAt S m' j s
  still_placed m m' j s holds h = record {
    held = λ place. holds (h.held place);
    awake_in = h.awake_in;
    inside = h.inside;
  }

  -- A client who moves
  pub relocate-IsPlaced :
      (w : World) (id : ℕ) (f : Session → Session)
      → Shift (w.clients id) (f (w.clients id))
      → IsPlaced S w
      → IsPlaced S (relocate w id f)
  relocate-IsPlaced w id f shift h = rw (self_eq id) (
      change-IsPlaced w id f m (grid-move_id w.sectors id px py x y h.grid)
        (record {
          held = arrives;
          awake_in =
              λ a. shift.stays ((h.clients id).awake_in (still_awake _ _ shift.same_state a));
          inside = λ e. shift.stays ((h.clients id).inside e);
        })
        (λ j other. still_placed w.sectors m j (w.clients j) (stays j other) (h.clients j)) h)
    where
      px : ℤ
      px = (w.clients id).info.x

      py : ℤ
      py = (w.clients id).info.y

      x : ℤ
      x = (f (w.clients id)).info.x

      y : ℤ
      y = (f (w.clients id)).info.y

      m : SectorManager
      m = move_id w.sectors id px py x y

      arrives : InWorld (f (w.clients id)).info → Holds m id x y
      arrives place = elim (Bool-cases (eqb_ℤ px x && eqb_ℤ py y)) [
        | inl same ↦ move_id-Holds w.sectors id px py x y (
            (h.clients id).held
              (rw (eqb_ℤ→eq px x (ground arith), eqb_ℤ→eq py y (ground arith)) place))
        | inr moved ↦ move_id-arrives w.sectors id px py x y moved
      ]

      stays :
          (j : ℕ)
          → (j == id) ≡ false
          → Holds w.sectors j (w.clients j).info.x (w.clients j).info.y
          → Holds m j (w.clients j).info.x (w.clients j).info.y
      stays j other h =
          rw (get_sector_index-move_id, move_id-keeps w.sectors id px py x y j _ other) h

  -- A client who enters the game
  pub enter-IsPlaced :
      (w : World) (id : ℕ) (f : Session → Session)
      → InWorld (f (w.clients id)).info
      → IsPlaced S w
      → IsPlaced S (put_in_game (modify w id f) id)
  unfolding put_in_game
  enter-IsPlaced w id f place h = rw (self_eq id) (
      stay-IsPlaced entered id (λ s. (compare_and_change_state s accept ingame).1)
        (ap (λ (i : PlayerInfo). i.x) (exchange_stays (entered.clients id)))
        (ap (λ (i : PlayerInfo). i.y) (exchange_stays (entered.clients id)))
        (λ a. rw (self_eq id) place)
        (change-IsPlaced w id f m (grid-insert_id w.sectors id x y h.grid)
          (record {
            held = λ p. insert_id-Holds w.sectors id x y;
            awake_in = λ a. place;
            inside = λ e. place;
          })
          (λ j other.
            still_placed w.sectors m j (w.clients j)
              (insert_id-keeps w.sectors id x y j (w.clients j).info.x (w.clients j).info.y)
              (h.clients j))
          h))
    where
      x : ℤ
      x = (f (w.clients id)).info.x

      y : ℤ
      y = (f (w.clients id)).info.y

      m : SectorManager
      m = insert_id w.sectors id x y

      entered : World
      entered = let w' = modify w id f in record w' { sectors = m }
