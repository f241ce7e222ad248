-- ===== src/System/Grid/Runs.antt =====
-- The sectors are in order in every world that the server reaches.
use server_programming.Base.{
  ℕ, zero, suc, ◌+◌, ◌-◌, ◌%◌, ◌≡◌, refl, sym, subst, inl, inr, Bool, true, false, ◌&&◌, ◌||◌,
  Bool-cases, [], ◌∷◌, arith, ◌==◌, ==_iff, leb, ltb,
}
use server_programming.Base.Decimal.{decimal}
use server_programming.Base.Int.{ℤ, pos}
use server_programming.Server.PlayerInfo.{
  PlayerInfo, IsCoordinate, sector_width, sector_height, max_npc, npc_id_start, world_width,
  world_height,
}
use server_programming.Server.PlayerInfo
use server_programming.Server.Geometry.{is_npc}
use server_programming.Server.SectorManager.{insert_id}
use server_programming.Server.SectorManager
use server_programming.Server.SectorManager.Sets.{insert_id-Holds, insert_id-keeps}
use server_programming.Server.Session.{
  Session, ingame, sleep, is_state, init_state, init_lua_engine,
}
use server_programming.Server.Session
use server_programming.Server.Timer.{EventType}
use server_programming.Server.DbHandler.{Database}
use server_programming.Server.World.{World, for_range}
use server_programming.Server.Npc.{move_npc, init_one_npc, init_npc}
use server_programming.Server.Completion.{on_npc_move, keep_alive, start}
use server_programming.Server.Packets.Settle.{IsTracked}
use server_programming.System.Runs.{Reached, begin, next}
use server_programming.System.Keep.{InWorld, is_awake}
use server_programming.System.Keep.Npcs.{move_npc-keeps}
use server_programming.System.Keep.Events.{Step-keeps}
use server_programming.System.Grid.{
  IsSound, IsPlaced, revives_npcs, change-IsPlaced, stay-IsPlaced, still_placed, grid-insert_id,
}
use server_programming.System.Grid.Steps.{steps-IsPlaced}

-- Another test, of which the new cases are inside the world.
retest :
    {S T : ℕ → Bool} (w : World)
    → ((j : ℕ) → T j ≡ true → InWorld (w.clients j).info)
    → IsPlaced S w
    → IsPlaced T w
retest w inside h = record {
  grid = h.grid;
  clients = λ j. record {
    held = (h.clients j).held;
    awake_in = (h.clients j).awake_in;
    inside = inside j;
  };
  timers = h.timers;
  rows = h.rows;
}

-- An NPC that moves was awake, so it is inside the world when it goes to sleep again.
on_npc_move-IsPlaced :
    (w : World) (id target : ℕ) → IsPlaced is_npc w → IsPlaced is_npc (on_npc_move w id target)
unfolding on_npc_move init_state
on_npc_move-IsPlaced w id target h = elim (Bool-cases (is_state (w.clients id) ingame)) [
  | inr away ↦ rw away h
  | inl here ↦ elim (Bool-cases (keep_alive w' id npc_id_start 0)) [
    | inl again ↦
        rw (here, again)
          ((steps-IsPlaced (λ j npc. npc)).timer w' id target EventType.npc_move 1000 (λ e. cc)
            (retest w' (λ j npc. ((moved here).clients j).inside (rw npc refl)) (moved here)))
    | inr alone ↦
        rw (here, alone)
          (stay-IsPlaced w' id (λ s. init_state s sleep) refl refl
            (λ a. ((moved here).clients id).inside (ground arith))
            (retest w' (λ j npc. ((moved here).clients j).inside (rw npc refl)) (moved here)))
  ]
]
  where
    w' : World
    w' = move_npc w id target

    S : ℕ → Bool
    S j = is_npc j || j == id

    inside : is_awake (w.clients id) ≡ true → (j : ℕ) → S j ≡ true → InWorld (w.clients j).info
    inside awake j e = elim (Bool-cases (is_npc j)) [
      | inl npc ↦ (h.clients j).inside npc
      | inr player ↦
          subst (λ k. InWorld (w.clients k).info) (sym ((==_iff j id).0 (ground arith)))
            ((h.clients id).awake_in awake)
    ]

    moved : is_state (w.clients id) ingame ≡ true → IsPlaced S w'
    moved here =
        move_npc-keeps (steps-IsPlaced {S = S} (λ j npc. rw npc refl)) id target w
          (retest w (inside (rw here refl)) h)

-- The NPCs that the loop of `InitNPC` has made before it comes to `after`.
abbrev made : ℕ → ℕ → Bool
made after j = leb npc_id_start j && ltb j after

init_one_npc-IsPlaced :
    (id : ℕ) (w : World) → IsPlaced (made id) w → IsPlaced (made (suc id)) (init_one_npc id w)
unfolding init_one_npc init_lua_engine
init_one_npc-IsPlaced id w h =
    change-IsPlaced w' id npc (insert_id w.sectors id x y) (grid-insert_id w.sectors id x y h.grid)
      (record {
        held = λ p. insert_id-Holds w.sectors id x y;
        awake_in = λ a. place;
        inside = λ e. place;
      })
      (λ j other.
        still_placed w.sectors (insert_id w.sectors id x y) j (w.clients j)
          (insert_id-keeps w.sectors id x y j (w.clients j).info.x (w.clients j).info.y)
          (record {
            held = (h.clients j).held;
            awake_in = (h.clients j).awake_in;
            inside = λ e. (h.clients j).inside (ground arith);
          }))
      (record { grid = h.grid; clients = h.clients; timers = h.timers; rows = h.rows })
  where
    x : ℤ
    x = pos (w.rand w.rand_calls % world_width)

    y : ℤ
    y = pos (w.rand (suc w.rand_calls) % world_height)

    w' : World
    w' = record w { rand_calls = suc (suc w.rand_calls) }

    place : IsCoordinate x world_width × IsCoordinate y world_height
    place = ((refl, omega arith), (refl, omega arith))

    npc : Session → Session
    npc s = init_lua_engine (record s {
      info = record {
        name = b'N' ∷ decimal 7 (id - npc_id_start + 1) [];
        level = pos 5;
        x = x;
        y = y;
        hp = pos 30;
        max_hp = pos 30;
        exp = (w.clients id).info.exp;
      };
      type = Session.npc;
      state = sleep;
      attack_power = pos 10;
    })

init_npcs-IsPlaced :
    (count first : ℕ) (w : World)
    → IsPlaced (made first) w
    → IsPlaced (made (first + count)) (for_range count first init_one_npc w)
unfolding for_range
init_npcs-IsPlaced zero first w h = subst (λ n. IsPlaced (made n) w) (omega arith) h
init_npcs-IsPlaced (suc count) first w h =
    subst (λ n. IsPlaced (made n) (for_range count (suc first) init_one_npc (init_one_npc first w)))
      (omega arith)
      (init_npcs-IsPlaced count (suc first) (init_one_npc first w)
        (init_one_npc-IsPlaced first w h))

start-IsPlaced :
    (database : Database) (rand : ℕ → ℕ) (now : ℕ)
    → IsSound database
    → IsPlaced is_npc (start database rand now)
unfolding start init_npc Session.new PlayerInfo.new SectorManager.new is_npc is_state revives_npcs
start-IsPlaced database rand now sound =
    retest _ (λ j npc. (all.clients j).inside (ground arith)) all
  where
    empty : World
    empty = record {
      clients = Session.new now;
      sectors = SectorManager.new sector_width sector_height;
      timers = [];
      sent = [];
      receiving = [];
      registered = [];
      accepts = 0;
      posted = [];
      updates = [];
      database = database;
      rand = rand;
      rand_calls = 0;
      now = now;
      fault = false;
    }

    all :
        IsPlaced (made (npc_id_start + max_npc)) (for_range max_npc npc_id_start init_one_npc empty)
    all = init_npcs-IsPlaced max_npc npc_id_start empty (record {
      grid = (refl, refl);
      clients = λ j. record {
        held = λ p. absurd (omega arith);
        awake_in = λ a. absurd (ground arith);
        inside = λ e. absurd (ground arith);
      };
      timers = refl;
      rows = sound;
    })

-- In every world that the server reaches from its start, by any sequence of completed operations,
-- timer rounds and passing time, if the rows of the database hold places inside the world: the grid
-- is the server's, every active client stands inside the world, and his id is in the set of the
-- sector of his position.
pub reached-IsTracked :
    {database : Database} {rand : ℕ → ℕ} {now : ℕ} {w : World}
    → IsSound database
    → Reached database rand now w
    → IsTracked w
reached-IsTracked {database = database} {rand = rand} {now = now} {w = w} sound reached = record {
  grid = h.grid;
  in_x = λ j a. ((h.clients j).awake_in a).0;
  in_y = λ j a. ((h.clients j).awake_in a).1;
  held = λ j a. (h.clients j).held ((h.clients j).awake_in a);
}
  where
    placed : {w' : World} → Reached database rand now w' → IsPlaced is_npc w'
    placed begin = start-IsPlaced _ _ _ sound
    placed (next r s) = Step-keeps (steps-IsPlaced (λ j npc. npc)) on_npc_move-IsPlaced s (placed r)

    h : IsPlaced is_npc w
    h = placed reached
