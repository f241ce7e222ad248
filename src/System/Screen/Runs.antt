-- ===== src/System/Screen/Runs.antt =====
-- Every screen is faithful in every world that the server reaches.
use server_programming.Base.{ℕ, ◌≡◌, refl, inl, inr, false, Bool-cases, arith}
use server_programming.Base.Sets.{mem}
use server_programming.Base.Int.{ℤ, pos}
use server_programming.Server.PlayerInfo.{npc_id_start}
use server_programming.Server.Session.{
  Session, accept, ingame, sleep, is_state, find_and_insert_view_id, find_and_erase_view_id,
  compare_and_change_state, set_attack_duration, init_state,
}
use server_programming.Server.Session
use server_programming.Server.DbHandler.{Database}
use server_programming.Server.World.{World, modify, add_timer, event_npc_attack, execute_lua_func}
use server_programming.Server.Sight.{be_seen}
use server_programming.Server.Sight.Views.{views, views-find_insert, views-find_erase}
use server_programming.Server.Npc.{strike, npc_attack, move_npc, init_one_npc, init_npc}
use server_programming.Server.Clients.{as_gm, as_player, put_in_game}
use server_programming.Server.Completion.{on_npc_move, keep_alive, start}
use server_programming.System.Runs.{Reached, begin, next}
use server_programming.System.Keep.{Leaves, forget, for_range-keeps}
use server_programming.System.Keep.Npcs.{move_npc-keeps}
use server_programming.System.Keep.Events.{Step-keeps}
use server_programming.System.Screen.{
  IsFaithful, screen, quiet, quiet_modify, still-IsFaithful, put-IsFaithful, remove-IsFaithful,
  move-IsFaithful, status_change-IsFaithful, battle_result-IsFaithful, chat-IsFaithful,
  lua-IsFaithful, login_ok-IsFaithful, login_fail-IsFaithful, fail-IsFaithful, show-IsFaithful,
  hide-IsFaithful,
}

-- An insertion that finds the id, and an erasure that does not, change no view list.
found-views :
    (w : World) (id pid : ℕ)
    → (find_and_insert_view_id (w.clients id) pid).0 ≡ false
    → (j x : ℕ) → views (modify w id (λ s. (find_and_insert_view_id s pid).1)) j x ≡ views w j x
unfolding find_and_insert_view_id
found-views w id pid old j x = ground arith

missed-views :
    (w : World) (id pid : ℕ)
    → (find_and_erase_view_id (w.clients id) pid).0 ≡ false
    → (j x : ℕ) → views (modify w id (λ s. (find_and_erase_view_id s pid).1)) j x ≡ views w j x
unfolding find_and_erase_view_id
missed-views w id pid new j x = ground arith

be_seen-IsFaithful : (me pid : ℕ) (w : World) → IsFaithful w → IsFaithful (be_seen me pid w)
unfolding be_seen
be_seen-IsFaithful me pid w h = elim (Bool-cases (find_and_insert_view_id (w.clients pid) me).0) [
  | inl new ↦ rw new (put-IsFaithful w _ pid me refl refl (views-find_insert w pid me) h)
  | inr old ↦
      rw old
        (move-IsFaithful _ pid me (still-IsFaithful w _ refl refl (found-views w pid me old) h))
]

forget-IsFaithful : (w : World) (pid me : ℕ) → IsFaithful w → IsFaithful (forget w pid me)
forget-IsFaithful w pid me h = elim (Bool-cases (find_and_erase_view_id (w.clients pid) me).0) [
  | inl old ↦ rw old (remove-IsFaithful w _ pid me refl refl (views-find_erase w pid me) h)
  | inr new ↦ rw new (still-IsFaithful w _ refl refl (missed-views w pid me new) h)
]

strike-view_list : (s : Session) (power : ℤ) → (strike s power).view_list ≡ s.view_list
unfolding strike
strike-view_list s power = ground arith

npc_attack-IsFaithful :
    (npc player : ℕ) (w : World) → IsFaithful w → IsFaithful (npc_attack w npc player)
unfolding npc_attack set_attack_duration
npc_attack-IsFaithful npc player w h = status_change-IsFaithful _ player (
    battle_result-IsFaithful _ player npc power (pos 1) (
      quiet_modify paused player (λ s. strike s power) (λ s. strike-view_list s power)
        (quiet_modify _ npc (λ s. set_attack_duration s w.now 1000) (λ s. refl)
          (lua-IsFaithful w npc event_npc_attack player h))))
  where
    paused : World
    paused =
        modify (execute_lua_func w npc event_npc_attack player) npc
          (λ s. set_attack_duration s w.now 1000)

    power : ℤ
    power = (paused.clients npc).attack_power

exchange-view_list :
    (s : Session) → (compare_and_change_state s accept ingame).1.view_list ≡ s.view_list
unfolding compare_and_change_state
exchange-view_list s = ground arith

put_in_game-IsFaithful : (id : ℕ) (w : World) → IsFaithful w → IsFaithful (put_in_game w id)
unfolding put_in_game
put_in_game-IsFaithful id w h =
    quiet w (put_in_game w id) refl refl (λ j. ground (arith, exchange-view_list (w.clients j))) h

-- One session changes, and with it the place at which the sectors hold its id.
modify-IsFaithful :
    (w w' : World) (id : ℕ) (f : Session → Session)
    → (f (w.clients id)).view_list ≡ (w.clients id).view_list
    → w'.clients ≡ (modify w id f).clients
    → w'.sent ≡ w.sent
    → w'.fault ≡ w.fault
    → IsFaithful w
    → IsFaithful w'
modify-IsFaithful w w' id f same clients sent fault =
    quiet w w' sent fault (λ j. rw clients (ground (arith, same)))

steps-IsFaithful : Leaves IsFaithful (λ id. Unit {0})
unfolding add_timer as_gm as_player set_attack_duration
steps-IsFaithful = record {
  core = λ w w' same. quiet w w' same.same_sent same.same_fault (λ j. rw same.same_clients refl);
  session = λ w id f plain. modify-IsFaithful w _ id f plain.same_view refl refl refl;
  rise = λ w id f r list place. quiet_modify w id f list;
  shift = λ w id f shifted. modify-IsFaithful w _ id f shifted.same_view refl refl refl;
  fails = λ w h. fail-IsFaithful w;
  move = move-IsFaithful;
  status_change = status_change-IsFaithful;
  battle_result = battle_result-IsFaithful;
  login_ok = login_ok-IsFaithful;
  login_fail = login_fail-IsFaithful;
  chat = chat-IsFaithful;
  show = show-IsFaithful;
  hide = hide-IsFaithful;
  seen = be_seen-IsFaithful;
  forgets = forget-IsFaithful;
  timer = λ w id target type duration npc. quiet w _ refl refl (λ j. refl);
  take = λ w. quiet w _ refl refl (λ j. refl);
  due = λ w e h found revive. tt;
  struck = λ npc player w allowed here. npc_attack-IsFaithful npc player w;
  gm = λ w id name h.
      put_in_game-IsFaithful id _ (quiet_modify w id (λ s. as_gm s name) (λ s. refl) h);
  player = λ w id name info row h.
      put_in_game-IsFaithful id _ (quiet_modify w id (λ s. as_player s info w.now) (λ s. refl) h);
}

on_npc_move-IsFaithful :
    (w : World) (id target : ℕ) → IsFaithful w → IsFaithful (on_npc_move w id target)
unfolding on_npc_move init_state add_timer
on_npc_move-IsFaithful w id target h =
    let w' = move_npc w id target in
    let moved = move_npc-keeps steps-IsFaithful id target w h in
    elim (Bool-cases (is_state (w.clients id) ingame)) [
      | inr away ↦ rw away h
      | inl here ↦ elim (Bool-cases (keep_alive w' id npc_id_start 0)) [
        | inl again ↦ rw (here, again) (quiet w' _ refl refl (λ j. refl) moved)
        | inr alone ↦
            rw (here, alone) (quiet_modify w' id (λ s. init_state s sleep) (λ s. refl) moved)
      ]
    ]

init_one_npc-IsFaithful : (id : ℕ) (w : World) → IsFaithful w → IsFaithful (init_one_npc id w)
unfolding init_one_npc
init_one_npc-IsFaithful id w = quiet w _ refl refl (λ j. ground arith)

start-IsFaithful :
    (database : Database) (rand : ℕ → ℕ) (now : ℕ) → IsFaithful (start database rand now)
unfolding start init_npc screen Session.new mem
start-IsFaithful database rand now =
    for_range-keeps _ _ init_one_npc init_one_npc-IsFaithful _
      (record { shows = λ ok j x other. refl })

-- In every world that the server reaches from its start, by any sequence of completed operations,
-- timer rounds and passing time, unless it has left its defined behaviour: the packets sent to a slot
-- leave exactly those ids on the screen, apart from the slot's own, that the slot's view list holds.
pub reached-IsFaithful :
    {database : Database} {rand : ℕ → ℕ} {now : ℕ} {w : World}
    → Reached database rand now w
    → IsFaithful w
reached-IsFaithful begin = start-IsFaithful _ _ _
reached-IsFaithful (next r s) =
    Step-keeps steps-IsFaithful on_npc_move-IsFaithful s (reached-IsFaithful r)
