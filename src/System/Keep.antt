-- ===== src/System/Keep.antt =====
-- What a statement about the server must survive so that all of the server's steps keep it: the few
-- ways in which its handlers change the world. `Leaves` lists them; the children go from there to whole
-- steps, once for all such statements.
pub mod Npcs
pub mod Sights
pub mod Handlers
pub mod Events
use server_programming.Base.{
  ℕ, zero, suc, ◌≡◌, ◌⊎◌, inl, inr, Bool, true, false, ◌||◌, Bool-cases, Option, none, some,
  Option-cases, List, [], ◌∷◌, if◌then◌else◌, ◌%◌,
}
use server_programming.Base.Int.{ℤ, pos}
use server_programming.Server.PlayerInfo.{PlayerInfo, IsCoordinate, world_width, world_height}
use server_programming.Server.Geometry.{is_npc}
use server_programming.Server.SectorManager.{move_id}
use server_programming.Server.Session.{
  Session, ingame, sleep, is_state, insert_view_id, erase_view_id, find_and_erase_view_id,
  is_same_position,
}
use server_programming.Server.Timer.{EventType, TimerEvent, npc_revive, take_due}
use server_programming.Server.DbHandler.{connect_with_id}
use server_programming.Server.World.{
  World, LuaEvent, lua_message, for_each, for_range, modify, fail, send_put_object_packet,
  send_move_packet, send_remove_packet, send_status_change_packet, send_battle_result_packet,
  send_chat_packet, send_login_ok_packet, send_login_fail_packet, execute_lua_func, add_timer,
}
use server_programming.Server.Npc.{npc_attack}
use server_programming.Server.Sight.{be_seen}
use server_programming.Server.Clients.{as_gm, as_player, put_in_game}

abbrev pub is_awake : Session → Bool
is_awake s = is_state s ingame || is_state s sleep

abbrev pub InWorld : PlayerInfo → Type 0
InWorld info = IsCoordinate info.x world_width × IsCoordinate info.y world_height

-- A session with the same view list at the same place, which is active only if it was.
pub record Plain (s s' : Session) : Type 0 where
  pub same_view : s'.view_list ≡ s.view_list
  pub same_x : s'.info.x ≡ s.info.x
  pub same_y : s'.info.y ≡ s.info.y
  pub awake : is_awake s' ≡ true → is_awake s ≡ true

-- A session with the same view list and state, at a place that is in the world if the old one was.
pub record Shift (s s' : Session) : Type 0 where
  pub same_view : s'.view_list ≡ s.view_list
  pub same_state : s'.state ≡ s.state
  pub stays : InWorld s.info → InWorld s'.info

-- The same clients and sectors, with the same packets sent.
pub record SameCore (w w' : World) : Type 0 where
  pub same_clients : w'.clients ≡ w.clients
  pub same_sectors : w'.sectors ≡ w.sectors
  pub same_timers : w'.timers ≡ w.timers
  pub same_sent : w'.sent ≡ w.sent
  pub same_fault : w'.fault ≡ w.fault
  pub same_database : w'.database ≡ w.database

-- A client at a new place, which the sectors follow
abbrev pub relocate : World → ℕ → (Session → Session) → World
relocate w id f =
    let prev = (w.clients id).info in
    let w' = modify w id f in
    let next = (w'.clients id).info in
    record w' { sectors = move_id w.sectors id prev.x prev.y next.x next.y }

-- An id is taken from a view list, and the packet for it is sent if it was there.
abbrev pub forget : World → (pid me : ℕ) → World
forget w pid me =
    let w' = modify w pid (λ s. (find_and_erase_view_id s me).1) in
    if (find_and_erase_view_id (w.clients pid) me).0 then send_remove_packet w' pid me else w'

-- The ways to change the world; `Rises id` says that `id` may become active by itself.
pub record Leaves (P : World → Type 0) (Rises : ℕ → Type 0) : Type 0 where
  pub core : (w w' : World) → SameCore w w' → P w → P w'
  pub session :
      (w : World) (id : ℕ) (f : Session → Session)
      → Plain (w.clients id) (f (w.clients id))
      → P w
      → P (modify w id f)
  pub rise :
      (w : World) (id : ℕ) (f : Session → Session)
      → Rises id
      → ((s : Session) → (f s).view_list ≡ s.view_list)
      → ((s : Session) → ((f s).info.x ≡ s.info.x) × ((f s).info.y ≡ s.info.y))
      → P w
      → P (modify w id f)
  pub shift :
      (w : World) (id : ℕ) (f : Session → Session)
      → Shift (w.clients id) (f (w.clients id))
      → P w
      → P (relocate w id f)
  pub fails : (w : World) → P w → P (fail w)
  pub move : (w : World) (s t : ℕ) → P w → P (send_move_packet w s t)
  pub status_change : (w : World) (s : ℕ) → P w → P (send_status_change_packet w s)
  pub battle_result :
      (w : World) (s t : ℕ) (val type : ℤ) → P w → P (send_battle_result_packet w s t val type)
  pub login_ok : (w : World) (s : ℕ) → P w → P (send_login_ok_packet w s)
  pub login_fail :
      (w : World) (s : ℕ) (reason : ℤ) → P w → P (send_login_fail_packet w (some s) reason)
  pub chat : (w : World) (s t : ℕ) (msg : List ℕ) → P w → P (send_chat_packet w s t msg)
  pub show :
      (w : World) (id pid : ℕ)
      → P w
      → P (send_put_object_packet (modify w id (λ s. insert_view_id s pid)) id pid)
  pub hide :
      (w : World) (id pid : ℕ)
      → P w
      → P (send_remove_packet (modify w id (λ s. erase_view_id s pid)) id pid)
  pub seen : (me pid : ℕ) (w : World) → P w → P (be_seen me pid w)
  pub forgets : (w : World) (pid me : ℕ) → P w → P (forget w pid me)
  pub timer :
      (w : World) (id target : ℕ) (type : EventType) (duration : ℕ)
      → (type ≡ npc_revive → is_npc id ≡ true)
      → P w
      → P (add_timer w id target type duration)
  pub take : (w : World) → P w → P (record w { timers = (take_due w.now w.timers).1 })
  pub due :
      (w : World) (e : TimerEvent)
      → P w
      → (take_due w.now w.timers).0 ≡ some e
      → e.type ≡ npc_revive
      → Rises e.object_id
  pub struck :
      (npc player : ℕ) (w : World)
      → (is_npc npc ≡ true) ⊎ (is_awake (w.clients player) ≡ true)
      → is_same_position (w.clients npc) (w.clients player).info.x (w.clients player).info.y ≡ true
      → P w
      → P (npc_attack w npc player)
  pub gm :
      (w : World) (id : ℕ) (name : List ℕ)
      → P w
      → P (put_in_game (modify w id (λ s. as_gm s name)) id)
  pub player :
      (w : World) (id : ℕ) (name : List ℕ) (info : PlayerInfo)
      → connect_with_id w.database name ≡ some (pos 1, info)
      → P w
      → P (put_in_game (modify w id (λ s. as_player s info w.now)) id)

module _ {P : World → Type 0} {Rises : ℕ → Type 0} (k : Leaves P Rises) where
  pub lua-keeps : (w : World) (id : ℕ) (e : LuaEvent) (p : ℕ) → P w → P (execute_lua_func w id e p)
  unfolding execute_lua_func
  lua-keeps w id e p h = elim (Option-cases (w.clients id).lua) [
    | inl silent ↦ rw (silent, execute_lua_func) h
    | inr (my_id, speaks) ↦ rw (speaks, execute_lua_func) (k.chat w p my_id (lua_message e) h)
  ]

-- The loops
pub for_each-keeps :
    {P : World → Type 0} (ids : List ℕ) (body : ℕ → World → World)
    → ((i : ℕ) (w : World) → P w → P (body i w))
    → (w : World) → P w
    → P (for_each ids body w)
unfolding for_each
for_each-keeps [] body step w h = h
for_each-keeps (i ∷ ids) body step w h = for_each-keeps ids body step (body i w) (step i w h)

pub for_range-keeps :
    {P : World → Type 0} (count first : ℕ) (body : ℕ → World → World)
    → ((i : ℕ) (w : World) → P w → P (body i w))
    → (w : World) → P w
    → P (for_range count first body w)
unfolding for_range
for_range-keeps zero first body step w h = h
for_range-keeps (suc count) first body step w h =
    for_range-keeps count (suc first) body step (body first w) (step first w h)
