-- ===== src/System/Grid/Changes.antt =====
-- The changes that a step is made of: timer events, answers of the database, packets, view lists.
use server_programming.Base.{
  ℕ, ◌≡◌, ◌<◌, refl, ap, inl, inr, Bool, true, Bool-cases, some, List, [], ◌∷◌, arith, length, ltb,
}
use server_programming.Base.Int.{ℤ, pos, negsuc, to_short, to_short-pos}
use server_programming.Server.PlayerInfo.{
  PlayerInfo, IsCoordinate, world_width, world_height, npc_id_start,
}
use server_programming.Server.PlayerInfo
use server_programming.Server.Geometry.{is_npc}
use server_programming.Server.Session.{
  Session, find_and_insert_view_id, find_and_erase_view_id, revive,
}
use server_programming.Server.Timer.{
  EventType, TimerEvent, npc_move, npc_revive, add_timer_event, take_due,
}
use server_programming.Server.DbHandler.{
  Database, Answer, exec_error, fetch_error, fetched, connect_with_id,
}
use server_programming.Server.World.{
  World, modify, fail, send_put_object_packet, send_move_packet, send_remove_packet,
  send_status_change_packet, send_battle_result_packet, send_chat_packet, send_login_ok_packet,
  send_login_fail_packet,
}
use server_programming.Server.Sight.{be_seen}
use server_programming.System.Keep.{InWorld, forget}
use server_programming.System.Grid.{
  IsSound, IsPlaced, revives_npcs, may_happen, rest-IsPlaced, stay-IsPlaced, still_awake,
}

-- The queue of timer events
happens :
    (type : EventType) (id : ℕ) → (type ≡ npc_revive → is_npc id ≡ true) → may_happen type id ≡ true
unfolding may_happen
happens npc_move id npc = refl
happens npc_revive id npc = npc refl

happened :
    (type : EventType) (id : ℕ) → may_happen type id ≡ true → type ≡ npc_revive → is_npc id ≡ true
unfolding may_happen
happened npc_move id h revive = absurd (ground arith)
happened npc_revive id h revive = h

pub revives-add :
    (e : TimerEvent) (queue : List TimerEvent)
    → (e.type ≡ npc_revive → is_npc e.object_id ≡ true)
    → revives_npcs queue ≡ true
    → revives_npcs (add_timer_event e queue) ≡ true
unfolding revives_npcs add_timer_event
revives-add e [] npc h = ground (arith, happens e.type e.object_id npc)
revives-add e (f ∷ queue) npc h =
    ground (arith, happens e.type e.object_id npc, revives-add e queue npc)

pub revives-take :
    (now : ℕ) (queue : List TimerEvent)
    → revives_npcs queue ≡ true
    → revives_npcs (take_due now queue).1 ≡ true
unfolding revives_npcs take_due
revives-take now [] h = h
revives-take now (e ∷ queue) h = ground arith

pub revives-due :
    (now : ℕ) (queue : List TimerEvent) (e : TimerEvent)
    → revives_npcs queue ≡ true
    → (take_due now queue).0 ≡ some e
    → e.type ≡ npc_revive
    → is_npc e.object_id ≡ true
unfolding revives_npcs take_due
revives-due now [] e h found revive = absurd (ground arith)
revives-due now (f ∷ queue) e h found revive = happened e.type e.object_id (ground arith) revive

-- What the database answers
to_short-IsCoordinate :
    (z : ℤ) (limit : ℕ) → limit < 32768 → IsCoordinate z limit → IsCoordinate (to_short z) limit
to_short-IsCoordinate (pos n) limit small c = rw (to_short-pos n (omega arith)) c
to_short-IsCoordinate (negsuc n) limit small c = absurd (omega arith)

pub row-InWorld :
    (database : Database) (name : List ℕ) (info : PlayerInfo)
    → IsSound database
    → connect_with_id database name ≡ some (pos 1, info)
    → InWorld info
unfolding connect_with_id PlayerInfo.new
row-InWorld database name info sound e = by_answer (database name) refl e
  where
    by_answer :
        (answer : Answer)
        → database name ≡ answer
        → connect_with_id (λ _. answer) name ≡ some (pos 1, info)
        → InWorld info
    by_answer exec_error found e = absurd (ground arith)
    by_answer fetch_error found e = absurd (ground arith)
    by_answer (fetched r) found e =
        let here : (info.x ≡ to_short r.x) × (info.y ≡ to_short r.y) = ground arith in
        let (x, y) = sound name r found in
        rw (here.0, here.1)
          (
            to_short-IsCoordinate r.x world_width (omega arith) x,
            to_short-IsCoordinate r.y world_height (omega arith) y,
          )

module _ {S : ℕ → Bool} where
  pub fail-IsPlaced : (w : World) → IsPlaced S w → IsPlaced S (fail w)
  unfolding fail
  fail-IsPlaced w = rest-IsPlaced w _ refl refl refl refl

  pub move-IsPlaced : (w : World) (s t : ℕ) → IsPlaced S w → IsPlaced S (send_move_packet w s t)
  unfolding send_move_packet
  move-IsPlaced w s t = rest-IsPlaced w _ refl refl refl refl

  pub remove-IsPlaced : (w : World) (s t : ℕ) → IsPlaced S w → IsPlaced S (send_remove_packet w s t)
  unfolding send_remove_packet
  remove-IsPlaced w s t = rest-IsPlaced w _ refl refl refl refl

  pub status_change-IsPlaced :
      (w : World) (s : ℕ) → IsPlaced S w → IsPlaced S (send_status_change_packet w s)
  unfolding send_status_change_packet
  status_change-IsPlaced w s = rest-IsPlaced w _ refl refl refl refl

  pub battle_result-IsPlaced :
      (w : World) (s t : ℕ) (val type : ℤ)
      → IsPlaced S w
      → IsPlaced S (send_battle_result_packet w s t val type)
  unfolding send_battle_result_packet
  battle_result-IsPlaced w s t val type = rest-IsPlaced w _ refl refl refl refl

  pub login_ok-IsPlaced : (w : World) (s : ℕ) → IsPlaced S w → IsPlaced S (send_login_ok_packet w s)
  unfolding send_login_ok_packet
  login_ok-IsPlaced w s = rest-IsPlaced w _ refl refl refl refl

  pub login_fail-IsPlaced :
      (w : World) (s : ℕ) (reason : ℤ)
      → IsPlaced S w
      → IsPlaced S (send_login_fail_packet w (some s) reason)
  unfolding send_login_fail_packet
  login_fail-IsPlaced w s reason = rest-IsPlaced w _ refl refl refl refl

  pub chat-IsPlaced :
      (w : World) (s t : ℕ) (msg : List ℕ) → IsPlaced S w → IsPlaced S (send_chat_packet w s t msg)
  unfolding send_chat_packet
  chat-IsPlaced w s t msg h = elim (Bool-cases (ltb (length msg) 100)) [
    | inl fits ↦ rw fits (rest-IsPlaced w _ refl refl refl refl h)
    | inr long ↦ rw long (fail-IsPlaced w h)
  ]

  pub put_object-IsPlaced :
      (w : World) (s t : ℕ) → IsPlaced S w → IsPlaced S (send_put_object_packet w s t)
  unfolding send_put_object_packet
  put_object-IsPlaced w s t h = elim (Bool-cases (ltb (length (w.clients t).info.name) 20)) [
    | inl fits ↦ rw fits (rest-IsPlaced w _ refl refl refl refl h)
    | inr long ↦ rw long (fail-IsPlaced w h)
  ]

  -- A view list changes.
  pub view-IsPlaced :
      (w : World) (id : ℕ) (f : Session → Session)
      → ((f (w.clients id)).info ≡ (w.clients id).info)
      → ((f (w.clients id)).state ≡ (w.clients id).state)
      → IsPlaced S w
      → IsPlaced S (modify w id f)
  view-IsPlaced w id f info state h =
      stay-IsPlaced w id f (ap (λ (i : PlayerInfo). i.x) info) (ap (λ (i : PlayerInfo). i.y) info)
        (λ a. (h.clients id).awake_in (still_awake _ _ state a)) h

  pub be_seen-IsPlaced : (me pid : ℕ) (w : World) → IsPlaced S w → IsPlaced S (be_seen me pid w)
  unfolding be_seen find_and_insert_view_id
  be_seen-IsPlaced me pid w h =
      let next =
        view-IsPlaced w pid (λ s. (find_and_insert_view_id s me).1) (ground arith) (ground arith)
          h in
      elim (Bool-cases (find_and_insert_view_id (w.clients pid) me).0) [
        | inl new ↦ rw new (put_object-IsPlaced _ pid me next)
        | inr old ↦ rw old (move-IsPlaced _ pid me next)
      ]

  pub forget-IsPlaced : (w : World) (pid me : ℕ) → IsPlaced S w → IsPlaced S (forget w pid me)
  unfolding find_and_erase_view_id
  forget-IsPlaced w pid me h =
      let next =
        view-IsPlaced w pid (λ s. (find_and_erase_view_id s me).1) (ground arith) (ground arith)
          h in
      elim (Bool-cases (find_and_erase_view_id (w.clients pid) me).0) [
        | inl old ↦ rw old (remove-IsPlaced _ pid me next)
        | inr new ↦ rw new next
      ]
