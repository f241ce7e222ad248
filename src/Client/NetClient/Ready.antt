-- ===== src/Client/NetClient/Ready.antt =====
-- From the login on, packets and frames follow no null pointer.
use server_programming.Base.{
  ℕ, ◌≡◌, refl, inl, inr, Bool, true, false, not, ◌&&◌, Bool-cases, List, [], ◌∷◌, arith, ◌==◌,
}
use server_programming.Base.Dict.{lookup-remove}
use server_programming.Base.Int.{ℤ, negsuc, eqb_ℤ}
use server_programming.Network.Protocol.{
  Packet, login_ok, login_fail, put_object, move, remove_object, status_change, battle_result, chat,
}
use server_programming.Client.Scene.{
  Scene, update_player_position, update_player_chat, update_player_status, initialize_player,
  create_new_object, erase_object, quit, update,
}
use server_programming.Client.Scene.Frames.{
  IsReady, has_null, own_key, has_null-assign, has_null-remove, put-IsReady, modify-IsReady,
  name-IsReady, attack-IsReady, update-IsReady,
}
use server_programming.Client.NetClient.{NetClient, handle, set_scene}

-- A packet that the network thread handles, or a frame of the window's thread
pub data Event : Type 0 where
  packet : (now : ℕ) (p : Packet) → Event
  frame : (elapsed now : ℕ) → Event

unfoldable pub happen : NetClient → Event → NetClient
unfolding handle update
happen c (packet now p) = (handle c now p).1
happen c (frame elapsed now) = set_scene c (update c.scene elapsed now)

unfoldable pub happen_all : NetClient → List Event → NetClient
happen_all c [] = c
happen_all c (e ∷ events) = happen_all (happen c e) events

-- The event does not take the player off his own screen.
unfoldable pub spares : ℕ → Event → Bool
spares player (packet now (remove_object id)) = not (player == id)
spares player _ = true

unfoldable pub all_spare : NetClient → List Event → Bool
all_spare c [] = true
all_spare c (e ∷ events) = spares c.scene.player_id e && all_spare (happen c e) events

-- A login makes the scene ready for frames, unless a frame or a packet before it left a null pointer.
pub login-IsReady :
    (c : NetClient) (now id : ℕ) (x y level hp max_hp exp : ℤ)
    → c.scene.fault ≡ false
    → has_null c.scene.moving_objects ≡ false
    → IsReady (handle c now (login_ok id x y level hp max_hp exp)).1.scene
unfolding handle initialize_player
login-IsReady c now id x y level hp max_hp exp sound objects = record {
  sound = sound;
  objects = has_null-assign id _ c.scene.moving_objects objects;
  player = rw (own_key id _ c.scene.moving_objects) refl;
}

remove-IsReady :
    (s : Scene) (id : ℕ) → (s.player_id == id) ≡ false → IsReady s → IsReady (erase_object s id)
unfolding erase_object
remove-IsReady s id other h = record {
  sound = h.sound;
  objects = has_null-remove id s.moving_objects h.objects;
  player = rw (lookup-remove id s.player_id s.moving_objects, other) h.player;
}

happen-IsReady :
    (c : NetClient) (e : Event)
    → spares c.scene.player_id e ≡ true
    → IsReady c.scene
    → IsReady (happen c e).scene
unfolding happen spares handle update_player_position update_player_chat update_player_status
    create_new_object quit
happen-IsReady c (frame elapsed now) kind h = update-IsReady c.scene elapsed now h
happen-IsReady c (packet now (login_ok id x y level hp max_hp exp)) kind h =
    login-IsReady c now id x y level hp max_hp exp h.sound h.objects
happen-IsReady c (packet now (login_fail reason)) kind h = record {
  sound = h.sound;
  objects = h.objects;
  player = h.player;
}
happen-IsReady c (packet now (put_object id x y object_type name)) kind h =
    put-IsReady c.scene id _ h
happen-IsReady c (packet now (move id x y move_time)) kind h = modify-IsReady c.scene id _ h
happen-IsReady c (packet now (remove_object id)) kind h = remove-IsReady c.scene id (ground arith) h
happen-IsReady c (packet now (status_change level hp max_hp exp)) kind h =
    modify-IsReady c.scene c.scene.player_id _ h
happen-IsReady c (packet now (battle_result result_type target value)) kind h =
    elim (Bool-cases (eqb_ℤ result_type (negsuc 0))) [
      | inl effect ↦ rw effect (attack-IsReady c.scene now h)
      | inr log ↦ rw log (name-IsReady c.scene target h)
    ]
happen-IsReady c (packet now (chat id message)) kind h =
    name-IsReady _ id (modify-IsReady c.scene id _ h)

-- From a scene with the player's object and without null pointers on, as after a login without an
-- earlier frame, no sequence of packets and frames that does not remove the player's own object
-- follows a null pointer.
pub frames_follow_no_null :
    (events : List Event) (c : NetClient)
    → IsReady c.scene
    → all_spare c events ≡ true
    → IsReady (happen_all c events).scene
unfolding happen_all all_spare
frames_follow_no_null [] c h kind = h
frames_follow_no_null (e ∷ events) c h kind =
    frames_follow_no_null events (happen c e) (happen-IsReady c e (ground arith) h) (ground arith)
