-- ===== src/Client/NetClient/Screen.antt =====
-- Which objects the scene shows after a packet.
use server_programming.Base.{
  ℕ, ◌≡◌, refl, ap, ◌∙◌, ==_iff, inl, inr, Bool, not, ◌&&◌, ◌||◌, Bool-cases, Option, none, some,
  List, ◌==◌,
}
use server_programming.Base.Dict.{lookup, assign, remove, lookup-assign, lookup-remove}
use server_programming.Base.Int.{negsuc, eqb_ℤ}
use server_programming.Network.Protocol.{
  Packet, login_ok, login_fail, put_object, move, remove_object, status_change, battle_result, chat,
}
use server_programming.Client.GameObject.{GameObject}
use server_programming.Client.Scene.{
  Scene, fail, at_slot, modify_object, initialize_player, create_new_object, update_player_position,
  update_player_chat, update_player_status, erase_object, create_attack_area, attack_from, name_at,
  quit, get_player_name,
}
use server_programming.Client.Scene.Frames.{is_object}
use server_programming.Client.NetClient.{NetClient, handle}

-- The scene has an object of that id.
abbrev pub displays : Scene → ℕ → Bool
displays s x = is_object (lookup x s.moving_objects)

-- What a packet does to the object `x`, by whether it is on the screen: a new object and the player
-- himself appear, and a removed one disappears.
abbrev pub after_packet : Packet → ℕ → Bool → Bool
after_packet (put_object id x' y object_type name) x old = x == id || old
after_packet (login_ok id x' y level hp max_hp exp) x old = x == id || old
after_packet (remove_object id) x old = not (x == id) && old
after_packet (login_fail reason) x old = old
after_packet (move id x' y move_time) x old = old
after_packet (status_change level hp max_hp exp) x old = old
after_packet (battle_result result_type target value) x old = old
after_packet (chat id message) x old = old

object-assign :
    (id x : ℕ) (o : GameObject) (m : List (ℕ × Option GameObject))
    → is_object (lookup x (assign id (some o) m)) ≡ (x == id || is_object (lookup x m))
object-assign id x o m = elim (Bool-cases (x == id)) [
  | inl same ↦ rw (lookup-assign id x (some o) m, same)
  | inr other ↦ rw (lookup-assign id x (some o) m, other)
]

object-remove :
    (id x : ℕ) (m : List (ℕ × Option GameObject))
    → is_object (lookup x (remove id m)) ≡ (not (x == id) && is_object (lookup x m))
object-remove id x m = elim (Bool-cases (x == id)) [
  | inl same ↦ rw (lookup-remove id x m, same)
  | inr other ↦ rw (lookup-remove id x m, other)
]

displays-at_slot :
    (s : Scene) (id : ℕ) (slot : Option (Option GameObject)) (f : GameObject → GameObject)
    → lookup id s.moving_objects ≡ slot
    → (x : ℕ) → displays (at_slot s id slot f) x ≡ displays s x
unfolding fail
displays-at_slot s id none f e x = refl
displays-at_slot s id (some none) f e x = refl
displays-at_slot s id (some (some o)) f e x = elim (Bool-cases (x == id)) [
  | inl same ↦ object-assign id x (f o) s.moving_objects ∙ rw (same, (==_iff x id).0 same, e)
  | inr other ↦ object-assign id x (f o) s.moving_objects ∙ rw other
]

displays-modify :
    (s : Scene) (id : ℕ) (f : GameObject → GameObject) (x : ℕ)
    → displays (modify_object s id f) x ≡ displays s x
unfolding modify_object
displays-modify s id f x = displays-at_slot s id (lookup id s.moving_objects) f refl x

objects-name :
    (s : Scene) (slot : Option (Option GameObject))
    → (name_at s slot).1.moving_objects ≡ s.moving_objects
unfolding fail
objects-name s none = refl
objects-name s (some none) = refl
objects-name s (some (some o)) = refl

objects-attack :
    (s : Scene) (slot : Option (Option GameObject)) (now : ℕ)
    → (attack_from s slot now).moving_objects ≡ s.moving_objects
unfolding fail
objects-attack s none now = refl
objects-attack s (some none) now = refl
objects-attack s (some (some o)) now = refl

-- The handler of a packet shows exactly the objects that were shown before, the one that the packet
-- puts there or the player himself, and without the one that it removes.
pub displays-handle :
    (c : NetClient) (now : ℕ) (p : Packet) (x : ℕ)
    → displays (handle c now p).1.scene x ≡ after_packet p x (displays c.scene x)
unfolding handle update_player_position update_player_chat update_player_status erase_object
    create_new_object initialize_player quit get_player_name create_attack_area
displays-handle c now (login_ok id x' y level hp max_hp exp) x =
    object-assign id x _ c.scene.moving_objects
displays-handle c now (login_fail reason) x = refl
displays-handle c now (put_object id x' y object_type name) x =
    object-assign id x _ c.scene.moving_objects
displays-handle c now (move id x' y move_time) x = displays-modify c.scene id _ x
displays-handle c now (remove_object id) x = object-remove id x c.scene.moving_objects
displays-handle c now (status_change level hp max_hp exp) x =
    displays-modify c.scene c.scene.player_id _ x
displays-handle c now (battle_result result_type target value) x =
    elim (Bool-cases (eqb_ℤ result_type (negsuc 0))) [
      | inl effect ↦ rw effect (
          ap (λ (objects : List (ℕ × Option GameObject)). is_object (lookup x objects))
            (objects-attack c.scene (lookup c.scene.player_id c.scene.moving_objects) now))
      | inr log ↦ rw log (
          ap (λ (objects : List (ℕ × Option GameObject)). is_object (lookup x objects))
            (objects-name c.scene (lookup target c.scene.moving_objects)))
    ]
displays-handle c now (chat id message) x =
    ap (λ (objects : List (ℕ × Option GameObject)). is_object (lookup x objects))
      (objects-name (update_player_chat c.scene id message) _)
    ∙ displays-modify c.scene id _ x
