-- ===== src/Client/Scene.antt =====
-- GameServer/D2DApp/Graphics.h and Graphics.cpp, without the drawing: the objects that the scene shows.
-- An object is a pointer, `none` for null. `fault` is set where the source follows a null pointer.
-- Each operation is one step, also `Update` and `CreateAttackArea`, which do not take the mutex.
pub mod Frames
use server_programming.Base.{
  ℕ, ◌+◌, Bool, true, false, not, Option, none, some, List, [], ◌∷◌, ◌++◌, map, ltb, ◌==◌, ◌||◌,
  if◌then◌else◌,
}
use server_programming.Base.Dict.{lookup, assign, remove}
use server_programming.Base.Int.{ℤ, pos, ◌+ℤ◌, ◌-ℤ◌}
use server_programming.Client.GameObject.{
  GameObject, Status, status_of, set_coord, set_chat, set_info,
}
use server_programming.Client.GameObject

-- A tile of an attack, which is shown for 600 ms.
pub record Effect : Type 0 where
  pub x : ℤ
  pub y : ℤ
  pub start_time : ℕ

pub record Scene : Type 0 where
  pub player_id : ℕ
  pub moving_objects : List (ℕ × Option GameObject)
  pub effects : List Effect
  pub quitting : Bool
  pub fault : Bool

unfoldable pub new : Scene
new = record { player_id = 0; moving_objects = []; effects = []; quitting = false; fault = false }

unfoldable pub fail : Scene → Scene
fail s = record s { fault = true }

unfoldable pub initialize_player : Scene → ℕ → (x y level hp max_hp exp : ℤ) → List ℕ → Scene
unfolding GameObject.new
initialize_player s id x y level hp max_hp exp name =
    let player = GameObject.new name 0 x y (some (status_of level hp max_hp exp)) in
    record s { moving_objects = assign id (some player) s.moving_objects; player_id = id }

unfoldable pub create_new_object : Scene → ℕ → ℕ → List ℕ → ℤ → ℤ → Scene
unfolding GameObject.new
create_new_object s id object_type name x y = record s {
  moving_objects = assign id (some (GameObject.new name object_type x y none)) s.moving_objects;
}

-- What a method does with the object that it finds.
abbrev pub at_slot : Scene → ℕ → Option (Option GameObject) → (GameObject → GameObject) → Scene
at_slot s id none f = s
at_slot s id (some none) f = fail s
at_slot s id (some (some o)) f = record s {
  moving_objects = assign id (some (f o)) s.moving_objects;
}

unfoldable pub modify_object : Scene → ℕ → (GameObject → GameObject) → Scene
unfolding fail
modify_object s id f = at_slot s id (lookup id s.moving_objects) f

unfoldable pub update_player_position : Scene → ℕ → ℤ → ℤ → Scene
unfolding modify_object set_coord
update_player_position s id x y = modify_object s id (λ o. set_coord o x y)

unfoldable pub update_player_chat : Scene → ℕ → List ℕ → Scene
unfolding modify_object set_chat
update_player_chat s id msg = modify_object s id (λ o. set_chat o msg)

unfoldable pub update_player_status : Scene → (level hp max_hp exp : ℤ) → Scene
unfolding modify_object set_info
update_player_status s level hp max_hp exp =
    modify_object s s.player_id (λ o. set_info o level hp max_hp exp)

unfoldable pub erase_object : Scene → ℕ → Scene
erase_object s id = record s { moving_objects = remove id s.moving_objects }

-- The two loops round the player's coordinates
abbrev pub attack_tiles : ℤ → ℤ → List (ℤ × ℤ)
attack_tiles x y =
    (x -ℤ pos 1, y -ℤ pos 1)
    ∷ (x, y -ℤ pos 1)
    ∷ (x +ℤ pos 1, y -ℤ pos 1)
    ∷ (x -ℤ pos 1, y)
    ∷ (x, y)
    ∷ (x +ℤ pos 1, y)
    ∷ (x -ℤ pos 1, y +ℤ pos 1)
    ∷ (x, y +ℤ pos 1)
    ∷ (x +ℤ pos 1, y +ℤ pos 1)
    ∷ []

-- `operator[]` makes a null pointer for a key that is not there.
abbrev pub attack_from : Scene → Option (Option GameObject) → ℕ → Scene
attack_from s none now = fail s
attack_from s (some none) now = fail s
attack_from s (some (some o)) now = record s {
  effects =
      map (λ (t : ℤ × ℤ). record { x = t.0; y = t.1; start_time = now }) (attack_tiles o.x o.y)
      ++ s.effects;
}

unfoldable pub create_attack_area : Scene → ℕ → Scene
unfolding fail
create_attack_area s now = attack_from s (lookup s.player_id s.moving_objects) now

unfoldable pub quit : Scene → Scene
quit s = record s { quitting = true }

-- The name, empty for an id that is not found.
abbrev pub name_at : Scene → Option (Option GameObject) → List ℕ × Scene
name_at s none = ([], s)
name_at s (some none) = ([], fail s)
name_at s (some (some o)) = (o.name, s)

unfoldable pub get_player_name : Scene → ℕ → List ℕ × Scene
unfolding fail
get_player_name s id = name_at s (lookup id s.moving_objects)

unfoldable pub erase_time_out_objects : ℕ → List Effect → List Effect
erase_time_out_objects now [] = []
erase_time_out_objects now (e ∷ effects) =
    let rest = erase_time_out_objects now effects in
    if ltb (e.start_time + 600) now then rest else e ∷ rest

-- The loop of `Update` over the objects: whether a pointer was null, and the objects.
unfoldable pub update_all : List (ℕ × Option GameObject) → ℕ → Bool × List (ℕ × Option GameObject)
unfolding GameObject.update
update_all [] elapsed = (false, [])
update_all ((id, none) ∷ objects) elapsed =
    let rest = update_all objects elapsed in (true, (id, none) ∷ rest.1)
update_all ((id, some o) ∷ objects) elapsed =
    let rest = update_all objects elapsed in
    (rest.0, (id, some (GameObject.update o elapsed)) ∷ rest.1)

-- `Update` by the slot of the player. `operator[]` makes a null pointer for a key that is not there.
abbrev pub update_from : Scene → Option (Option GameObject) → ℕ → ℕ → Scene
update_from s none elapsed now = record s {
  moving_objects = assign s.player_id none s.moving_objects;
}
update_from s (some none) elapsed now = s
update_from s (some (some o)) elapsed now =
    let updated = update_all s.moving_objects elapsed in
    record s {
      moving_objects = updated.1;
      effects = erase_time_out_objects now s.effects;
      fault = s.fault || updated.0;
    }

unfoldable pub update : Scene → ℕ → ℕ → Scene
update s elapsed now = update_from s (lookup s.player_id s.moving_objects) elapsed now
