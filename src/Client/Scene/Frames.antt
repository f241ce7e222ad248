-- ===== src/Client/Scene/Frames.antt =====
-- When the scene follows a null pointer (GameServer/D2DApp/Graphics.cpp).
use server_programming.Base.{
  ℕ, ◌≡◌, refl, ◌∙◌, ==_iff, inl, inr, Bool, true, false, ◌||◌, Bool-cases, Option, none, some,
  List, [], ◌∷◌, arith, ◌==◌,
}
use server_programming.Base.Dict.{lookup, assign, remove, lookup-assign}
use server_programming.Base.Int.{ℤ}
use server_programming.Client.GameObject.{GameObject}
use server_programming.Client.Scene.{
  Scene, at_slot, modify_object, initialize_player, attack_from, create_attack_area, name_at,
  get_player_name, update_all, update_from, update,
}

-- Whether a key stands for a null pointer.
unfoldable pub has_null : List (ℕ × Option GameObject) → Bool
has_null [] = false
has_null ((id, none) ∷ m) = true
has_null ((id, some o) ∷ m) = has_null m

-- The pointer of a key
abbrev pub is_object : Option (Option GameObject) → Bool
is_object none = false
is_object (some none) = false
is_object (some (some o)) = true

pub has_null-assign :
    (id : ℕ) (o : GameObject) (m : List (ℕ × Option GameObject))
    → has_null m ≡ false
    → has_null (assign id (some o) m) ≡ false
unfolding has_null assign
has_null-assign id o [] h = refl
has_null-assign id o ((j, none) ∷ m) h = ground arith
has_null-assign id o ((j, some p) ∷ m) h = elim (Bool-cases (id == j)) [
  | inl same ↦ rw same h
  | inr other ↦ rw other (has_null-assign id o m h)
]

pub has_null-remove :
    (id : ℕ) (m : List (ℕ × Option GameObject))
    → has_null m ≡ false
    → has_null (remove id m) ≡ false
unfolding has_null remove
has_null-remove id [] h = refl
has_null-remove id ((j, none) ∷ m) h = ground arith
has_null-remove id ((j, some p) ∷ m) h = elim (Bool-cases (id == j)) [
  | inl same ↦ rw same (has_null-remove id m h)
  | inr other ↦ rw other (has_null-remove id m h)
]

-- A key with a null pointer is found.
pub has_null-lookup :
    (id : ℕ) (m : List (ℕ × Option GameObject)) → lookup id m ≡ some none → has_null m ≡ true
unfolding has_null lookup
has_null-lookup id [] e = ground arith
has_null-lookup id ((j, none) ∷ m) e = refl
has_null-lookup id ((j, some p) ∷ m) e = ground (arith, has_null-lookup id m)

-- The loop of `Update` keeps which keys there are and which are null, and follows a null pointer if
-- there is one.
update_all-has_null :
    (m : List (ℕ × Option GameObject)) (elapsed : ℕ)
    → ((update_all m elapsed).0 ≡ has_null m) × (has_null (update_all m elapsed).1 ≡ has_null m)
unfolding has_null update_all
update_all-has_null [] elapsed = (refl, refl)
update_all-has_null ((id, none) ∷ m) elapsed = (refl, refl)
update_all-has_null ((id, some o) ∷ m) elapsed = update_all-has_null m elapsed

update_all-is_object :
    (m : List (ℕ × Option GameObject)) (elapsed x : ℕ)
    → is_object (lookup x (update_all m elapsed).1) ≡ is_object (lookup x m)
unfolding lookup update_all
update_all-is_object [] elapsed x = refl
update_all-is_object ((id, none) ∷ m) elapsed x = ground (arith, update_all-is_object m elapsed x)
update_all-is_object ((id, some o) ∷ m) elapsed x = ground (arith, update_all-is_object m elapsed x)

-- No pointer is null, the player's object is there, and no null pointer has been followed.
pub record IsReady (s : Scene) : Type 0 where
  pub sound : s.fault ≡ false
  pub objects : has_null s.moving_objects ≡ false
  pub player : is_object (lookup s.player_id s.moving_objects) ≡ true

-- A frame with the player's object there follows a null pointer if there is one.
update-fault :
    (s : Scene) (elapsed now : ℕ) {o : GameObject}
    → lookup s.player_id s.moving_objects ≡ some (some o)
    → (update s elapsed now).fault ≡ (s.fault || has_null s.moving_objects)
unfolding update
update-fault s elapsed now e = rw (e, (update_all-has_null s.moving_objects elapsed).0) refl

pub own_key :
    (id : ℕ) (v : Option GameObject) (m : List (ℕ × Option GameObject))
    → lookup id (assign id v m) ≡ some v
own_key id v m = lookup-assign id id v m ∙ rw ((==_iff id id).1 refl) refl

other_key :
    (id j : ℕ) (v : Option GameObject) (m : List (ℕ × Option GameObject))
    → (j == id) ≡ false
    → lookup j (assign id v m) ≡ lookup j m
other_key id j v m other = lookup-assign id j v m ∙ rw other refl

-- A frame that comes before the player's object is there makes a null pointer for the id that the
-- scene has so far. If the player then gets another id, the first frame after the login follows that
-- null pointer.
early_frame_lem :
    (s : Scene) (elapsed now : ℕ)
    → lookup s.player_id s.moving_objects ≡ none
    → (id : ℕ) (x y level hp max_hp exp : ℤ) (name : List ℕ) → (s.player_id == id) ≡ false
    → (elapsed' now' : ℕ)
    → (update
        (initialize_player (update s elapsed now) id x y level hp max_hp exp name)
        elapsed'
        now').fault
      ≡ true
unfolding update initialize_player
early_frame_lem s elapsed now none_yet id x y level hp max_hp exp name other elapsed' now' =
    let early = update s elapsed now in
    let ready : Scene = initialize_player early id x y level hp max_hp exp name in
    update-fault ready elapsed' now' (own_key id _ early.moving_objects)
    ∙ rw
        (has_null-lookup s.player_id ready.moving_objects (
          other_key id s.player_id _ early.moving_objects other
          ∙ rw none_yet (own_key s.player_id none s.moving_objects)))
        (ground arith)

-- The object of another key takes nothing away.
assign-is_object :
    (id x : ℕ) (o : GameObject) (m : List (ℕ × Option GameObject))
    → is_object (lookup x m) ≡ true
    → is_object (lookup x (assign id (some o) m)) ≡ true
assign-is_object id x o m there = elim (Bool-cases (x == id)) [
  | inl same ↦ rw (lookup-assign id x (some o) m, same) refl
  | inr other ↦ rw (lookup-assign id x (some o) m, other) there
]

-- A null pointer is nowhere in a scene that is ready.
not_null {ℓ} :
    {A : Type ℓ} {s : Scene} → IsReady s → (id : ℕ) → lookup id s.moving_objects ≡ some none → A
not_null {s = s} h id e = ground (arith, h.objects, has_null-lookup id s.moving_objects e)

pub put-IsReady :
    (s : Scene) (id : ℕ) (o : GameObject)
    → IsReady s
    → IsReady (record s { moving_objects = assign id (some o) s.moving_objects })
put-IsReady s id o h = record {
  sound = h.sound;
  objects = has_null-assign id o s.moving_objects h.objects;
  player = assign-is_object id s.player_id o s.moving_objects h.player;
}

pub modify-IsReady :
    (s : Scene) (id : ℕ) (f : GameObject → GameObject) → IsReady s → IsReady (modify_object s id f)
unfolding modify_object
modify-IsReady s id f h = at (lookup id s.moving_objects) refl
  where
    at :
        (slot : Option (Option GameObject))
        → lookup id s.moving_objects ≡ slot
        → IsReady (at_slot s id slot f)
    at none e = h
    at (some none) e = not_null h id e
    at (some (some o)) e = put-IsReady s id (f o) h

pub name-IsReady : (s : Scene) (id : ℕ) → IsReady s → IsReady (get_player_name s id).1
unfolding get_player_name
name-IsReady s id h = at (lookup id s.moving_objects) refl
  where
    at :
        (slot : Option (Option GameObject))
        → lookup id s.moving_objects ≡ slot
        → IsReady (name_at s slot).1
    at none e = h
    at (some none) e = not_null h id e
    at (some (some o)) e = h

pub attack-IsReady : (s : Scene) (now : ℕ) → IsReady s → IsReady (create_attack_area s now)
unfolding create_attack_area
attack-IsReady s now h = at (lookup s.player_id s.moving_objects) refl
  where
    at :
        (slot : Option (Option GameObject))
        → lookup s.player_id s.moving_objects ≡ slot
        → IsReady (attack_from s slot now)
    at none e = ground (arith, h.player, e)
    at (some none) e = not_null h s.player_id e
    at (some (some o)) e = record { sound = h.sound; objects = h.objects; player = h.player }

pub update-IsReady : (s : Scene) (elapsed now : ℕ) → IsReady s → IsReady (update s elapsed now)
unfolding update
update-IsReady s elapsed now h = at (lookup s.player_id s.moving_objects) refl
  where
    all :
        ((update_all s.moving_objects elapsed).0 ≡ has_null s.moving_objects)
        × (has_null (update_all s.moving_objects elapsed).1 ≡ has_null s.moving_objects)
    all = update_all-has_null s.moving_objects elapsed

    at :
        (slot : Option (Option GameObject))
        → lookup s.player_id s.moving_objects ≡ slot
        → IsReady (update_from s slot elapsed now)
    at none e = ground (arith, h.player, e)
    at (some none) e = h
    at (some (some o)) e = record {
      sound = rw (h.sound, all.0) h.objects;
      objects = all.1 ∙ h.objects;
      player = update_all-is_object s.moving_objects elapsed s.player_id ∙ h.player;
    }
