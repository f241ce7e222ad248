-- ===== src/ClientApp/GameScene.antt =====
-- GameServer/ClientApp/gameScene.cpp, with the calls of pipeline.cpp, and the part of a frame of
-- gameFramework.cpp that brings the players of the socket into the scene. A pawn is an object of
-- the pipeline, which is named by the id it was made for; it stands at the middle of the tile.
pub mod Frames
pub mod Packets
pub mod Bytes
use server_programming.Base.{
  ℕ, ◌-◌, Bool, true, false, none, some, List, [], ◌∷◌, ◌++◌, ltb, ◌==◌, if◌then◌else◌, length,
  take,
}
use server_programming.Base.Dict.{lookup, assign, remove}
use server_programming.Base.Int.{ℤ, pos, eqb_ℤ}
use server_programming.Server.PlayerInfo.{npc_id_start}
use server_programming.ClientApp.ClientSocket.{Player, ClientSocket}

pub record Pawn : Type 0 where
  pub x : ℤ
  pub y : ℤ
  pub text : List ℕ
  pub srv_index : ℕ

-- `fault` is set where a null pointer is read.
pub record GameScene : Type 0 where
  pub players : List (ℕ × Pawn)
  pub render_objects : List ℕ
  pub fault : Bool

-- The texture: one's own, that of players, and that of NPCs.
unfoldable pub srv_index : ℤ → ℕ → ℕ
srv_index my_id id = if eqb_ℤ (pos id) my_id then 1 else if ltb id npc_id_start then 2 else 3

unfoldable pub append_object : GameScene → ℕ → GameScene
append_object s id = record s { render_objects = s.render_objects ++ (id ∷ []) }

-- `find_if` and `erase`: the first one goes.
unfoldable pub delete_object : ℕ → List ℕ → List ℕ
delete_object id [] = []
delete_object id (o ∷ objects) =
    let rest = delete_object id objects in if o == id then objects else o ∷ rest

-- The first loop of `AppendOrDeletePlayers`
unfoldable pub append_one : ℤ → ℕ → GameScene → GameScene
unfolding append_object srv_index lookup assign
append_one my_id id s = elim (lookup id s.players) [
  | some pawn ↦ s
  | none ↦ record (append_object s id) {
    players =
        assign id (record { x = pos 0; y = pos 0; text = []; srv_index = srv_index my_id id })
          s.players;
  }
]

unfoldable pub append_all : ℤ → List (ℕ × Player) → GameScene → GameScene
unfolding append_one
append_all my_id [] s = s
append_all my_id ((id, p) ∷ coords) s = append_all my_id coords (append_one my_id id s)

-- The second loop: those who are to go, in `trash_can`, while their objects go.
unfoldable pub trash_can : List (ℕ × Player) → List (ℕ × Pawn) → List ℕ
unfolding lookup
trash_can coords [] = []
trash_can coords ((id, pawn) ∷ players) =
    let rest = trash_can coords players in
    elim (lookup id coords) [ some p ↦ rest | none ↦ id ∷ rest ]

unfoldable pub delete_objects : List ℕ → List ℕ → List ℕ
unfolding delete_object
delete_objects [] objects = objects
delete_objects (id ∷ ids) objects = delete_objects ids (delete_object id objects)

-- The third loop
unfoldable pub erase_all : List ℕ → List (ℕ × Pawn) → List (ℕ × Pawn)
unfolding remove
erase_all [] players = players
erase_all (id ∷ ids) players = erase_all ids (remove id players)

unfoldable pub append_or_delete_players : GameScene → ℤ → List (ℕ × Player) → GameScene
unfolding append_all trash_can delete_objects erase_all
append_or_delete_players s my_id coords =
    let s' = append_all my_id coords s in
    let trash = trash_can coords s'.players in
    record s' {
      render_objects = delete_objects trash s'.render_objects;
      players = erase_all trash s'.players;
    }

-- `std::wstring(&message[0], &message[len-1])`, if there is a message
unfoldable pub place : Player → Pawn → Pawn
place p pawn = record pawn {
  x = p.x;
  y = p.y;
  text = if length p.message == 0 then pawn.text else take (length p.message - 1) p.message;
}

-- The body of the loop of `UpdatePlayersCoord`. For an id that is not there `mPlayers[id]` is null.
unfoldable pub update_one : ℕ → Player → GameScene → GameScene
unfolding place lookup assign
update_one id p s = elim (lookup id s.players) [
  | none ↦ record s { fault = true }
  | some pawn ↦ record s { players = assign id (place p pawn) s.players }
]

unfoldable pub update_players_coord : GameScene → List (ℕ × Player) → GameScene
unfolding update_one
update_players_coord s [] = s
update_players_coord s ((id, p) ∷ coords) = update_players_coord (update_one id p s) coords

-- The end of `GameFramework::Update`, with the copy of the players that it has made.
unfoldable pub update_scene :
    {Q : Type 0} → List (ℕ × Player) → ClientSocket Q → GameScene → ClientSocket Q × GameScene
unfolding append_or_delete_players update_players_coord
update_scene copy_coord c s =
    if c.dirty
    then (
      record c { dirty = false },
      update_players_coord (append_or_delete_players s c.id copy_coord) copy_coord,
    )
    else (c, update_players_coord s copy_coord)

-- The players' part of `GameFramework::Update`, where no packet comes between the copy and its use.
unfoldable pub update : {Q : Type 0} → ClientSocket Q → GameScene → ClientSocket Q × GameScene
unfolding update_scene
update c s = update_scene c.player_infos c s
