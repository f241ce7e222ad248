-- ===== src/Server/PlayerInfo.antt =====
-- `struct PlayerInfo` of GameServer/Network/stdafx.h and the world's constants of Protocol.h. The
-- atomic fields are `short`, the experience is an `int`; a name is the characters before its NUL.
use server_programming.Base.{ℕ, ◌+◌, ◌-◌, ◌<◌, ◌≡◌, ◌/◌, List, []}
use server_programming.Base.Int.{ℤ, negsuc, pos_part, neg_part}

abbrev pub world_width : ℕ
world_width = 2000

abbrev pub world_height : ℕ
world_height = 2000

abbrev pub range : ℕ
range = 10

abbrev pub max_user : ℕ
max_user = 10000

abbrev pub max_npc : ℕ
max_npc = 200000

abbrev pub npc_id_start : ℕ
npc_id_start = max_user

abbrev pub npc_id_end : ℕ
npc_id_end = max_user + max_npc - 1

abbrev pub sector_width : ℕ
sector_width = world_width / 100

abbrev pub sector_height : ℕ
sector_height = world_height / 100

pub record PlayerInfo : Type 0 where
  pub name : List ℕ
  pub level : ℤ
  pub x : ℤ
  pub y : ℤ
  pub hp : ℤ
  pub max_hp : ℤ
  pub exp : ℤ

-- `PlayerInfo()`
unfoldable pub new : PlayerInfo
new = record {
  name = [];
  level = negsuc 0;
  x = negsuc 0;
  y = negsuc 0;
  hp = negsuc 0;
  max_hp = negsuc 0;
  exp = negsuc 0;
}

-- A position inside the world.
abbrev pub IsCoordinate : ℤ → ℕ → Type 0
IsCoordinate z limit = (neg_part z ≡ 0) × (pos_part z < limit)
