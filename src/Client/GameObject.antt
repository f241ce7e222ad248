-- ===== src/Client/GameObject.antt =====
-- GameServer/D2DApp/GameObject.h and GameObject.cpp, without the drawing: what an object on the screen
-- shows. Times are whole milliseconds, and a wide text is the characters that it came from. The place
-- on the screen is computed from the coordinates alone, and left out.
use server_programming.Base.{
  ℕ, ◌+◌, Bool, true, false, Option, none, some, List, [], ltb, if◌then◌else◌,
}
use server_programming.Base.Int.{ℤ, to_short}

-- The fields that `Player` adds.
pub record Status : Type 0 where
  pub level : ℤ
  pub hp : ℤ
  pub max_hp : ℤ
  pub exp : ℤ

-- `status` is `none` for an object that is no `Player`; `object_type` stands for the colour.
pub record GameObject : Type 0 where
  pub name : List ℕ
  pub object_type : ℕ
  pub x : ℤ
  pub y : ℤ
  pub chat : List ℕ
  pub chat_active : Bool
  pub chat_showed_time : ℕ
  pub status : Option Status

-- The constructor, `SetID`, `SetColor` and `SetCoord`
unfoldable pub new : List ℕ → ℕ → ℤ → ℤ → Option Status → GameObject
new name object_type x y status = record {
  name = name;
  object_type = object_type;
  x = x;
  y = y;
  chat = [];
  chat_active = false;
  chat_showed_time = 0;
  status = status;
}

unfoldable pub set_coord : GameObject → ℤ → ℤ → GameObject
set_coord o x y = record o { x = x; y = y }

unfoldable pub set_chat : GameObject → List ℕ → GameObject
set_chat o chat = record o { chat = chat; chat_active = true; chat_showed_time = 0 }

-- The parameters are `short`s, the experience too.
abbrev pub status_of : ℤ → ℤ → ℤ → ℤ → Status
status_of level hp max_hp exp = record {
  level = level;
  hp = hp;
  max_hp = max_hp;
  exp = to_short exp;
}

unfoldable pub set_info : GameObject → ℤ → ℤ → ℤ → ℤ → GameObject
set_info o level hp max_hp exp = elim o.status [
  | none ↦ o
  | some old ↦ record o { status = some (status_of level hp max_hp exp) }
]

unfoldable pub update : GameObject → ℕ → GameObject
update o elapsed =
    if o.chat_active
    then if ltb 1000 (o.chat_showed_time + elapsed)
      then record o { chat = []; chat_showed_time = 0; chat_active = false }
      else record o { chat_showed_time = o.chat_showed_time + elapsed }
    else o
