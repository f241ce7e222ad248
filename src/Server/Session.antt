-- ===== src/Server/Session.antt =====
-- GameServer/Server/Session.h and Session.cpp: one slot of `gClients`, a player or an NPC. A method
-- returns the new session; each is one step, as the mutexes and atomics of the source make it.
-- `SendMsg` and `ExecuteLuaFunc` send through the server, and stand in Server/World.
pub mod Level
use server_programming.Base.{
  ℕ, zero, suc, ◌+◌, ◌-◌, ◌*◌, ◌^◌, Bool, true, false, not, ◌&&◌, Option, none, some, List, [], ◌∷◌,
  ltb, leb, ◌==◌, if◌then◌else◌,
}
use server_programming.Base.Sets.{mem, insert, erase}
use server_programming.Base.Int.{
  ℤ, pos, negsuc, ◌+ℤ◌, ◌-ℤ◌, ◌*ℤ◌, ltb_ℤ, leb_ℤ, eqb_ℤ, to_short, to_int,
}
use server_programming.Network.BufferQueue.{BufferQueue}
use server_programming.Network.BufferQueue
use server_programming.Server.PlayerInfo.{PlayerInfo}
use server_programming.Server.PlayerInfo

pub data State : Type 0 where
  free accept ingame sleep dead : State

pub data ClientType : Type 0 where
  player npc : ClientType

abbrev pub same_state : State → State → Bool
same_state free free = true
same_state accept accept = true
same_state ingame ingame = true
same_state sleep sleep = true
same_state dead dead = true
same_state _ _ = false

-- A socket is a handle, 0 for none. The Lua machine is null (`none`) or has run npc.lua, whose one
-- variable that matters is `myid`. Times are milliseconds.
pub record Session : Type 0 where
  pub id : ℕ
  pub info : PlayerInfo
  pub attack_power : ℤ
  pub type : ClientType
  pub last_move_time : ℤ
  pub socket : ℕ
  pub socket_open : Bool
  pub lua : Option ℕ
  pub recv_buffer : BufferQueue
  pub view_list : List ℕ
  pub state : State
  pub attacked_time : ℕ
  pub attack_duration : ℕ

-- `Session()`, with the `ID` that the constructor of the server gives it next.
unfoldable pub new : ℕ → ℕ → Session
unfolding PlayerInfo.new BufferQueue.new
new now id = record {
  id = id;
  info = PlayerInfo.new;
  attack_power = pos 0;
  type = player;
  last_move_time = pos 0;
  socket = 0;
  socket_open = false;
  lua = none;
  recv_buffer = BufferQueue.new;
  view_list = [];
  state = free;
  attacked_time = now;
  attack_duration = 0;
}

-- The socket is closed (`Socket::Close`); the handle stays in `mSocket`.
unfoldable pub disconnect : Session → Session
disconnect s = record s { state = free; socket_open = false }

-- `InitLuaEngine`, whose call of `set_uid` sets `myid`.
unfoldable pub init_lua_engine : Session → Session
init_lua_engine s = record s { lua = some s.id }

unfoldable pub assign_accepted_id : Session → ℕ → ℕ → Session
assign_accepted_id s id sck = record s { id = id; socket = sck; socket_open = true }

-- Whether the exchange was made, and the session.
unfoldable pub compare_and_change_state : Session → State → State → Bool × Session
compare_and_change_state s target_state new_state =
    if same_state s.state target_state then (true, record s { state = new_state }) else (false, s)

unfoldable pub insert_view_id : Session → ℕ → Session
insert_view_id s id = record s { view_list = insert id s.view_list }

unfoldable pub erase_view_id : Session → ℕ → Session
erase_view_id s id = record s { view_list = erase id s.view_list }

unfoldable pub find_and_insert_view_id : Session → ℕ → Bool × Session
find_and_insert_view_id s id =
    if mem id s.view_list
    then (false, s)
    else (true, record s { view_list = insert id s.view_list })

unfoldable pub find_and_erase_view_id : Session → ℕ → Bool × Session
find_and_erase_view_id s id =
    if mem id s.view_list then (true, record s { view_list = erase id s.view_list }) else (false, s)

unfoldable pub is_same_position : Session → ℤ → ℤ → Bool
is_same_position s x y = eqb_ℤ s.info.x x && eqb_ℤ s.info.y y

unfoldable pub is_state : Session → State → Bool
is_state s state = same_state s.state state

unfoldable pub init_state : Session → State → Session
init_state s state = record s { state = state }

-- `hp` is a `short`, and the subtraction wraps.
unfoldable pub decrease_hp : Session → ℤ → Session
decrease_hp s amount =
    let info = s.info in record s { info = record info { hp = to_short (info.hp -ℤ amount) } }

unfoldable pub is_dead : Session → Bool
is_dead s = leb_ℤ s.info.hp (pos 0)

unfoldable pub revive : Session → Session
revive s = let info = s.info in record s { info = record info { hp = info.max_hp }; state = ingame }

-- `(int)pow(2, e)`. Below 0 the power truncates to 0. From 31 on the conversion is undefined in
-- C++, and gives the least `int` on the x64 target of the project.
unfoldable pub pow_int : ℤ → ℤ
pow_int (pos e) = if ltb e 31 then pos (2 ^ e) else negsuc 2147483647
pow_int (negsuc e) = pos 0

unfoldable pub exp_needed : ℤ → ℤ
unfolding pow_int
exp_needed level = to_int (pos 100 *ℤ pow_int (level -ℤ pos 1))

-- The body of the loop of `IncreaseLevelWithCondition`, and the loop, with fuel.
unfoldable pub level_up : Session → Session
level_up s =
    let info = s.info in
    let level' = to_short (info.level +ℤ pos 1) in
    let max_hp' = to_short (pos 150 *ℤ level') in
    record s {
      info = record info {
        exp = to_int (info.exp -ℤ exp_needed info.level);
        level = level';
        max_hp = max_hp';
        hp = max_hp';
      };
      attack_power = level' *ℤ pos 5;
    }

unfoldable pub increase_level_with_condition : ℕ → Session → Option Session
increase_level_with_condition zero s = none
increase_level_with_condition (suc fuel) s =
    let rest = increase_level_with_condition fuel (level_up s) in
    if leb_ℤ (exp_needed s.info.level) s.info.exp then rest else some s

-- The experience for an opponent of the given level, the result of `IncreaseEXP`.
unfoldable pub exp_gain : ℤ → ℤ
exp_gain op_level = op_level *ℤ op_level *ℤ pos 2

unfoldable pub gain : Session → ℤ → Session
gain s amount =
    let info = s.info in record s { info = record info { exp = to_int (info.exp +ℤ amount) } }

unfoldable pub increase_exp : ℕ → Session → ℤ → Option Session
unfolding gain
increase_exp fuel s op_level = increase_level_with_condition fuel (gain s (exp_gain op_level))

unfoldable pub set_attack_duration : Session → ℕ → ℕ → Session
set_attack_duration s now time = record s { attacked_time = now; attack_duration = time }

unfoldable pub is_attack_time_out : Session → ℕ → Bool
is_attack_time_out s now = ltb (s.attacked_time + s.attack_duration) now
