-- ===== src/Server/DbHandler.antt =====
-- GameServer/Server/DBHandler.cpp: what `ConnectWithID` makes of the answers of the database. The
-- ODBC driver and the stored procedure are outside of the repository: their answer is an argument.
use server_programming.Base.{ℕ, Bool, List, Option, none, some, ltb, length, if◌then◌else◌}
use server_programming.Base.Int.{ℤ, pos, negsuc, to_short, to_int}
use server_programming.Server.PlayerInfo.{PlayerInfo}
use server_programming.Server.PlayerInfo

-- The row that the stored procedure `connect_with_id` returns.
pub record Row : Type 0 where
  pub level : ℤ
  pub x : ℤ
  pub y : ℤ
  pub hp : ℤ
  pub max_hp : ℤ
  pub exp : ℤ
  pub connected : Bool

-- `SQLExecDirect` failed, `SQLFetch` failed, or a row was fetched.
pub data Answer : Type 0 where
  exec_error fetch_error : Answer
  fetched : Row → Answer

abbrev pub Database : Type 0
Database = List ℕ → Answer

-- `none` where `strncpy_s` rejects a name that does not fit with its NUL.
unfoldable pub connect_with_id : Database → List ℕ → Option (ℤ × PlayerInfo)
unfolding PlayerInfo.new
connect_with_id db name = elim (db name) [
  | exec_error ↦ some (negsuc 0, PlayerInfo.new)
  | fetch_error ↦ some (negsuc 0, PlayerInfo.new)
  | fetched r ↦
      if r.connected
      then some (pos 0, PlayerInfo.new)
      else if ltb (length name) 20
      then some (
        pos 1,
        record {
          name = name;
          level = to_short r.level;
          x = to_short r.x;
          y = to_short r.y;
          hp = to_short r.hp;
          max_hp = to_short r.max_hp;
          exp = to_int r.exp;
        },
      )
      else none
]
