-- ===== src/Server/World/Frame.antt =====
-- What the sending methods leave alone: all but the packets sent and the fault.
use server_programming.Base.{ℕ, ◌≡◌, refl, List, arith}
use server_programming.Base.Int.{ℤ}
use server_programming.Server.World.{
  World, LuaEvent, send_put_object_packet, send_move_packet, send_remove_packet,
  send_status_change_packet, send_battle_result_packet, send_chat_packet, send_login_ok_packet,
  execute_lua_func,
}

pub clients-put_object : (w : World) (s t : ℕ) → (send_put_object_packet w s t).clients ≡ w.clients
unfolding send_put_object_packet
clients-put_object w s t = ground arith

pub clients-move : (w : World) (s t : ℕ) → (send_move_packet w s t).clients ≡ w.clients
unfolding send_move_packet
clients-move w s t = refl

pub clients-remove : (w : World) (s t : ℕ) → (send_remove_packet w s t).clients ≡ w.clients
unfolding send_remove_packet
clients-remove w s t = refl

pub clients-status_change :
    (w : World) (s : ℕ) → (send_status_change_packet w s).clients ≡ w.clients
unfolding send_status_change_packet
clients-status_change w s = refl

pub clients-battle_result :
    (w : World) (s t : ℕ) (val type : ℤ)
    → (send_battle_result_packet w s t val type).clients ≡ w.clients
unfolding send_battle_result_packet
clients-battle_result w s t val type = refl

pub clients-chat :
    (w : World) (s t : ℕ) (msg : List ℕ) → (send_chat_packet w s t msg).clients ≡ w.clients
unfolding send_chat_packet
clients-chat w s t msg = ground arith

pub clients-login_ok : (w : World) (s : ℕ) → (send_login_ok_packet w s).clients ≡ w.clients
unfolding send_login_ok_packet
clients-login_ok w s = refl

pub clients-lua :
    (w : World) (id : ℕ) (e : LuaEvent) (p : ℕ) → (execute_lua_func w id e p).clients ≡ w.clients
unfolding execute_lua_func
clients-lua w id e p = ground arith

pub sectors-put_object : (w : World) (s t : ℕ) → (send_put_object_packet w s t).sectors ≡ w.sectors
unfolding send_put_object_packet
sectors-put_object w s t = ground arith

pub sectors-move : (w : World) (s t : ℕ) → (send_move_packet w s t).sectors ≡ w.sectors
unfolding send_move_packet
sectors-move w s t = refl

pub sectors-remove : (w : World) (s t : ℕ) → (send_remove_packet w s t).sectors ≡ w.sectors
unfolding send_remove_packet
sectors-remove w s t = refl

pub sectors-status_change :
    (w : World) (s : ℕ) → (send_status_change_packet w s).sectors ≡ w.sectors
unfolding send_status_change_packet
sectors-status_change w s = refl

pub sectors-battle_result :
    (w : World) (s t : ℕ) (val type : ℤ)
    → (send_battle_result_packet w s t val type).sectors ≡ w.sectors
unfolding send_battle_result_packet
sectors-battle_result w s t val type = refl

pub sectors-chat :
    (w : World) (s t : ℕ) (msg : List ℕ) → (send_chat_packet w s t msg).sectors ≡ w.sectors
unfolding send_chat_packet
sectors-chat w s t msg = ground arith

pub sectors-login_ok : (w : World) (s : ℕ) → (send_login_ok_packet w s).sectors ≡ w.sectors
unfolding send_login_ok_packet
sectors-login_ok w s = refl

pub sectors-lua :
    (w : World) (id : ℕ) (e : LuaEvent) (p : ℕ) → (execute_lua_func w id e p).sectors ≡ w.sectors
unfolding execute_lua_func
sectors-lua w id e p = ground arith
