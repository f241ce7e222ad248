-- ===== src/System/Screen.antt =====
-- The packets that the server sent to a client put exactly those on the client's screen that the server
-- keeps in his view list.
pub mod Runs
pub mod Play
pub mod Reuse
use server_programming.Base.{
  ℕ, zero, suc, ◌≡◌, refl, sym, ap, ◌∙◌, inl, inr, Bool, true, false, not, ◌&&◌, ◌||◌, Bool-cases,
  Option, none, some, Option-cases, List, [], ◌∷◌, arith, ◌==◌, ==_iff, if◌then◌else◌, length, ltb,
}
use server_programming.Base.Int.{ℤ}
use server_programming.Network.Protocol.{Packet}
use server_programming.Client.NetClient.Screen.{after_packet}
use server_programming.Server.Session.{Session, insert_view_id, erase_view_id}
use server_programming.Server.World.{
  World, LuaEvent, lua_message, for_each, for_range, modify, fail, send_put_object_packet,
  send_move_packet, send_remove_packet, send_status_change_packet, send_battle_result_packet,
  send_chat_packet, send_login_ok_packet, send_login_fail_packet, execute_lua_func,
}
use server_programming.Server.Sight.Views.{views, views-insert, views-erase}

-- Whether `x` is on the screen of the client of the slot `j`, who has handled all packets that were
-- sent to the slot; the newest stands first.
unfoldable pub screen : List (ℕ × Packet) → ℕ → ℕ → Bool
screen [] j x = false
screen ((k, p) ∷ sent) j x =
    let old = screen sent j x in if k == j then after_packet p x old else old

-- As long as the server has not left its defined behaviour, every client sees those in his view list
-- and nobody else, apart from himself.
pub record IsFaithful (w : World) : Type 0 where
  pub shows : w.fault ≡ false → (j x : ℕ) → (x == j) ≡ false → screen w.sent j x ≡ views w j x

-- A change of the rest of the world.
pub quiet :
    (w w' : World)
    → w'.sent ≡ w.sent
    → w'.fault ≡ w.fault
    → ((j : ℕ) → (w'.clients j).view_list ≡ (w.clients j).view_list)
    → IsFaithful w
    → IsFaithful w'
quiet w w' sent fault lists h = record {
  shows = λ ok j x other. rw (sent, lists) (h.shows (sym fault ∙ ok) j x other);
}

-- A change of one session that keeps its view list.
pub quiet_modify :
    (w : World) (id : ℕ) (f : Session → Session)
    → ((s : Session) → (f s).view_list ≡ s.view_list)
    → IsFaithful w
    → IsFaithful (modify w id f)
quiet_modify w id f same =
    quiet w (modify w id f) refl refl (λ j. ground (arith, same (w.clients j)))

-- A packet that brings and takes nobody, apart from the client himself.
neutral-IsFaithful :
    (w : World) (id : ℕ) (p : Packet)
    → ((x : ℕ) (old : Bool) → (x == id) ≡ false → after_packet p x old ≡ old)
    → IsFaithful w
    → IsFaithful (record w { sent = (id, p) ∷ w.sent })
unfolding screen
neutral-IsFaithful w id p same h = record {
  shows = λ ok j x other. elim (Bool-cases (id == j)) [
    | inl here ↦
        rw here (same x (screen w.sent j x) (ground (arith, ==_iff id j)) ∙ h.shows ok j x other)
    | inr there ↦ rw there (h.shows ok j x other)
  ];
}

pub move-IsFaithful : (w : World) (s t : ℕ) → IsFaithful w → IsFaithful (send_move_packet w s t)
unfolding send_move_packet
move-IsFaithful w s t = neutral-IsFaithful w s _ (λ x old other. refl)

pub status_change-IsFaithful :
    (w : World) (s : ℕ) → IsFaithful w → IsFaithful (send_status_change_packet w s)
unfolding send_status_change_packet
status_change-IsFaithful w s = neutral-IsFaithful w s _ (λ x old other. refl)

pub battle_result-IsFaithful :
    (w : World) (s t : ℕ) (val type : ℤ)
    → IsFaithful w
    → IsFaithful (send_battle_result_packet w s t val type)
unfolding send_battle_result_packet
battle_result-IsFaithful w s t val type = neutral-IsFaithful w s _ (λ x old other. refl)

pub login_ok-IsFaithful : (w : World) (s : ℕ) → IsFaithful w → IsFaithful (send_login_ok_packet w s)
unfolding send_login_ok_packet
login_ok-IsFaithful w s = neutral-IsFaithful w s _ (λ x old other. rw other)

pub fail-IsFaithful : (w : World) → IsFaithful (fail w)
unfolding fail
fail-IsFaithful w = record { shows = λ ok j x other. cc }

pub login_fail-IsFaithful :
    (w : World) (s : ℕ) (reason : ℤ)
    → IsFaithful w
    → IsFaithful (send_login_fail_packet w (some s) reason)
unfolding send_login_fail_packet
login_fail-IsFaithful w s reason = neutral-IsFaithful w s _ (λ x old other. refl)

pub chat-IsFaithful :
    (w : World) (s t : ℕ) (msg : List ℕ) → IsFaithful w → IsFaithful (send_chat_packet w s t msg)
unfolding send_chat_packet
chat-IsFaithful w s t msg h = elim (Bool-cases (ltb (length msg) 100)) [
  | inl fits ↦ rw fits (neutral-IsFaithful w s _ (λ x old other. refl) h)
  | inr long ↦ rw long (fail-IsFaithful w)
]

pub lua-IsFaithful :
    (w : World) (id : ℕ) (e : LuaEvent) (p : ℕ)
    → IsFaithful w
    → IsFaithful (execute_lua_func w id e p)
unfolding execute_lua_func
lua-IsFaithful w id e p h = elim (Option-cases (w.clients id).lua) [
  | inl silent ↦ rw (silent, execute_lua_func) h
  | inr (my_id, speaks) ↦
      rw (speaks, execute_lua_func) (chat-IsFaithful w p my_id (lua_message e) h)
]

show_step :
    (id pid j x : ℕ) {old seen : Bool}
    → old ≡ seen
    → (if id == j then x == pid || old else old) ≡ (j == id && x == pid || seen)
show_step id pid j x e = ground arith

hide_step :
    (id pid j x : ℕ) {old seen : Bool}
    → old ≡ seen
    → (if id == j then not (x == pid) && old else old) ≡ (not (j == id && x == pid) && seen)
hide_step id pid j x e = ground arith

-- The view lists change by one id that goes into a list, and is put on the screen.
pub put-IsFaithful :
    (w w' : World) (id pid : ℕ)
    → w'.sent ≡ w.sent
    → w'.fault ≡ w.fault
    → ((j x : ℕ) → views w' j x ≡ (j == id && x == pid || views w j x))
    → IsFaithful w
    → IsFaithful (send_put_object_packet w' id pid)
unfolding send_put_object_packet screen
put-IsFaithful w w' id pid sent fault lists h =
    elim (Bool-cases (ltb (length (w'.clients pid).info.name) 20)) [
      | inr long ↦ rw long (fail-IsFaithful w')
      | inl fits ↦ rw fits (record {
        shows = λ ok j x other.
            rw sent (show_step id pid j x (h.shows (sym fault ∙ ok) j x other) ∙ sym (lists j x));
      })
    ]

-- The view lists change by one id that goes out of a list, and is taken off the screen.
pub remove-IsFaithful :
    (w w' : World) (id pid : ℕ)
    → w'.sent ≡ w.sent
    → w'.fault ≡ w.fault
    → ((j x : ℕ) → views w' j x ≡ (not (j == id && x == pid) && views w j x))
    → IsFaithful w
    → IsFaithful (send_remove_packet w' id pid)
unfolding send_remove_packet screen
remove-IsFaithful w w' id pid sent fault lists h = record {
  shows = λ ok j x other.
      rw sent (hide_step id pid j x (h.shows (sym fault ∙ ok) j x other) ∙ sym (lists j x));
}

pub show-IsFaithful :
    (w : World) (id pid : ℕ)
    → IsFaithful w
    → IsFaithful (send_put_object_packet (modify w id (λ s. insert_view_id s pid)) id pid)
show-IsFaithful w id pid = put-IsFaithful w _ id pid refl refl (views-insert w id pid)

pub hide-IsFaithful :
    (w : World) (id pid : ℕ)
    → IsFaithful w
    → IsFaithful (send_remove_packet (modify w id (λ s. erase_view_id s pid)) id pid)
hide-IsFaithful w id pid = remove-IsFaithful w _ id pid refl refl (views-erase w id pid)

-- The view lists stay the same, and nothing is sent.
pub still-IsFaithful :
    (w w' : World)
    → w'.sent ≡ w.sent
    → w'.fault ≡ w.fault
    → ((j x : ℕ) → views w' j x ≡ views w j x)
    → IsFaithful w
    → IsFaithful w'
still-IsFaithful w w' sent fault lists h = record {
  shows = λ ok j x other. rw sent (h.shows (sym fault ∙ ok) j x other ∙ sym (lists j x));
}
