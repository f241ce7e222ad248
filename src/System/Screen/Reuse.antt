-- ===== src/System/Screen/Reuse.antt =====
-- A slot that is used again: the view list of its last user stays (GameServer/Server/IOCPServer.cpp).
mod Lists
use server_programming.Base.{
  ℕ, ◌≡◌, refl, ◌∙◌, subst, inl, inr, Bool, true, false, not, ◌&&◌, Bool-cases, Option, some, List,
  [], ◌∷◌, arith, ◌==◌, ==_iff, ltb, length,
}
use server_programming.Base.Sets.{mem}
use server_programming.Network.Protocol.{Packet}
use server_programming.Server.Geometry.{is_npc}
use server_programming.Server.Session.{find_and_insert_view_id, insert_view_id}
use server_programming.Server.World.{
  World, for_each, modify, fail, send_put_object_packet, send_move_packet,
}
use server_programming.Server.Sight.{see, be_seen, meet, handle_players_in_sight}
use server_programming.Server.Sight.Views.{views}
use server_programming.Server.Clients.{
  get_available_id, accept_new_client, disconnect, process_login_packet,
}
use server_programming.Server.Clients.Slots.{get_available_id-FirstFree}
use server_programming.System.Screen.{screen}
use server_programming.System.Screen.Reuse.Lists.{
  disconnect-Listed, FirstFree-Listed, accept_new_client-Listed, login-Listed,
}

module _ (id x : ℕ) (other : (x == id) ≡ false) where
  -- `x` is on the screen of the client of the slot.
  abbrev shown : World → Bool
  shown w = screen w.sent id x

  put-screen :
      (w : World) (me pid : ℕ)
      → (me == id && x == pid) ≡ false
      → shown (send_put_object_packet w me pid) ≡ shown w
  unfolding screen send_put_object_packet fail
  put-screen w me pid apart = elim (Bool-cases (ltb (length (w.clients pid).info.name) 20)) [
    | inl fits ↦ rw fits (ground arith)
    | inr long ↦ rw long refl
  ]

  move-screen : (w : World) (me pid : ℕ) → shown (send_move_packet w me pid) ≡ shown w
  unfolding screen send_move_packet
  move-screen w me pid = ground arith

  see-screen :
      (viewlist : List ℕ) (pid : ℕ) (w : World)
      → mem x viewlist ≡ true
      → shown (see viewlist id pid w) ≡ shown w
  unfolding see
  see-screen viewlist pid w listed = elim (Bool-cases (mem pid viewlist)) [
    | inl known ↦ rw known refl
    | inr unknown ↦
        let apart : (x == pid) ≡ false = elim (Bool-cases (x == pid)) [
          | inl e ↦ let same = (==_iff x pid).0 e in cc
          | inr ne ↦ ne
        ] in
        rw unknown (put-screen (modify w id (λ s. insert_view_id s pid)) id pid (ground arith))
  ]

  be_seen-screen : (pid : ℕ) (w : World) → shown (be_seen id pid w) ≡ shown w
  unfolding be_seen
  be_seen-screen pid w =
      let w' = modify w pid (λ s. (find_and_insert_view_id s id).1) in
      elim (Bool-cases (find_and_insert_view_id (w.clients pid) id).0) [
        | inl new ↦ rw new (put-screen w' pid id (ground arith))
        | inr old ↦ rw old (move-screen w' pid id)
      ]

  meet-screen :
      (viewlist : List ℕ) (pid : ℕ) (w : World)
      → mem x viewlist ≡ true
      → shown (meet viewlist id pid w) ≡ shown w
  unfolding meet
  meet-screen viewlist pid w listed =
      let saw = see-screen viewlist pid w listed in
      elim (Bool-cases (is_npc pid)) [
        | inl npc ↦ rw npc saw
        | inr player ↦ rw player (be_seen-screen pid (see viewlist id pid w) ∙ saw)
      ]

  meets-screen :
      (viewlist sights : List ℕ) (w : World)
      → mem x viewlist ≡ true
      → shown (for_each sights (meet viewlist id) w) ≡ shown w
  unfolding for_each
  meets-screen viewlist [] w listed = refl
  meets-screen viewlist (pid ∷ sights) w listed =
      meets-screen viewlist sights (meet viewlist id pid w) listed
      ∙ meet-screen viewlist pid w listed

-- Who is in the view list of a player's slot when he is disconnected is in that of the next client who
-- is given the slot, also after that client's login. If that client, by the packets sent to him, does
-- not have this other on his screen, he still does not after HandlePlayersInSight with any set in sight.
pub reused_slot_hides :
    (w : World) (id x : ℕ)
    → (x == id) ≡ false
    → views w id x ≡ true
    → (w' : World) → get_available_id (disconnect w id) ≡ (some id, w')
    → (sck : ℕ) (name : List ℕ)
    → let login = process_login_packet (accept_new_client w' id sck) name id in
      let viewlist = (login.clients id).view_list in
      (mem x viewlist ≡ true)
      × ((sent : List (ℕ × Packet)) (sights : List ℕ)
          → screen sent id x ≡ false
          → screen
              (handle_players_in_sight (record login { sent = sent }) sights viewlist id).sent
              id
              x
            ≡ false)
unfolding handle_players_in_sight
reused_slot_hides w id x other listed w' given sck name =
    let left = disconnect-Listed id x other w listed in
    let after = FirstFree-Listed id x other (get_available_id-FirstFree (disconnect w id)) left in
    let kept : views w' id x ≡ true =
      subst (λ (r : Option ℕ × World). views r.1 id x ≡ true) given after in
    let login = process_login_packet (accept_new_client w' id sck) name id in
    let still = login-Listed id x other _ name (accept_new_client-Listed id x other w' sck kept) in
    (
      still,
      λ sent sights unseen.
          meets-screen id x other (login.clients id).view_list sights (record login { sent = sent })
            still
          ∙ unseen,
    )
