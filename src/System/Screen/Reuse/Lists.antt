-- ===== src/System/Screen/Reuse/Lists.antt =====
-- What keeps the view list of a slot, from the end of one client to the login of the next.
use server_programming.Base.{
  ℕ, ◌≡◌, refl, ap, ◌∙◌, inl, inr, true, false, not, ◌||◌, Bool-cases, Option, some, Option-cases,
  List, [], ◌∷◌, arith, ◌==◌, ltb, length,
}
use server_programming.Base.Int.{pos, eqb_ℤ}
use server_programming.Base.Sets.{mem}
use server_programming.Server.Geometry.{is_npc}
use server_programming.Server.SectorManager.{Sector, get_ids_in_sector}
use server_programming.Server.Session.{
  Session, ingame, accept, is_state, assign_accepted_id, compare_and_change_state,
  set_attack_duration, find_and_insert_view_id, find_and_erase_view_id, insert_view_id,
}
use server_programming.Server.Session
use server_programming.Server.DbHandler.{connect_with_id}
use server_programming.Server.World.{
  World, for_each, modify, fail, send_login_ok_packet, send_login_fail_packet,
}
use server_programming.Server.World.Frame.{clients-put_object, clients-remove}
use server_programming.Server.Npc.{activate_npc}
use server_programming.Server.Sight.{
  is_visible, show_other, introduce, introduce_sectors, send_near_players_info,
}
use server_programming.Server.Sight.Views.{views, views-insert, views-find_erase}
use server_programming.Server.Sight.Gather.{
  Still-trans, activate_npc-Still, handle_npc_attack-Still,
}
use server_programming.Server.Clients.{
  accept_new_client, say_goodbye, disconnect, is_gm, as_gm, as_player, put_in_game, enter_game,
  login_player, process_login_packet,
}
use server_programming.Server.Clients.Slots.{FirstFree, found, full}
use server_programming.System.Keep.{for_each-keeps}

module _ (id x : ℕ) (other : (x == id) ≡ false) where
  -- `x` is in the view list of the slot.
  abbrev pub Listed : World → Type 0
  Listed w = views w id x ≡ true

  say_goodbye-Listed : (pid : ℕ) (w : World) → Listed w → Listed (say_goodbye id pid w)
  unfolding say_goodbye
  say_goodbye-Listed pid w h =
      let erased = views-find_erase w pid id id x in
      elim (Bool-cases (is_npc pid || not (is_state (w.clients pid) ingame))) [
        | inl away ↦ rw away h
        | inr near ↦ elim (Bool-cases (find_and_erase_view_id (w.clients pid) id).0) [
          | inl was ↦ rw (near, was, clients-remove) (ground (arith, erased))
          | inr was_not ↦ rw (near, was_not) (ground (arith, erased))
        ]
      ]

  -- A session's other fields do not matter.
  modify-Listed :
      (w : World) (j : ℕ) (f : Session → Session)
      → ((s : Session) → (f s).view_list ≡ s.view_list)
      → Listed w
      → Listed (modify w j f)
  modify-Listed w j f same h =
      let lists : ((modify w j f).clients id).view_list ≡ (w.clients id).view_list =
        ground (arith, same (w.clients id)) in
      ap (mem x) lists ∙ h

  pub disconnect-Listed : (w : World) → Listed w → Listed (disconnect w id)
  unfolding disconnect Session.disconnect
  disconnect-Listed w h =
      let w₁ = for_each (w.clients id).view_list (say_goodbye id) w in
      let h₁ =
        for_each-keeps {P = Listed} (w.clients id).view_list (say_goodbye id) say_goodbye-Listed w
          h in
      let close : (s : Session) → (Session.disconnect s).view_list ≡ s.view_list = λ s. refl in
      elim (Bool-cases (is_gm (w₁.clients id).info.name)) [
        | inl gm ↦ rw gm (modify-Listed w₁ id Session.disconnect close h₁)
        | inr player ↦ rw player (
            modify-Listed (record w₁ { updates = (w₁.clients id).info ∷ w₁.updates }) id
              Session.disconnect close h₁)
      ]

  show_other-Listed : (w : World) (target pid : ℕ) → Listed w → Listed (show_other target pid w)
  unfolding show_other
  show_other-Listed w target pid h =
      rw clients-put_object (views-insert w target pid id x ∙ ground (arith, h))

  introduce-Listed : (pid : ℕ) (w : World) → Listed w → Listed (introduce id pid w)
  unfolding introduce
  introduce-Listed pid w h =
      let w₁ = show_other id pid w in
      let h₁ = show_other-Listed w id pid h in
      elim (Bool-cases (is_visible w id pid)) [
        | inr far ↦ rw far h
        | inl near ↦ elim (Bool-cases (is_npc pid)) [
          | inr player ↦ rw (near, player) (show_other-Listed w₁ pid id h₁)
          | inl npc ↦
              let still =
                Still-trans (activate_npc-Still id pid id w₁)
                  (handle_npc_attack-Still id pid (activate_npc w₁ pid id)) in
              rw (near, npc) (ap (mem x) (still.same_views id) ∙ h₁)
        ]
      ]

  introduce_sectors-Listed :
      (sectors : List Sector) (w : World) → Listed w → Listed (introduce_sectors id sectors w)
  unfolding introduce_sectors
  introduce_sectors-Listed [] w h = h
  introduce_sectors-Listed (s ∷ sectors) w h = introduce_sectors-Listed sectors _ (
      for_each-keeps {P = Listed} (get_ids_in_sector w.sectors s) (introduce id) introduce-Listed w
        h)

  enter_game-Listed : (w : World) → Listed w → Listed (enter_game w id)
  unfolding enter_game put_in_game compare_and_change_state send_login_ok_packet
      send_near_players_info
  enter_game-Listed w h =
      let w' = put_in_game w id in
      let h' : Listed w' =
        modify-Listed w id (λ s. (compare_and_change_state s accept ingame).1) (λ s. ground arith)
          h in
      elim (Bool-cases (compare_and_change_state (w.clients id) accept ingame).0) [
        | inl changed ↦ rw changed (introduce_sectors-Listed _ (send_login_ok_packet w' id) h')
        | inr not_changed ↦ rw not_changed h'
      ]

  pub login-Listed :
      (w : World) (name : List ℕ) → Listed w → Listed (process_login_packet w name id)
  unfolding process_login_packet login_player as_gm as_player set_attack_duration fail
      Session.disconnect send_login_fail_packet
  login-Listed w name h = elim (Bool-cases (is_gm name)) [
    | inl gm ↦ elim (Bool-cases (ltb (length name) 20)) [
      | inl fits ↦
          rw (gm, fits) (enter_game-Listed _ (modify-Listed w id (λ s. as_gm s name) (λ s. refl) h))
      | inr long ↦ rw (gm, long) h
    ]
    | inr player ↦ elim (Option-cases (connect_with_id w.database name)) [
      | inl broken ↦ rw (player, broken, login_player) h
      | inr ((code, info), answer) ↦ elim (Bool-cases (eqb_ℤ code (pos 1))) [
        | inl good ↦
            rw (player, answer, login_player, good)
              (enter_game-Listed _ (modify-Listed w id (λ s. as_player s info w.now) (λ s. refl) h))
        | inr bad ↦
            rw (player, answer, login_player, bad)
              (modify-Listed (send_login_fail_packet w (some id) code) id Session.disconnect
                (λ s. refl) h)
      ]
    ]
  ]

  pub FirstFree-Listed :
      {w : World} {first count : ℕ} {r : Option ℕ × World}
      → FirstFree w first count r
      → Listed w
      → Listed r.1
  FirstFree-Listed {w} (found k w' _ _ _ _ after) h =
      let lists : (w'.clients id).view_list ≡ (w.clients id).view_list =
        ap (λ (s : Session). s.view_list) (after id) ∙ ground arith in
      ap (mem x) lists ∙ h
  FirstFree-Listed (full w' _ same) h = ap (λ (s : Session). mem x s.view_list) (same id) ∙ h

  pub accept_new_client-Listed :
      (w : World) (sck : ℕ) → Listed w → Listed (accept_new_client w id sck)
  unfolding accept_new_client assign_accepted_id
  accept_new_client-Listed w sck h =
      modify-Listed w id (λ s. assign_accepted_id s id sck) (λ s. refl) h
