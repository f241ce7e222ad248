-- ===== src/System/Keep/Sights.antt =====
-- The loops of sight, of logins and of disconnections.
use server_programming.Base.{ℕ, refl, inl, inr, not, ◌||◌, Bool-cases, List, [], ◌∷◌}
use server_programming.Base.Sets.{mem}
use server_programming.Server.SectorManager.{Sector, get_ids_in_sector}
use server_programming.Server.Geometry.{is_npc}
use server_programming.Server.Session.{Session, is_state, ingame}
use server_programming.Server.Session
use server_programming.Server.World.{World, for_each}
use server_programming.Server.Sight.{
  is_visible, meet_npc, gather_one, gather_ids, gather, see, meet, handle_players_in_sight,
  lose_sight, be_lost, part, handle_disappeared_players, show_other, introduce, introduce_sectors,
  send_near_players_info,
}
use server_programming.Server.Clients.{is_gm, say_goodbye, disconnect}
use server_programming.System.Keep.{Leaves, Plain, for_each-keeps}
use server_programming.System.Keep.Npcs.{activate_npc-keeps, handle_npc_attack-keeps}

pub disconnect_session : (s : Session) → Plain s (Session.disconnect s)
unfolding Session.disconnect is_state
disconnect_session s = record { same_view = refl; same_x = refl; same_y = refl; awake = λ e. cc }

module _ {P : World → Type 0} {Rises : ℕ → Type 0} (k : Leaves P Rises) where
  see-keeps : (viewlist : List ℕ) (me pid : ℕ) (w : World) → P w → P (see viewlist me pid w)
  unfolding see
  see-keeps viewlist me pid w h = elim (Bool-cases (mem pid viewlist)) [
    | inl known ↦ rw known h
    | inr unknown ↦ rw unknown (k.show w me pid h)
  ]

  meet-keeps : (viewlist : List ℕ) (me pid : ℕ) (w : World) → P w → P (meet viewlist me pid w)
  unfolding meet
  meet-keeps viewlist me pid w h = elim (Bool-cases (is_npc pid)) [
    | inl npc ↦ rw npc (see-keeps viewlist me pid w h)
    | inr player ↦ rw player (k.seen me pid _ (see-keeps viewlist me pid w h))
  ]

  part-keeps : (sights : List ℕ) (me pid : ℕ) (w : World) → P w → P (part sights me pid w)
  unfolding part lose_sight be_lost
  part-keeps sights me pid w h = elim (Bool-cases (mem pid sights)) [
    | inl near ↦ rw near h
    | inr far ↦ elim (Bool-cases (is_npc pid)) [
      | inl npc ↦ rw (far, npc) (k.hide w me pid h)
      | inr player ↦ rw (far, player) (k.forgets _ pid me (k.hide w me pid h))
    ]
  ]

  pub sights-keeps :
      (w : World) (sights viewlist : List ℕ) (me : ℕ)
      → P w
      → P (handle_players_in_sight w sights viewlist me)
  unfolding handle_players_in_sight
  sights-keeps w sights viewlist me =
      for_each-keeps sights (meet viewlist me) (meet-keeps viewlist me) w

  pub disappeared-keeps :
      (w : World) (sights viewlist : List ℕ) (me : ℕ)
      → P w
      → P (handle_disappeared_players w sights viewlist me)
  unfolding handle_disappeared_players
  disappeared-keeps w sights viewlist me =
      for_each-keeps viewlist (part sights me) (part-keeps sights me) w

  meet_npc-keeps : (id other : ℕ) (w : World) → P w → P (meet_npc id other w)
  unfolding meet_npc
  meet_npc-keeps id other w h = elim (Bool-cases (is_npc other)) [
    | inr player ↦ rw player h
    | inl npc ↦
        rw npc (handle_npc_attack-keeps k other id _ (inl npc) (activate_npc-keeps k other id w h))
  ]

  gather_one-keeps : (id other : ℕ) (acc : List ℕ × World) → P acc.1 → P (gather_one id other acc).1
  unfolding gather_one
  gather_one-keeps id other (l, w) h = elim (Bool-cases (is_visible w id other)) [
    | inl near ↦ rw near (meet_npc-keeps id other w h)
    | inr far ↦ rw far h
  ]

  gather_ids-keeps :
      (id : ℕ) (ids : List ℕ) (acc : List ℕ × World) → P acc.1 → P (gather_ids id ids acc).1
  unfolding gather_ids
  gather_ids-keeps id [] acc h = h
  gather_ids-keeps id (o ∷ ids) acc h =
      gather_ids-keeps id ids (gather_one id o acc) (gather_one-keeps id o acc h)

  pub gather-keeps :
      (id : ℕ) (sectors : List Sector) (acc : List ℕ × World)
      → P acc.1
      → P (gather id sectors acc).1
  unfolding gather
  gather-keeps id [] acc h = h
  gather-keeps id (s ∷ sectors) acc h =
      gather-keeps id sectors _ (gather_ids-keeps id (get_ids_in_sector acc.1.sectors s) acc h)

  show_other-keeps : (target other : ℕ) (w : World) → P w → P (show_other target other w)
  unfolding show_other
  show_other-keeps target other w = k.show w target other

  introduce-keeps : (target other : ℕ) (w : World) → P w → P (introduce target other w)
  unfolding introduce
  introduce-keeps target other w h = elim (Bool-cases (is_visible w target other)) [
    | inr far ↦ rw far h
    | inl near ↦ elim (Bool-cases (is_npc other)) [
      | inl npc ↦
          rw (near, npc)
            (handle_npc_attack-keeps k other target _ (inl npc)
              (activate_npc-keeps k other target _ (show_other-keeps target other w h)))
      | inr player ↦
          rw (near, player) (show_other-keeps other target _ (show_other-keeps target other w h))
    ]
  ]

  introduce_sectors-keeps :
      (target : ℕ) (sectors : List Sector) (w : World)
      → P w
      → P (introduce_sectors target sectors w)
  unfolding introduce_sectors
  introduce_sectors-keeps target [] w h = h
  introduce_sectors-keeps target (s ∷ sectors) w h =
      introduce_sectors-keeps target sectors _
        (for_each-keeps _ (introduce target) (introduce-keeps target) w h)

  pub send_near_players_info-keeps :
      (w : World) (target : ℕ) → P w → P (send_near_players_info w target)
  unfolding send_near_players_info
  send_near_players_info-keeps w target = introduce_sectors-keeps target _ w

  say_goodbye-keeps : (id pid : ℕ) (w : World) → P w → P (say_goodbye id pid w)
  unfolding say_goodbye
  say_goodbye-keeps id pid w h =
      elim (Bool-cases (is_npc pid || not (is_state (w.clients pid) ingame))) [
        | inl away ↦ rw away h
        | inr here ↦ rw here (k.forgets w pid id h)
      ]

  pub disconnect-keeps : (id : ℕ) (w : World) → P w → P (disconnect w id)
  unfolding disconnect
  disconnect-keeps id w h =
      let w₁ = for_each (w.clients id).view_list (say_goodbye id) w in
      let left =
        for_each-keeps (w.clients id).view_list (say_goodbye id) (say_goodbye-keeps id) w h in
      elim (Bool-cases (is_gm (w₁.clients id).info.name)) [
        | inl gm ↦
            rw gm (k.session w₁ id Session.disconnect (disconnect_session (w₁.clients id)) left)
        | inr player ↦ rw player (
            k.session _ id Session.disconnect (disconnect_session (w₁.clients id)) (
              k.core w₁ _
                (record {
                  same_clients = refl;
                  same_sectors = refl;
                  same_timers = refl;
                  same_sent = refl;
                  same_fault = refl;
                  same_database = refl;
                })
                left))
      ]
