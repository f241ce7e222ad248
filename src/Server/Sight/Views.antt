-- ===== src/Server/Sight/Views.antt =====
-- The view lists after a player has settled at a place, by membership.
use server_programming.Base.{
  ℕ, ◌≡◌, ◌∙◌, ◌⊎◌, inl, inr, Bool, true, false, not, ◌&&◌, ◌||◌, Bool-cases, List, [], ◌∷◌, arith,
  ◌==◌, if◌then◌else◌,
}
use server_programming.Base.Sets.{mem, mem-insert, mem-erase}
use server_programming.Server.Geometry.{is_npc}
use server_programming.Server.Session.{
  insert_view_id, erase_view_id, find_and_insert_view_id, find_and_erase_view_id,
}
use server_programming.Server.World.{World, modify, for_each}
use server_programming.Server.World.Frame.{clients-put_object, clients-move, clients-remove}
use server_programming.Server.Sight.{
  see, be_seen, meet, handle_players_in_sight, lose_sight, be_lost, part,
  handle_disappeared_players,
}

-- `x` is in the view list of `j`.
abbrev pub views : World → ℕ → ℕ → Bool
views w j x = mem x (w.clients j).view_list

pub views-insert :
    (w : World) (id pid j x : ℕ)
    → views (modify w id (λ s. insert_view_id s pid)) j x ≡ (j == id && x == pid || views w j x)
unfolding insert_view_id
views-insert w id pid j x = ground (arith, mem-insert pid x (w.clients j).view_list)

pub views-erase :
    (w : World) (id pid j x : ℕ)
    → views (modify w id (λ s. erase_view_id s pid)) j x
      ≡ (not (j == id && x == pid) && views w j x)
unfolding erase_view_id
views-erase w id pid j x = ground (arith, mem-erase pid x (w.clients j).view_list)

pub views-find_insert :
    (w : World) (id pid j x : ℕ)
    → views (modify w id (λ s. (find_and_insert_view_id s pid).1)) j x
      ≡ (j == id && x == pid || views w j x)
unfolding find_and_insert_view_id
views-find_insert w id pid j x = ground (arith, mem-insert pid x (w.clients j).view_list)

pub views-find_erase :
    (w : World) (id pid j x : ℕ)
    → views (modify w id (λ s. (find_and_erase_view_id s pid).1)) j x
      ≡ (not (j == id && x == pid) && views w j x)
unfolding find_and_erase_view_id
views-find_erase w id pid j x = ground (arith, mem-erase pid x (w.clients j).view_list)

views-see :
    (viewlist : List ℕ) (my_id pid : ℕ) (w : World) (j x : ℕ)
    → views (see viewlist my_id pid w) j x
      ≡ (j == my_id && not (mem pid viewlist) && x == pid || views w j x)
unfolding see
views-see viewlist my_id pid w j x = elim (Bool-cases (mem pid viewlist)) [
  | inl known ↦ rw known (ground arith)
  | inr unknown ↦ rw (unknown, clients-put_object) (views-insert w my_id pid j x ∙ ground arith)
]

views-be_seen :
    (my_id pid : ℕ) (w : World) (j x : ℕ)
    → views (be_seen my_id pid w) j x ≡ (j == pid && x == my_id || views w j x)
unfolding be_seen
views-be_seen my_id pid w j x =
    elim (Bool-cases (find_and_insert_view_id (w.clients pid) my_id).0) [
      | inl new ↦ rw (new, clients-put_object) (views-find_insert w pid my_id j x)
      | inr old ↦ rw (old, clients-move) (views-find_insert w pid my_id j x)
    ]

views-lose_sight :
    (my_id pid : ℕ) (w : World) (j x : ℕ)
    → views (lose_sight my_id pid w) j x ≡ (not (j == my_id && x == pid) && views w j x)
unfolding lose_sight
views-lose_sight my_id pid w j x = rw clients-remove (views-erase w my_id pid j x)

views-be_lost :
    (my_id pid : ℕ) (w : World) (j x : ℕ)
    → views (be_lost my_id pid w) j x ≡ (not (j == pid && x == my_id) && views w j x)
unfolding be_lost
views-be_lost my_id pid w j x = elim (Bool-cases (find_and_erase_view_id (w.clients pid) my_id).0) [
  | inl old ↦ rw (old, clients-remove) (views-find_erase w pid my_id j x)
  | inr new ↦ rw new (views-find_erase w pid my_id j x)
]

views-meet :
    (viewlist : List ℕ) (my_id pid : ℕ) (w : World) (j x : ℕ)
    → views (meet viewlist my_id pid w) j x ≡ (
        j == my_id && not (mem pid viewlist) && x == pid
        || j == pid && not (is_npc pid) && x == my_id
        || views w j x)
unfolding meet
views-meet viewlist my_id pid w j x = ground (
  arith,
  views-be_seen my_id pid (see viewlist my_id pid w) j x,
  views-see viewlist my_id pid w j x,
)

views-part :
    (sights : List ℕ) (my_id pid : ℕ) (w : World) (j x : ℕ)
    → views (part sights my_id pid w) j x ≡ (
        views w j x
        && not (
            not (mem pid sights)
            && (j == my_id && x == pid || j == pid && not (is_npc pid) && x == my_id)))
unfolding part
views-part sights my_id pid w j x =
    ground (
      arith,
      views-be_lost my_id pid (lose_sight my_id pid w) j x,
      views-lose_sight my_id pid w j x,
    )

views-meets :
    (viewlist : List ℕ) (my_id : ℕ) (sights : List ℕ) (w : World) (j x : ℕ)
    → views (for_each sights (meet viewlist my_id) w) j x ≡ (
        j == my_id && not (mem x viewlist) && mem x sights
        || mem j sights && not (is_npc j) && x == my_id
        || views w j x)
unfolding for_each mem
views-meets viewlist my_id [] w j x = ground arith
views-meets viewlist my_id (pid ∷ sights) w j x = ground (
  arith,
  views-meets viewlist my_id sights (meet viewlist my_id pid w) j x,
  views-meet viewlist my_id pid w j x,
)

views-parts :
    (sights : List ℕ) (my_id : ℕ) (viewlist : List ℕ) (w : World) (j x : ℕ)
    → views (for_each viewlist (part sights my_id) w) j x ≡ (
        views w j x
        && not (j == my_id && mem x viewlist && not (mem x sights))
        && not (mem j viewlist && not (mem j sights) && not (is_npc j) && x == my_id))
unfolding for_each mem
views-parts sights my_id [] w j x = ground arith
views-parts sights my_id (pid ∷ viewlist) w j x = ground (
  arith,
  views-parts sights my_id viewlist (part sights my_id pid w) j x,
  views-part sights my_id pid w j x,
)

-- `viewlist` is the view list of `my_id`, nobody looks at himself, and the players see each other.
pub record IsMutual (w : World) (my_id : ℕ) : Type 0 where
  pub not_self : views w my_id my_id ≡ false
  pub both : (j : ℕ) → is_npc j ≡ false → views w j my_id ≡ views w my_id j

-- After `HandlePlayersInSight` and `HandleDisappearedPlayers` for an id that is not in the set in
-- sight, and whose view list and the players' agree, that id sees exactly those in sight, every other
-- player sees it exactly if he is in sight, and no other entry of a view list has changed.
pub views_follow_sight :
    (w : World) (sights : List ℕ) (my_id : ℕ)
    → mem my_id sights ≡ false
    → IsMutual w my_id
    → (j x : ℕ)
    → let viewlist = (w.clients my_id).view_list in
      let w' =
        handle_disappeared_players
          (handle_players_in_sight w sights viewlist my_id)
          sights
          viewlist
          my_id in
      views w' j x ≡ (
        if j == my_id
        then mem x sights
        else if x == my_id && not (is_npc j)
        then mem j sights
        else views w j x)
unfolding handle_players_in_sight handle_disappeared_players
views_follow_sight w sights my_id out m j x =
    let viewlist = (w.clients my_id).view_list in
    views-parts sights my_id viewlist (for_each sights (meet viewlist my_id) w) j x
    ∙ rw views-meets (follows (Bool-cases (j == my_id)) (Bool-cases (x == my_id)))
  where
    follows :
        ((j == my_id) ≡ true) ⊎ ((j == my_id) ≡ false)
        → ((x == my_id) ≡ true) ⊎ ((x == my_id) ≡ false)
        → ((j == my_id && not (mem x (w.clients my_id).view_list) && mem x sights
              || mem j sights && not (is_npc j) && x == my_id
              || views w j x)
            && not (j == my_id && views w my_id x && not (mem x sights))
            && not (views w my_id j && not (mem j sights) && not (is_npc j) && x == my_id))
          ≡ (if j == my_id
              then mem x sights
              else if x == my_id && not (is_npc j)
              then mem j sights
              else views w j x)
    follows (inl e) (inl f) = ground (arith, m.not_self)
    follows (inl e) (inr f) = ground arith
    follows (inr e) (inl f) = ground (arith, m.both j)
    follows (inr e) (inr f) = ground arith
