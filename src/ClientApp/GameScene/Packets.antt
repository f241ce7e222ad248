-- ===== src/ClientApp/GameScene/Packets.antt =====
-- Packets and frames in turns, and a packet in the middle of a frame.
use server_programming.Base.{
  ℕ, ◌≡◌, refl, sym, ◌∙◌, ◌⊎◌, inl, inr, Bool, true, false, ◌&&◌, Bool-cases, Option-cases, List,
  [], ◌∷◌, arith,
}
use server_programming.Base.Dict.{lookup}
use server_programming.Base.Dict.Keys.{
  has, has-assign, has_self, known_self, has_absent, Distinct, assign-Distinct, remove-Distinct,
}
use server_programming.Base.Int.{ℤ}
use server_programming.Network.Protocol.{
  Packet, login_ok, login_fail, put_object, move, remove_object, status_change, battle_result, chat,
}
use server_programming.ClientApp.ClientSocket.{Player, ClientSocket, set_player, set_message}
use server_programming.ClientApp.ClientSocket.Stream.{take_packet}
use server_programming.ClientApp.GameScene.{
  GameScene, append_or_delete_players, update_players_coord, update_scene, update,
}
use server_programming.ClientApp.GameScene.Frames.{
  has-append_or_delete, append_or_delete-fault, has-update, missing_faults, spot, spot_of,
  update_shows,
}

-- The scene has the players of the socket, or is told that it has not.
pub record IsReady {Q : Type 0} (c : ClientSocket Q) (s : GameScene) : Type 0 where
  pub distinct : Distinct c.player_infos
  pub known : (c.dirty ≡ true) ⊎ ((k : ℕ) → has k s.players ≡ has k c.player_infos)
  pub ok : s.fault ≡ false

-- Who moves or speaks is known.
unfoldable pub is_known : {Q : Type 0} → Packet → ClientSocket Q → Bool
unfolding has
is_known (move id x y move_time) c = has id c.player_infos
is_known (chat id message) c = has id c.player_infos
is_known _ c = true

pub data Event : Type 0 where
  packet : Packet → Event
  frame : Event

unfoldable pub happen :
    {Q : Type 0} → Event → ClientSocket Q × GameScene → ClientSocket Q × GameScene
unfolding take_packet update
happen (packet p) (c, s) = (take_packet p c, s)
happen frame (c, s) = update c s

unfoldable pub happen_all :
    {Q : Type 0} → List Event → ClientSocket Q × GameScene → ClientSocket Q × GameScene
unfolding happen
happen_all [] a = a
happen_all (e ∷ events) a = happen_all events (happen e a)

unfoldable pub all_known : {Q : Type 0} → List Event → ClientSocket Q × GameScene → Bool
unfolding happen is_known
all_known [] a = true
all_known (packet p ∷ events) a = is_known p a.0 && all_known events (happen (packet p) a)
all_known (frame ∷ events) a = all_known events (happen frame a)

set_message-Distinct :
    (infos : List (ℕ × Player)) (id : ℕ) (message : List ℕ)
    → Distinct infos
    → Distinct (set_message infos id message)
unfolding set_message
set_message-Distinct infos id message d = elim (Option-cases (lookup id infos)) [
  | inl absent ↦ rw (absent, set_message) (assign-Distinct id _ infos d)
  | inr (p, found) ↦ rw (found, set_message) (assign-Distinct id _ infos d)
]

has-set_message :
    (infos : List (ℕ × Player)) (id k : ℕ) (message : List ℕ)
    → has id infos ≡ true
    → has k (set_message infos id message) ≡ has k infos
unfolding set_message
has-set_message infos id k message here = elim (Option-cases (lookup id infos)) [
  | inl absent ↦ absurd (ground (arith, has_absent id infos absent))
  | inr (p, found) ↦ rw (found, set_message) (has-assign id k _ infos ∙ has_self id k infos found)
]

has-set_player :
    (infos : List (ℕ × Player)) (id k : ℕ) (x y : ℤ)
    → has id infos ≡ true
    → has k (set_player infos id x y) ≡ has k infos
unfolding set_player
has-set_player infos id k x y here = has-assign id k _ infos ∙ known_self id k infos here

take_packet-IsReady :
    {Q : Type 0} (p : Packet) (c : ClientSocket Q) (s : GameScene)
    → is_known p c ≡ true
    → IsReady c s
    → IsReady (take_packet p c) s
unfolding take_packet is_known set_player
take_packet-IsReady (login_ok id x y level hp max_hp exp) c s known r = record {
  distinct = assign-Distinct id _ c.player_infos r.distinct;
  known = inl refl;
  ok = r.ok;
}
take_packet-IsReady (put_object id x y object_type name) c s known r = record {
  distinct = assign-Distinct id _ c.player_infos r.distinct;
  known = inl refl;
  ok = r.ok;
}
take_packet-IsReady (remove_object id) c s known r = record {
  distinct = remove-Distinct id c.player_infos r.distinct;
  known = inl refl;
  ok = r.ok;
}
take_packet-IsReady (move id x y move_time) c s known r = record {
  distinct = assign-Distinct id _ c.player_infos r.distinct;
  known = elim r.known [
    | inl dirty ↦ inl dirty
    | inr same ↦ inr (λ k. same k ∙ sym (has-set_player c.player_infos id k x y known))
  ];
  ok = r.ok;
}
take_packet-IsReady (chat id message) c s known r = record {
  distinct = set_message-Distinct c.player_infos id message r.distinct;
  known = elim r.known [
    | inl dirty ↦ inl dirty
    | inr same ↦ inr (λ k. same k ∙ sym (has-set_message c.player_infos id k message known))
  ];
  ok = r.ok;
}
take_packet-IsReady (login_fail reason) c s known r = r
take_packet-IsReady (status_change level hp max_hp exp) c s known r = r
take_packet-IsReady (battle_result result_type target value) c s known r = r

pub update-IsReady :
    {Q : Type 0} (c : ClientSocket Q) (s : GameScene)
    → IsReady c s
    → let (c', s') = update c s in
      IsReady c' s'
      × (c'.player_infos ≡ c.player_infos)
      × ((k : ℕ) → spot (lookup k s'.players) ≡ spot_of (lookup k c.player_infos))
unfolding update update_scene
update-IsReady c s r = elim (Bool-cases c.dirty) [
  | inl dirty ↦
      let s' = append_or_delete_players s c.id c.player_infos in
      let same = has-append_or_delete s c.id c.player_infos in
      let shows =
        update_shows c.player_infos s' r.distinct same
          (append_or_delete-fault s c.id c.player_infos ∙ r.ok) in
      rw dirty (
        record {
          distinct = r.distinct;
          known = inr (λ k. has-update c.player_infos s' k ∙ same k);
          ok = shows.0;
        },
        refl,
        shows.1,
      )
  | inr clean ↦
      let same : (k : ℕ) → has k s.players ≡ has k c.player_infos = elim r.known [
        | inl dirty ↦ absurd (ground arith)
        | inr all ↦ all
      ] in
      let shows = update_shows c.player_infos s r.distinct same r.ok in
      rw clean (
        record {
          distinct = r.distinct;
          known = inr (λ k. has-update c.player_infos s k ∙ same k);
          ok = shows.0;
        },
        refl,
        shows.1,
      )
]

pub happen_all-IsReady :
    {Q : Type 0} (events : List Event) (a : ClientSocket Q × GameScene)
    → all_known events a ≡ true
    → IsReady a.0 a.1
    → IsReady (happen_all events a).0 (happen_all events a).1
unfolding happen_all all_known
happen_all-IsReady [] a known r = r
happen_all-IsReady (packet p ∷ events) (c, s) known r =
    happen_all-IsReady events (take_packet p c, s) (ground arith)
      (take_packet-IsReady p c s (ground arith) r)
happen_all-IsReady (frame ∷ events) (c, s) known r =
    happen_all-IsReady events (update c s) known (update-IsReady c s r).0

-- From a client whose scene has the players that the socket knows of, or whose flag says that it may
-- not, packets and whole frames in any order, where only known players move and speak: the next frame
-- reads no null pointer, and then the pawns are exactly those of the known players, each in the
-- place that the packets gave.
pub frames_show :
    {Q : Type 0} (events : List Event) (c : ClientSocket Q) (s : GameScene)
    → all_known events (c, s) ≡ true
    → IsReady c s
    → let (c', s') = happen_all events (c, s) in
      let s'' = (update c' s').1 in
      (s''.fault ≡ false)
      × ((k : ℕ) → spot (lookup k s''.players) ≡ spot_of (lookup k c'.player_infos))
frames_show events c s known r =
    let (c', s') = happen_all events (c, s) in
    let (ready, same, shows) = update-IsReady c' s' (happen_all-IsReady events (c, s) known r) in
    (ready.ok, shows)

-- A frame that sees the flag, and a packet of a new player that comes after the frame has made its
-- copy: the flag is lost, and the next frame reads a null pointer.
pub lost_flag_faults :
    {Q : Type 0} (c : ClientSocket Q) (s : GameScene) (id : ℕ) (x y : ℤ) (object_type : ℕ)
    (name : List ℕ)
    → has id c.player_infos ≡ false
    → let c' = take_packet (put_object id x y object_type name) c in
      let (c'', s') = update_scene c.player_infos c' s in (update c'' s').1.fault ≡ true
unfolding take_packet update update_scene set_player
lost_flag_faults c s id x y object_type name new =
    let s₁ = append_or_delete_players s c.id c.player_infos in
    missing_faults (set_player c.player_infos id x y) (update_players_coord s₁ c.player_infos) id
      (has-assign id id _ c.player_infos ∙ ground arith)
      (has-update c.player_infos s₁ id ∙ has-append_or_delete s c.id c.player_infos id ∙ new)
