-- ===== src/System/Screen/Play.antt =====
-- A client of D2DApp who handles the packets that the server sent to his slot.
use server_programming.Base.{
  ℕ, ◌≡◌, refl, ◌∙◌, inl, inr, false, Bool-cases, List, [], ◌∷◌, ◌==◌, if◌then◌else◌,
}
use server_programming.Base.Dict.{lookup}
use server_programming.Network.Protocol.{Packet}
use server_programming.Server.DbHandler.{Database}
use server_programming.Server.World.{World}
use server_programming.Server.Sight.Views.{views}
use server_programming.Client.Scene.{Scene}
use server_programming.Client.Scene
use server_programming.Client.NetClient.{NetClient, handle}
use server_programming.Client.NetClient.Screen.{displays, displays-handle}
use server_programming.System.Runs.{Reached}
use server_programming.System.Screen.{screen}
use server_programming.System.Screen.Runs.{reached-IsFaithful}

-- The client after the packets of the slot `j`, of which the newest stands first; the packet under
-- `rest` is handled at the time `clock rest`.
unfoldable pub play : (List (ℕ × Packet) → ℕ) → NetClient → List (ℕ × Packet) → ℕ → NetClient
unfolding handle
play clock c [] j = c
play clock c ((k, p) ∷ rest) j =
    let c' = play clock c rest j in if k == j then (handle c' (clock rest) p).1 else c'

displays-play :
    (clock : List (ℕ × Packet) → ℕ) (c : NetClient) (sent : List (ℕ × Packet)) (j x : ℕ)
    → displays c.scene x ≡ false
    → displays (play clock c sent j).scene x ≡ screen sent j x
unfolding play screen
displays-play clock c [] j x bare = bare
displays-play clock c ((k, p) ∷ rest) j x bare = elim (Bool-cases (k == j)) [
  | inl mine ↦ rw mine (
      displays-handle (play clock c rest j) (clock rest) p x
      ∙ rw (displays-play clock c rest j x bare) refl)
  | inr others ↦ rw others (displays-play clock c rest j x bare)
]

-- In every world that the server reaches from its start without having left its defined behaviour, a
-- client whose scene was empty at first and who has handled all packets sent to the slot `j` shows
-- exactly those, apart from himself, that the server keeps in the view list of `j`.
pub scene_shows_views :
    {database : Database} {rand : ℕ → ℕ} {now : ℕ} {w : World}
    → Reached database rand now w
    → w.fault ≡ false
    → (clock : List (ℕ × Packet) → ℕ) (c : NetClient) → c.scene ≡ Scene.new
    → (j x : ℕ) → (x == j) ≡ false
    → displays (play clock c w.sent j).scene x ≡ views w j x
unfolding Scene.new lookup
scene_shows_views {w = w} reached ok clock c empty j x other =
    displays-play clock c w.sent j x (rw empty refl)
    ∙ (reached-IsFaithful reached).shows ok j x other
