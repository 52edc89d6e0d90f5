-- ===== src/System.antt =====
-- The way of the bytes through both programs: internal/proxy/connection.go, internal/ipc and
-- internal/analyzer together.
pub mod Channel
pub mod Delivery
use ro_proxy.Prelude.{ℕ, List, [], ◌∷◌}
use ro_proxy.Ipc.Frame.{Frame}
use ro_proxy.Ipc.Client.{Client, send}

-- `Send` for one frame after the other.
unfoldable pub send_all : List Frame → Client → Client
send_all [] c = c
send_all (f ∷ fs) c = send_all fs (send c f)
