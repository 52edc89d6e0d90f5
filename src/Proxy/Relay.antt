-- ===== src/Proxy/Relay.antt =====
-- internal/proxy/connection.go, `relay`: each chunk that is read is written to the other side at once,
-- and then sent to the analyzer in a frame.
use ro_proxy.Prelude.{ℕ, List, [], ◌∷◌, ◌++◌, Option, some, none}
use ro_proxy.Prelude.{take}
use ro_proxy.Prelude.Int.{ℤ}
use ro_proxy.Common.Base.{Bytes, PacketDirection}
use ro_proxy.Ipc.Frame.{Frame}
use ro_proxy.Proxy.{Connection, data_frame}

abbrev pub buffer_bytes : ℕ
buffer_bytes = 4096

-- A round of the loop: the context is done, the read times out, the read fails, or a chunk is read; the
-- write of a chunk goes through, or fails after some of its bytes.
pub data Round : Type 0 where
  cancelled timed_out read_failed : Round
  chunk : (bytes : Bytes) → (now : ℤ) → (written : Option ℕ) → Round

-- The bytes written to the other side, and the frames sent to the analyzer.
pub record Relayed : Type 0 where
  pub forwarded : Bytes
  pub frames : List Frame

abbrev pub nothing : Relayed
nothing = record { forwarded = []; frames = [] }

abbrev pub forward : Bytes → Frame → Relayed → Relayed
forward bytes f r = record { forwarded = bytes ++ r.forwarded; frames = f ∷ r.frames }

unfoldable pub relay : Connection → PacketDirection → List Round → Relayed
relay c direction [] = nothing
relay c direction (cancelled ∷ rounds) = nothing
relay c direction (timed_out ∷ rounds) = relay c direction rounds
relay c direction (read_failed ∷ rounds) = nothing
relay c direction (chunk bytes now none ∷ rounds) =
    forward bytes (data_frame c direction bytes now) (relay c direction rounds)
relay c direction (chunk bytes now (some k) ∷ rounds) = record {
  forwarded = take k bytes;
  frames = [];
}
