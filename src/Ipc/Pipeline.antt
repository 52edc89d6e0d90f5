-- ===== src/Ipc/Pipeline.antt =====
-- internal/ipc: the proxy's ring, its sender, and the analyzer's server together.
use ro_proxy.Prelude.{ℕ, ◌≤◌, ◌<◌, ◌≡◌, ap, sym, subst, Bool, List, [], ◌∷◌, ◌++◌}
use ro_proxy.Prelude.{length, All, length-append, arith}
use ro_proxy.Common.Base.{Bytes}
use ro_proxy.Ipc.Frame.{Frame, FrameError, failed, decode_frame}
use ro_proxy.Ipc.Frame.RoundTrip.{IsFrame}
use ro_proxy.Ipc.Client.{Client, Dial, process_buffer}
use ro_proxy.Ipc.Client.Ring.{Represents}
use ro_proxy.Ipc.Client.Sender.{process_buffer_keeps}
use ro_proxy.Ipc.Server.{Served, frame_capacity, disconnect_frame, handle_connection, returned}
use ro_proxy.Ipc.Server.Delivery.{bytes_of_frames, frames_in, handle_connection_delivers}

All-append_left {ℓ κ} : {A : Type ℓ} (P : A → Type κ) (xs ys : List A) → All P (xs ++ ys) → All P xs
All-append_left P [] ys h = tt
All-append_left P (x ∷ xs) ys (h, hs) = (h, All-append_left P xs ys hs)

abbrev pub no_frames : Served
no_frames = record { taken = []; waiting = [] }

-- The frames in the proxy's ring that a run of the sender delivers, in their order, are the frames
-- that the analyzer's channel gets, followed by the disconnect frame; the ring still holds all
-- others. The frames fit their length fields. Writes and dials may fail; what arrives behind the
-- delivered frames is no whole frame, and the ring holds less frames than the channel takes.
pub pipeline_keeps :
    (fuel : ℕ) (writes : List Bool) (dials : List Dial) (c : Client) (q : List Frame) (rest : Bytes)
    (e : FrameError) (takes : List ℕ) (served : ℕ)
    → Represents c q
    → All IsFrame q
    → length q < fuel
    → length q < frame_capacity
    → decode_frame rest ≡ failed e
    → length q < served
    → let (sent, c') = process_buffer fuel writes dials c in
      let (ended, s) = handle_connection served takes (bytes_of_frames sent ++ rest) no_frames in
      (left : List Frame) × (ended ≡ returned)
      × (frames_in s ≡ sent ++ (disconnect_frame ∷ []))
      × (sent ++ left ≡ q)
      × Represents c' left
pipeline_keeps fuel writes dials c q rest e takes served r v h room bad more =
    let (left, split, holds) = process_buffer_keeps fuel writes dials c q r h in
    let sent : List Frame = (process_buffer fuel writes dials c).0 in
    let few : length sent ≤ length q = omega (arith, ap length split, length-append sent left) in
    let (ends, frames) =
      handle_connection_delivers sent rest e takes served no_frames
        (All-append_left IsFrame sent left (subst (All IsFrame) (sym split) v)) bad
        (omega (arith, few)) (omega (arith, few)) in
    (left, ends, frames, split, holds)
