-- ===== src/Ipc/Server/Delivery.antt =====
-- internal/ipc/server.go: the processor gets the frames that the proxy wrote, in their order.
use ro_proxy.Prelude.{
  ℕ, zero, suc, ◌+◌, ◌≤◌, ◌<◌, ◌≡◌, refl, ap, sym, ◌∙◌, List, [], ◌∷◌, ◌++◌, append_assoc, true,
}
use ro_proxy.Prelude.{length, take, drop, ltb, All, length-append, length-drop, arith}
use ro_proxy.Common.Base.{Bytes}
use ro_proxy.Ipc.Frame.{Frame, encode, failed, FrameError, decode_frame}
use ro_proxy.Ipc.Frame.RoundTrip.{IsFrame, decode_frame-encode}
use ro_proxy.Ipc.Server.{
  Served, frame_capacity, disconnect_frame, take_frames, offer, next_take, later_takes,
  handle_connection, returned,
}

-- The bytes of frames written one after the other.
abbrev pub bytes_of_frames : List Frame → Bytes
bytes_of_frames [] = []
bytes_of_frames (f ∷ fs) = encode f ++ bytes_of_frames fs

-- All frames that went into the channel, oldest first.
abbrev pub frames_in : Served → List Frame
frames_in s = s.taken ++ s.waiting

pub take-append-drop {ℓ} : {A : Type ℓ} (n : ℕ) (xs : List A) → take n xs ++ drop n xs ≡ xs
take-append-drop zero xs = refl
take-append-drop (suc n) [] = refl
take-append-drop (suc n) (x ∷ xs) = ap (λ t. x ∷ t) (take-append-drop n xs)

frames_in-take_frames : (n : ℕ) (s : Served) → frames_in (take_frames n s) ≡ frames_in s
frames_in-take_frames n s =
    append_assoc s.taken (take n s.waiting) (drop n s.waiting)
    ∙ ap (λ t. s.taken ++ t) (take-append-drop n s.waiting)

frames_in-offer :
    (f : Frame) (s : Served)
    → length s.waiting < frame_capacity
    → frames_in (offer f s) ≡ frames_in s ++ (f ∷ [])
frames_in-offer f s room =
    let e : ltb (length s.waiting) frame_capacity ≡ true = ground arith in
    rw e (sym (append_assoc s.taken s.waiting (f ∷ [])))

-- One round of the loop, for a channel with room.
module _ (f : Frame) (n : ℕ) (s : Served) (room : length s.waiting < frame_capacity) where
  after_round : Served
  after_round = offer f (take_frames n s)

  frames_in-round : frames_in (offer f (take_frames n s)) ≡ frames_in s ++ (f ∷ [])
  frames_in-round =
      frames_in-offer f (take_frames n s) (omega (arith, length-drop n s.waiting))
      ∙ ap (λ t. t ++ (f ∷ [])) (frames_in-take_frames n s)

  length-round : length (offer f (take_frames n s)).waiting ≤ length s.waiting + 1
  length-round = ground (arith, length-drop n s.waiting, length-append (drop n s.waiting) (f ∷ []))

-- On a connection that delivers whole frames and then what is no frame, and while the channel has room
-- for all of them and the disconnect frame, the goroutine returns, and the frames went into the
-- channel in their order, followed by the disconnect frame, however the processor takes them out.
pub handle_connection_delivers :
    (fs : List Frame) (rest : Bytes) (e : FrameError) (takes : List ℕ) (fuel : ℕ) (s : Served)
    → All IsFrame fs
    → decode_frame rest ≡ failed e
    → length fs < fuel
    → length s.waiting + length fs < frame_capacity
    → let (ended, s') = handle_connection fuel takes (bytes_of_frames fs ++ rest) s in
      (ended ≡ returned) × (frames_in s' ≡ frames_in s ++ (fs ++ (disconnect_frame ∷ [])))
unfolding handle_connection
handle_connection_delivers fs rest e takes zero s v bad h room = absurd (omega arith)
handle_connection_delivers [] rest e takes (suc fuel) s v bad h room =
    rw (bad, handle_connection)
      (refl, frames_in-round disconnect_frame (next_take takes) s (omega arith))
handle_connection_delivers (f ∷ fs) rest e takes (suc fuel) s (v, vs) bad h room =
    let n : ℕ = next_take takes in
    let (ends, frames) =
      handle_connection_delivers fs rest e (later_takes takes) fuel (offer f (take_frames n s)) vs
        bad (omega arith) (omega (arith, length-round f n s (omega arith))) in
    rw
      (
        append_assoc (encode f) (bytes_of_frames fs) rest,
        decode_frame-encode f (bytes_of_frames fs ++ rest) v,
        handle_connection,
      )
      (
        ends,
        frames
            ∙ ap (λ t. t ++ (fs ++ (disconnect_frame ∷ []))) (frames_in-round f n s (omega arith))
            ∙ append_assoc (frames_in s) (f ∷ []) (fs ++ (disconnect_frame ∷ [])),
      )
