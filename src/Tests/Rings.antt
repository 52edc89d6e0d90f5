-- ===== src/Tests/Rings.antt =====
-- Runs of internal/ipc/client.go.
use ro_proxy.Prelude.{
  ℕ, ◌+◌, ◌<◌, ◌≡◌, refl, List, [], ◌∷◌, ◌++◌, some, true, false, zero, suc, sym, length,
  length-replicate, get_elem?, replicate, arith,
}
use ro_proxy.Prelude.Int.{pos}
use ro_proxy.Ipc.Frame.{Frame, new_conn_close_frame}
use ro_proxy.Ipc.Client.{
  Client, buffer_size, new_client, send, pop_frame, push_front, process_buffer, refused, accepted,
}
use ro_proxy.Ipc.Client.Ring.{
  Represents, enqueue, new_client-Represents, send-Represents, pop_frame_cons,
  push_front-Represents,
}
use ro_proxy.Ipc.Client.Sender.{
  process_buffer_keeps, process_buffer_delivers, send_during_write_lost,
}

abbrev frame : ℕ → Frame
frame id = new_conn_close_frame id (pos 0)

one-Represents : Represents (send new_client (frame 1)) (enqueue [] (frame 1))
one-Represents = send-Represents new_client [] (frame 1) new_client-Represents

abbrev one : Client
one = send new_client (frame 1)

one_holds : Represents one (frame 1 ∷ [])
one_holds = unfold enqueue in one-Represents

send-Represents_example : Represents (send one (frame 2)) (enqueue (frame 1 ∷ []) (frame 2))
send-Represents_example = send-Represents one (frame 1 ∷ []) (frame 2) one_holds

pop_frame_cons_example : ((pop_frame one).0 ≡ some (frame 1)) × Represents (pop_frame one).1 []
pop_frame_cons_example = pop_frame_cons one (frame 1) [] one_holds

push_front-Represents_example : Represents (push_front one (frame 2)) (frame 2 ∷ frame 1 ∷ [])
push_front-Represents_example =
    push_front-Represents one (frame 1 ∷ []) (frame 2) one_holds (omega arith)

process_buffer_keeps_example :
    (left : List Frame) × ((process_buffer 2 (false ∷ []) (refused ∷ accepted ∷ []) one).0 ++ left
      ≡ frame 1 ∷ [])
    × Represents (process_buffer 2 (false ∷ []) (refused ∷ accepted ∷ []) one).1 left
process_buffer_keeps_example =
    process_buffer_keeps 2 (false ∷ []) (refused ∷ accepted ∷ []) one (frame 1 ∷ []) one_holds
      (omega arith)

-- The same ring, with a connection.
abbrev online : Client
online = record one { connected = true }

online_holds : Represents online (frame 1 ∷ [])
online_holds = record {
  head_in = one_holds.head_in;
  counted = one_holds.counted;
  bounded = one_holds.bounded;
  tail_at = one_holds.tail_at;
  slots = one_holds.slots;
}

process_buffer_delivers_example :
    ((process_buffer 2 (true ∷ []) [] online).0 ≡ frame 1 ∷ [])
    × Represents (process_buffer 2 (true ∷ []) [] online).1 []
process_buffer_delivers_example = process_buffer_delivers [] online (frame 1 ∷ []) online_holds refl

-- A ring with the frame 1 in every slot.
abbrev full : Client
full = record new_client { buffer = λ _. some (frame 1); count = buffer_size }

get_elem?-replicate : (n k : ℕ) (f : Frame) → k < n → get_elem? (replicate n f) k ≡ some f
get_elem?-replicate zero k f h = absurd (omega arith)
get_elem?-replicate (suc n) zero f h = refl
get_elem?-replicate (suc n) (suc k) f h = get_elem?-replicate n k f (omega arith)

full_holds : (n : ℕ) → suc n ≡ buffer_size → Represents full (frame 1 ∷ replicate n (frame 1))
full_holds n e = record {
  head_in = omega arith;
  counted = omega (arith, e, length-replicate n (frame 1));
  bounded = omega (arith, e, length-replicate n (frame 1));
  tail_at = refl;
  slots = λ k h. sym (get_elem?-replicate (suc n) k (frame 1) (omega arith));
}

full_length : (n : ℕ) → suc n ≡ buffer_size → length (frame 1 ∷ replicate n (frame 1)) ≡ buffer_size
full_length n e = omega (arith, e, length-replicate n (frame 1))

send_during_write_lost_example :
    let during = send (pop_frame full).1 (frame 2) in
    let after = push_front during (frame 1) in
    (after.count ≡ buffer_size + 1)
    × (during.buffer after.head ≡ some (frame 2))
    × (after.buffer after.head ≡ some (frame 1))
send_during_write_lost_example =
    send_during_write_lost full (frame 1) (replicate 9999 (frame 1)) (frame 2)
      (full_holds 9999 refl) (full_length 9999 refl)
