-- ===== src/Ipc/Client/Sender.antt =====
-- internal/ipc/client.go: what the sender delivers, and what a `Send` during a failing write costs.
use ro_proxy.Prelude.{
  ℕ, zero, suc, ◌+◌, ◌<◌, ◌≡◌, refl, ap, ◌∙◌, List, [], ◌∷◌, ◌++◌, Option, some, none, Bool, true,
  ◌&&◌, inl, inr,
}
use ro_proxy.Prelude.{length, replicate, Bool-cases, if◌then◌else◌, arith}
use ro_proxy.Ipc.Frame.{Frame}
use ro_proxy.Ipc.Client.{
  Client, buffer_size, send, pop_frame, push_front, redial, reconnect, process_buffer, Dial, closed,
  refused, accepted,
}
use ro_proxy.Ipc.Client.Ring.{
  Represents, pop_frame_nil, pop_frame_cons, push_front-Represents, push_front_full, send_room,
}

redial-Represents :
    (c : Client) (q : List Frame) (dials : List Dial)
    → Represents c q
    → Represents (redial c dials) q
unfolding redial
redial-Represents c q [] r = r
redial-Represents c q (closed ∷ dials) r = r
redial-Represents c q (refused ∷ dials) r = redial-Represents c q dials r
redial-Represents c q (accepted ∷ dials) r = record {
  head_in = r.head_in;
  counted = r.counted;
  bounded = r.bounded;
  tail_at = r.tail_at;
  slots = r.slots;
}

reconnect-Represents :
    (c : Client) (q : List Frame) (dials : List Dial)
    → Represents c q
    → Represents (reconnect c dials) q
unfolding reconnect
reconnect-Represents c q dials r = redial-Represents _ q dials (record {
  head_in = r.head_in;
  counted = r.counted;
  bounded = r.bounded;
  tail_at = r.tail_at;
  slots = r.slots;
})

-- What a run of the sender may leave of the queue `q`: the frames delivered are a front of it, and the
-- ring holds the others.
record Leaves (q : List Frame) (out : List Frame × Client) : Type 0 where
  left : List Frame
  split : out.0 ++ left ≡ q
  holds : Represents out.1 left

-- The popped frame is put back.
put_back :
    (c : Client) (x : Frame) (q : List Frame) (dials : List Dial)
    → Represents c (x ∷ q)
    → Leaves (x ∷ q) ([], reconnect (push_front (pop_frame c).1 x) dials)
put_back c x q dials r = record {
  left = x ∷ q;
  split = refl;
  holds = reconnect-Represents _ (x ∷ q) dials (
      push_front-Represents (pop_frame c).1 q x (pop_frame_cons c x q r).1
        (omega (arith, r.bounded)));
}

module _ (fuel : ℕ) (dials : List Dial) (c : Client) where
  no_frame : Represents c [] → (pop_frame c).0 ≡ none
  no_frame r = ap (λ (p : Option Frame × Client). p.0) (pop_frame_nil c r)

  same_client : Represents c [] → (pop_frame c).1 ≡ c
  same_client r = ap (λ (p : Option Frame × Client). p.1) (pop_frame_nil c r)

  run_empty :
      (writes : List Bool) → Represents c [] → process_buffer (suc fuel) writes dials c ≡ ([], c)
  unfolding process_buffer
  run_empty [] r = rw (no_frame r, process_buffer) (rw (same_client r))
  run_empty (goes ∷ writes) r = rw (no_frame r, process_buffer) (rw (same_client r))

  abbrev failed_write : Frame → List Frame × Client
  failed_write x = ([], reconnect (push_front (pop_frame c).1 x) dials)

  run_no_write :
      (x : Frame) → (pop_frame c).0 ≡ some x → process_buffer (suc fuel) [] dials c ≡ failed_write x
  unfolding process_buffer
  run_no_write x e = rw (e, process_buffer)

  run_write :
      (x : Frame) (goes : Bool) (writes : List Bool)
      → (pop_frame c).0 ≡ some x
      → process_buffer (suc fuel) (goes ∷ writes) dials c ≡ (
          let (sent, c') = process_buffer fuel writes dials (pop_frame c).1 in
          if c.connected && goes then (x ∷ sent, c') else failed_write x)
  unfolding process_buffer
  run_write x goes writes e = rw (e, process_buffer)

add_delivered :
    (x : Frame) (q : List Frame) (out : List Frame × Client)
    → Leaves q out
    → Leaves (x ∷ q) (x ∷ out.0, out.1)
add_delivered x q out l = record { left = l.left; split = ap (λ t. x ∷ t) l.split; holds = l.holds }

leaves :
    (fuel : ℕ) (writes : List Bool) (dials : List Dial) (c : Client) (q : List Frame)
    → Represents c q
    → length q < fuel
    → Leaves q (process_buffer fuel writes dials c)
leaves zero writes dials c q r h = absurd (omega arith)
leaves (suc fuel) writes dials c [] r h =
    rw (run_empty fuel dials c writes r) (record { left = []; split = refl; holds = r })
leaves (suc fuel) [] dials c (x ∷ q) r h =
    rw (run_no_write fuel dials c x (pop_frame_cons c x q r).0) (put_back c x q dials r)
leaves (suc fuel) (goes ∷ writes) dials c (x ∷ q) r h =
    let (first, rest) = pop_frame_cons c x q r in
    elim (Bool-cases (c.connected && goes)) [
      | inl good ↦
          rw (run_write fuel dials c x goes writes first, good)
            (add_delivered x q _ (leaves fuel writes dials (pop_frame c).1 q rest (omega arith)))
      | inr bad ↦ rw (run_write fuel dials c x goes writes first, bad) (put_back c x q dials r)
    ]

-- With no `Send` meanwhile, `processBuffer` delivers the oldest frames in their order and keeps all
-- others, whichever writes and dials fail; the fuel has to exceed the number of frames held.
pub process_buffer_keeps :
    (fuel : ℕ) (writes : List Bool) (dials : List Dial) (c : Client) (q : List Frame)
    → Represents c q
    → length q < fuel
    → (left : List Frame) × ((process_buffer fuel writes dials c).0 ++ left ≡ q)
      × Represents (process_buffer fuel writes dials c).1 left
process_buffer_keeps fuel writes dials c q r h =
    let l : Leaves q (process_buffer fuel writes dials c) = leaves fuel writes dials c q r h in
    (l.left, l.split, l.holds)

connected-pop_frame : (c : Client) → (pop_frame c).1.connected ≡ c.connected
unfolding pop_frame
connected-pop_frame c = ground arith

-- Where the client is connected and every write goes through, `processBuffer` delivers all frames,
-- oldest first, and leaves the ring empty.
pub process_buffer_delivers :
    (dials : List Dial) (c : Client) (q : List Frame)
    → Represents c q
    → c.connected ≡ true
    → ((process_buffer (suc (length q)) (replicate (length q) true) dials c).0 ≡ q)
      × Represents (process_buffer (suc (length q)) (replicate (length q) true) dials c).1 []
process_buffer_delivers dials c [] r on = rw (run_empty 0 dials c [] r) (refl, r)
process_buffer_delivers dials c (x ∷ q) r on =
    let (first, rest) = pop_frame_cons c x q r in
    let (all, none_left) =
      process_buffer_delivers dials (pop_frame c).1 q rest (connected-pop_frame c ∙ on) in
    let good : (c.connected && true) ≡ true = ground arith in
    rw (run_write (suc (length q)) dials c x true (replicate (length q) true) first, good)
      (ap (λ t. x ∷ t) all, none_left)

-- A `Send` while the write of the oldest frame of a full ring is failing: the ring counts one frame
-- more than it has slots, and the frame just sent is overwritten by the one put back.
pub send_during_write_lost :
    (c : Client) (x : Frame) (q : List Frame) (newest : Frame)
    → Represents c (x ∷ q)
    → length (x ∷ q) ≡ buffer_size
    → let during = send (pop_frame c).1 newest in
      let after = push_front during x in
      (after.count ≡ buffer_size + 1)
      × (during.buffer after.head ≡ some newest)
      × (after.buffer after.head ≡ some x)
send_during_write_lost c x q newest r full =
    push_front_full (send (pop_frame c).1 newest) q newest x
      (send_room (pop_frame c).1 q newest (pop_frame_cons c x q r).1 (omega arith)) (omega arith)
