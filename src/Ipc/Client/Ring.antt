-- ===== src/Ipc/Client/Ring.antt =====
-- internal/ipc/client.go: the ring is a bounded queue that gives up its oldest frame.
use ro_proxy.Prelude.{
  ℕ, zero, suc, ◌+◌, ◌-◌, ◌%◌, ◌≤◌, ◌<◌, ◌≡◌, ◌≢◌, refl, List, [], ◌∷◌, ◌++◌, some, none, true,
  false,
}
use ro_proxy.Prelude.{
  length, get_elem?, leb, ◌==◌, if◌then◌else◌, length-append, Bool, Bool-cases, inl, inr, arith,
}
use ro_proxy.Ipc.Frame.{Frame}
use ro_proxy.Ipc.Client.{
  Client, buffer_size, new_client, write_slot, drop_oldest, enter, add_frame, send, pop_frame,
  push_front,
}

-- The frames that the ring holds, oldest first; every other slot is empty.
pub record Represents (c : Client) (q : List Frame) : Type 0 where
  pub head_in : c.head < buffer_size
  pub counted : c.count ≡ length q
  pub bounded : length q ≤ buffer_size
  pub tail_at : c.tail ≡ (c.head + c.count) % buffer_size
  pub slots : (k : ℕ) → k < buffer_size → c.buffer ((c.head + k) % buffer_size) ≡ get_elem? q k

-- The queue that `Send` promises: full, it gives up its oldest frame.
unfoldable pub enqueue : List Frame → Frame → List Frame
enqueue [] frame = frame ∷ []
enqueue (oldest ∷ q) frame =
    if leb buffer_size (length (oldest ∷ q))
    then q ++ (frame ∷ [])
    else oldest ∷ (q ++ (frame ∷ []))

get_elem?-append_one :
    (q : List Frame) (frame : Frame) (k : ℕ)
    → get_elem? (q ++ (frame ∷ [])) k ≡ (if k == length q then some frame else get_elem? q k)
get_elem?-append_one [] frame zero = refl
get_elem?-append_one [] frame (suc k) = ground arith
get_elem?-append_one (x ∷ q) frame zero = ground arith
get_elem?-append_one (x ∷ q) frame (suc k) = ground (arith, get_elem?-append_one q frame k)

get_elem?-past : (q : List Frame) (k : ℕ) → length q ≤ k → get_elem? q k ≡ none
get_elem?-past [] k h = refl
get_elem?-past (x ∷ q) zero h = absurd (omega arith)
get_elem?-past (x ∷ q) (suc k) h = get_elem?-past q k (omega arith)

-- A new client holds no frame.
pub new_client-Represents : Represents new_client []
new_client-Represents = record {
  head_in = omega arith;
  counted = refl;
  bounded = omega arith;
  tail_at = refl;
  slots = λ k h. refl;
}

-- A ring with a free slot at its end; what stands in that slot does not matter.
record Room (c : Client) (q : List Frame) : Type 0 where
  head_in : c.head < buffer_size
  counted : c.count ≡ length q
  free : length q < buffer_size
  tail_at : c.tail ≡ (c.head + c.count) % buffer_size
  slots :
      (k : ℕ)
      → k < buffer_size
      → k ≢ length q
      → c.buffer ((c.head + k) % buffer_size) ≡ get_elem? q k

enter-slot :
    (c : Client) (q : List Frame) (frame : Frame) (k : ℕ)
    → Room c q
    → k < buffer_size
    → write_slot c.buffer c.tail (some frame) ((c.head + k) % buffer_size)
      ≡ get_elem? (q ++ (frame ∷ [])) k
enter-slot c q frame k r h = elim (Bool-cases (k == length q)) [
  | inl last ↦ ground (arith, get_elem?-append_one q frame k, r.counted, r.tail_at)
  | inr other ↦ ground (arith, get_elem?-append_one q frame k, r.counted, r.tail_at, r.slots k h)
]

enter-Represents :
    (c : Client) (q : List Frame) (frame : Frame)
    → Room c q
    → Represents (enter c frame) (q ++ (frame ∷ []))
enter-Represents c q frame r = record {
  head_in = r.head_in;
  counted = omega (arith, r.counted, length-append q (frame ∷ []));
  bounded = omega (arith, r.free, length-append q (frame ∷ []));
  tail_at = omega (arith, r.tail_at, r.counted, r.head_in);
  slots = λ k h. enter-slot c q frame k r h;
}

-- With room left, `Send` drops nothing; full, it makes room.
drop_oldest_room :
    (c : Client) (q : List Frame) → Represents c q → length q < buffer_size → drop_oldest c ≡ c
drop_oldest_room c q r h = ground (arith, r.counted)

Room-slots :
    (c : Client) (x : Frame) (q : List Frame) (k : ℕ)
    → Represents c (x ∷ q)
    → length (x ∷ q) ≡ buffer_size
    → k < buffer_size
    → k ≢ length q
    → c.buffer (((c.head + 1) % buffer_size + k) % buffer_size) ≡ get_elem? q k
Room-slots c x q k r full h other =
    let e : ((c.head + 1) % buffer_size + k) % buffer_size ≡ (c.head + suc k) % buffer_size =
      omega arith in
    rw e (r.slots (suc k) (omega arith))

drop_oldest-Room :
    (c : Client) (x : Frame) (q : List Frame)
    → Represents c (x ∷ q)
    → length (x ∷ q) ≡ buffer_size
    → Room (drop_oldest c) q
drop_oldest-Room c x q r full =
    let e : leb buffer_size c.count ≡ true = ground (arith, r.counted) in
    rw e (record {
      head_in = omega arith;
      counted = omega (arith, r.counted);
      free = omega arith;
      tail_at = omega (arith, r.tail_at, r.counted, r.head_in);
      slots = λ k h other. Room-slots c x q k r full h other;
    })

-- The signal and the connection are no part of the ring.
pub Represents-flags :
    (c : Client) (signalled connected : Bool) (q : List Frame)
    → Represents c q
    → Represents (record c { signalled = signalled; connected = connected }) q
Represents-flags c signalled connected q r = record {
  head_in = r.head_in;
  counted = r.counted;
  bounded = r.bounded;
  tail_at = r.tail_at;
  slots = r.slots;
}

pub add_frame-room :
    (c : Client) (q : List Frame) (frame : Frame)
    → Represents c q
    → length q < buffer_size
    → Represents (add_frame c frame) (q ++ (frame ∷ []))
add_frame-room c q frame r room = rw (drop_oldest_room c q r room) (
    enter-Represents c q frame (record {
      head_in = r.head_in;
      counted = r.counted;
      free = room;
      tail_at = r.tail_at;
      slots = λ k h other. r.slots k h;
    }))

pub send_room :
    (c : Client) (q : List Frame) (frame : Frame)
    → Represents c q
    → length q < buffer_size
    → Represents (send c frame) (q ++ (frame ∷ []))
unfolding send
send_room c q frame r room =
    Represents-flags (add_frame c frame) true (add_frame c frame).connected (q ++ (frame ∷ []))
      (add_frame-room c q frame r room)

-- On a ring that holds a queue, `Send` appends the frame, and a full ring gives up its oldest frame for it.
pub send-Represents :
    (c : Client) (q : List Frame) (frame : Frame)
    → Represents c q
    → Represents (send c frame) (enqueue q frame)
unfolding send enqueue
send-Represents c [] frame r = send_room c [] frame r (omega arith)
send-Represents c (x ∷ q) frame r = elim (Bool-cases (leb buffer_size (length (x ∷ q)))) [
  | inl full ↦ rw full (
      Represents-flags (add_frame c frame) true (add_frame c frame).connected (q ++ (frame ∷ [])) (
        enter-Represents (drop_oldest c) q frame
          (drop_oldest-Room c x q r (ground (arith, r.bounded)))))
  | inr room ↦ rw room (send_room c (x ∷ q) frame r (ground arith))
]

-- An empty ring gives none and stays as it is.
pub pop_frame_nil : (c : Client) → Represents c [] → pop_frame c ≡ (none, c)
unfolding pop_frame
pop_frame_nil c r = ground (arith, r.counted)

pop_slots :
    (c : Client) (x : Frame) (q : List Frame) (k : ℕ)
    → Represents c (x ∷ q)
    → k < buffer_size
    → write_slot c.buffer c.head none (((c.head + 1) % buffer_size + k) % buffer_size)
      ≡ get_elem? q k
pop_slots c x q k r h = elim (Bool-cases (k == buffer_size - 1)) [
  | inl last ↦ ground (arith, get_elem?-past q k (ground (arith, r.bounded)), r.head_in)
  | inr other ↦
      let e : ((c.head + 1) % buffer_size + k) % buffer_size ≡ (c.head + suc k) % buffer_size =
        omega arith in
      ground (arith, e, r.head_in, r.slots (suc k) (ground arith))
]

-- From a ring that holds frames, the sender takes the oldest, and the ring holds the others.
pub pop_frame_cons :
    (c : Client) (x : Frame) (q : List Frame)
    → Represents c (x ∷ q)
    → ((pop_frame c).0 ≡ some x) × Represents (pop_frame c).1 q
unfolding pop_frame
pop_frame_cons c x q r =
    let e : (c.count == 0) ≡ false = ground (arith, r.counted) in
    rw e (
      first,
      record {
        head_in = omega arith;
        counted = omega (arith, r.counted);
        bounded = omega (arith, r.bounded);
        tail_at = omega (arith, r.tail_at, r.counted, r.head_in);
        slots = λ k h. pop_slots c x q k r h;
      },
    )
  where
    first : c.buffer c.head ≡ some x
    first =
        let e : (c.head + 0) % buffer_size ≡ c.head = omega (arith, r.head_in) in
        rw e at (r.slots 0 (omega arith))

push_front_slots :
    (c : Client) (q : List Frame) (frame : Frame) (k : ℕ)
    → Represents c q
    → k < buffer_size
    → write_slot c.buffer
        ((c.head + buffer_size - 1) % buffer_size)
        (some frame)
        (((c.head + buffer_size - 1) % buffer_size + k) % buffer_size)
      ≡ get_elem? (frame ∷ q) k
push_front_slots c q frame zero r h = ground (arith, r.head_in)
push_front_slots c q frame (suc k) r h =
    let e : ((c.head + buffer_size - 1) % buffer_size + suc k) % buffer_size
        ≡ (c.head + k) % buffer_size =
      omega (arith, r.head_in) in
    ground (arith, e, r.head_in, r.slots k (omega arith))

-- With a slot free, a frame that could not be sent is the oldest again.
pub push_front-Represents :
    (c : Client) (q : List Frame) (frame : Frame)
    → Represents c q
    → length q < buffer_size
    → Represents (push_front c frame) (frame ∷ q)
unfolding push_front
push_front-Represents c q frame r room = record {
  head_in = omega arith;
  counted = omega (arith, r.counted);
  bounded = omega (arith, room);
  tail_at = omega (arith, r.tail_at, r.counted, r.head_in);
  slots = λ k h. push_front_slots c q frame k r h;
}

-- In a full ring it takes the slot of the newest frame, and the count exceeds the ring.
pub push_front_full :
    (c : Client) (q : List Frame) (newest frame : Frame)
    → Represents c (q ++ (newest ∷ []))
    → length q + 1 ≡ buffer_size
    → ((push_front c frame).count ≡ buffer_size + 1)
      × (c.buffer ((push_front c frame).head) ≡ some newest)
      × ((push_front c frame).buffer ((push_front c frame).head) ≡ some frame)
unfolding push_front
push_front_full c q newest frame r full =
    (omega (arith, r.counted, length-append q (newest ∷ [])), last, ground arith)
  where
    last : c.buffer ((c.head + buffer_size - 1) % buffer_size) ≡ some newest
    last = ground (
      arith,
      r.slots (buffer_size - 1) (omega arith),
      get_elem?-append_one q newest (buffer_size - 1),
    )
