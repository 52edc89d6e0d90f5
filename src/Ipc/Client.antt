-- ===== src/Ipc/Client.antt =====
-- internal/ipc/client.go: the ring of frames that wait for the analyzer, and the sender that empties
-- it. An array is a function from indices to slots; `nil` is `none`.
pub mod Ring
pub mod Sender
pub mod Concurrent
use ro_proxy.Prelude.{
  ℕ, zero, suc, ◌+◌, ◌-◌, ◌%◌, Bool, true, false, ◌&&◌, List, [], ◌∷◌, Option, some, none,
}
use ro_proxy.Prelude.{leb, ◌==◌, if◌then◌else◌}
use ro_proxy.Ipc.Frame.{Frame}

abbrev pub buffer_size : ℕ
buffer_size = 10000

-- The fields of `Client` behind `bufMutex`, and whether `sendChan`, which holds one signal, has one.
pub record Client : Type 0 where
  pub buffer : ℕ → Option Frame
  pub head : ℕ
  pub tail : ℕ
  pub count : ℕ
  pub signalled : Bool
  pub connected : Bool

abbrev pub new_client : Client
new_client = record {
  buffer = λ _. none;
  head = 0;
  tail = 0;
  count = 0;
  signalled = false;
  connected = false;
}

abbrev pub write_slot : (ℕ → Option Frame) → ℕ → Option Frame → ℕ → Option Frame
write_slot buffer i v j = if i == j then v else buffer j

-- `Send` up to the write: where the ring is full, the oldest frame is given up.
abbrev pub drop_oldest : Client → Client
drop_oldest c =
    if leb buffer_size c.count
    then record c { head = (c.head + 1) % buffer_size; count = c.count - 1 }
    else c

-- The frame takes the slot at the tail.
abbrev pub enter : Client → Frame → Client
enter c frame = record c {
  buffer = write_slot c.buffer c.tail (some frame);
  tail = (c.tail + 1) % buffer_size;
  count = c.count + 1;
}

-- `Send` while it holds `bufMutex`.
abbrev pub add_frame : Client → Frame → Client
add_frame c frame = enter (drop_oldest c) frame

-- The rest of `Send`, after the unlock: the signal, which is dropped where there is one.
abbrev pub signal : Client → Client
signal c = record c { signalled = true }

unfoldable pub send : Client → Frame → Client
send c frame = signal (add_frame c frame)

pub pop_frame : Client → Option Frame × Client
pop_frame c = if c.count == 0 then (none, c) else (
  c.buffer c.head,
  record c {
    buffer = write_slot c.buffer c.head none;
    head = (c.head + 1) % buffer_size;
    count = c.count - 1;
  },
)

-- `(c.head - 1 + BufferSize) % BufferSize`, with the addition first.
pub push_front : Client → Frame → Client
push_front c frame =
    let head' = (c.head + buffer_size - 1) % buffer_size in
    record c { buffer = write_slot c.buffer head' (some frame); head = head'; count = c.count + 1 }

-- What a round of the loop in `reconnect` meets: the client is closed, the dial fails, or it works.
pub data Dial : Type 0 where
  closed refused accepted : Dial

-- The loop over the dials to come. With none left the client is still dialling.
pub redial : Client → List Dial → Client
redial c [] = c
redial c (closed ∷ _) = c
redial c (refused ∷ dials) = redial c dials
redial c (accepted ∷ _) = record c { connected = true; signalled = true }

pub reconnect : Client → List Dial → Client
unfolding redial
reconnect c dials = redial (record c { connected = false }) dials

-- `processBuffer`: `writes` says of each write to the socket whether it goes through. The result has
-- the frames delivered, oldest first.
pub process_buffer : ℕ → List Bool → List Dial → Client → List Frame × Client
process_buffer zero writes dials c = ([], c)
process_buffer (suc fuel) [] dials c = elim (pop_frame c).0 [
  | none ↦ ([], (pop_frame c).1)
  | some frame ↦ ([], reconnect (push_front (pop_frame c).1 frame) dials)
]
process_buffer (suc fuel) (goes ∷ writes) dials c = elim (pop_frame c).0 [
  | none ↦ ([], (pop_frame c).1)
  | some frame ↦
      let (sent, c') = process_buffer fuel writes dials (pop_frame c).1 in
      if c.connected && goes
      then (frame ∷ sent, c')
      else ([], reconnect (push_front (pop_frame c).1 frame) dials)
]
