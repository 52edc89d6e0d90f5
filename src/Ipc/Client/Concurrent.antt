-- ===== src/Ipc/Client/Concurrent.antt =====
-- internal/ipc/client.go: `Send` from any number of goroutines, interleaved with the steps of the
-- goroutine of `senderLoop`, until `Close`. What is done under `bufMutex` is one step, and so is what is
-- done with `sendChan`: a goroutine that has entered its frame and not yet signalled is between the two
-- steps of `Send`. Only the sender's goroutine uses the connection, which belongs to the step before.
pub mod Pending
pub mod Delivery
use ro_proxy.Prelude.{
  ℕ, zero, suc, Bool, true, false, ◌&&◌, List, [], ◌∷◌, ◌++◌, Option, some, none,
}
use ro_proxy.Prelude.{if◌then◌else◌}
use ro_proxy.Ipc.Frame.{Frame}
use ro_proxy.Ipc.Client.{Client, add_frame, signal, pop_frame, push_front}

-- Where the sender is: it waits for a signal, is about to take a frame, writes one, or dials in
-- `reconnect`.
pub data Phase : Type 0 where
  waiting popping dialling : Phase
  writing : (frame : Frame) → Phase

-- The client, its sender, the number of calls of `Send` that have entered their frame and not yet
-- signalled, and the frames that were written, oldest first.
pub record Sending : Type 0 where
  pub client : Client
  pub phase : Phase
  pub unsignalled : ℕ
  pub written : List Frame

-- A goroutine enters a frame, or is past the unlock and signals; the sender gets the signal, takes
-- a frame, is done with a write, or is done with a dial, which go through or not.
pub data ClientEvent : Type 0 where
  enters : (frame : Frame) → ClientEvent
  signals wakes pops : ClientEvent
  writes dials : (goes : Bool) → ClientEvent

-- The step of `Send` behind the unlock, where a call is there.
abbrev pub signal_one : ℕ → Sending → Sending
signal_one zero s = s
signal_one (suc n) s = record s { client = signal s.client; unsignalled = n }

abbrev pub wake : Phase → Sending → Sending
wake waiting s =
    if s.client.signalled
    then record s { client = record s.client { signalled = false }; phase = popping }
    else s
wake _ s = s

abbrev pub popped : Option Frame × Client → Sending → Sending
popped (none, c) s = record s { client = c; phase = waiting }
popped (some frame, c) s = record s { client = c; phase = writing frame }

abbrev pub pop : Phase → Sending → Sending
pop popping s = popped (pop_frame s.client) s
pop _ s = s

-- A frame that was not written is put back, and `reconnect` gives the connection up.
abbrev pub write : Phase → Bool → Sending → Sending
write (writing frame) goes s =
    if s.client.connected && goes
    then record s { phase = popping; written = s.written ++ frame ∷ [] }
    else record s {
      client = record (push_front s.client frame) { connected = false };
      phase = dialling;
    }
write _ goes s = s

abbrev pub dial : Phase → Bool → Sending → Sending
dial dialling goes s =
    if goes
    then record s {
      client = record s.client { connected = true; signalled = true };
      phase = waiting;
    }
    else s
dial _ goes s = s

unfoldable pub client_event : ClientEvent → Sending → Sending
client_event (enters frame) s = record s {
  client = add_frame s.client frame;
  unsignalled = suc s.unsignalled;
}
client_event signals s = signal_one s.unsignalled s
client_event wakes s = wake s.phase s
client_event pops s = pop s.phase s
client_event (writes goes) s = write s.phase goes s
client_event (dials goes) s = dial s.phase goes s

unfoldable pub client_events : List ClientEvent → Sending → Sending
client_events [] s = s
client_events (e ∷ es) s = client_events es (client_event e s)
