-- ===== src/Ipc/Client/Concurrent/Pending.antt =====
-- internal/ipc/client.go: the frames that a client has still to write, in the ring and in flight.
use ro_proxy.Prelude.{ℕ, zero, ◌+◌, ◌≤◌, ◌<◌, ◌≡◌, Bool, false, List, [], ◌∷◌, ◌++◌}
use ro_proxy.Prelude.{length}
use ro_proxy.Ipc.Frame.{Frame}
use ro_proxy.Ipc.Client.{buffer_size}
use ro_proxy.Ipc.Client.Ring.{Represents}
use ro_proxy.Ipc.Client.Concurrent.{
  Phase, waiting, writing, Sending, ClientEvent, enters, client_event,
}

-- The frame that is being written.
abbrev pub in_flight : Phase → List Frame
in_flight (writing frame) = frame ∷ []
in_flight _ = []

-- The frames entered in a run, oldest first.
abbrev pub sent_by : ClientEvent → List Frame
sent_by (enters frame) = frame ∷ []
sent_by _ = []

abbrev pub sent_in : List ClientEvent → List Frame
sent_in [] = []
sent_in (e ∷ es) = sent_by e ++ sent_in es

-- A sender that waits has a signal waiting for it, or a call of `Send` will still signal, or there is
-- nothing to do.
abbrev pub IsAwake : Phase → Bool → ℕ → List Frame → Type 0
IsAwake waiting false zero q = q ≡ []
IsAwake _ _ _ q = Unit

-- The ring holds the queue, and with the frame in flight all frames not yet written are `rest`.
pub record Pends (s : Sending) (rest : List Frame) : Type 0 where
  pub queue : List Frame
  pub holds : Represents s.client queue
  pub split : in_flight s.phase ++ queue ≡ rest
  pub awake : IsAwake s.phase s.client.signalled s.unsignalled queue

-- The frames written and those that pend are `all`, in this order.
pub record Total (s : Sending) (all : List Frame) : Type 0 where
  pub rest : List Frame
  pub pends : Pends s rest
  pub order : s.written ++ rest ≡ all
  pub fits : length rest ≤ buffer_size

-- With the frame in flight put back there is room for a frame that is entered.
abbrev pub HasRoomFor : ClientEvent → Sending → Type 0
HasRoomFor (enters frame) s = s.client.count + length (in_flight s.phase) < buffer_size
HasRoomFor _ s = Unit

unfoldable pub HasRoom : List ClientEvent → Sending → Type 0
HasRoom [] s = Unit
HasRoom (e ∷ es) s = HasRoomFor e s × HasRoom es (client_event e s)
