-- ===== src/Tests/Interleavings.antt =====
-- Runs of internal/ipc/client.go with sends between the steps of the sender.
use ro_proxy.Prelude.{ℕ, refl, List, [], ◌∷◌, ◌++◌, true, false, arith}
use ro_proxy.Prelude.Int.{pos}
use ro_proxy.Ipc.Frame.{Frame, new_conn_close_frame}
use ro_proxy.Ipc.Client.{new_client}
use ro_proxy.Ipc.Client.Ring.{new_client-Represents}
use ro_proxy.Ipc.Client.Concurrent.{
  Sending, waiting, ClientEvent, enters, signals, wakes, pops, writes, dials, client_event,
  client_events,
}
use ro_proxy.Ipc.Client.Concurrent.Pending.{Total, HasRoom, sent_in}
use ro_proxy.Ipc.Client.Concurrent.Delivery.{client_events-Total}

abbrev frame : ℕ → Frame
frame id = new_conn_close_frame id (pos 0)

abbrev start : Sending
start = record { client = new_client; phase = waiting; unsignalled = 0; written = [] }

start-Total : Total start []
start-Total = record {
  rest = [];
  pends = record { queue = []; holds = new_client-Represents; split = refl; awake = refl };
  order = refl;
  fits = omega arith;
}

-- Two calls of `Send`, of which one signals late; the write of the first frame fails, and the sender
-- connects.
abbrev day : List ClientEvent
day =
    enters (frame 1)
    ∷ enters (frame 2)
    ∷ signals
    ∷ wakes
    ∷ pops
    ∷ writes false
    ∷ dials true
    ∷ wakes
    ∷ pops
    ∷ signals
    ∷ writes true
    ∷ pops
    ∷ []

client_events-Total_example : Total (client_events day start) ([] ++ sent_in day)
unfolding HasRoom client_event
client_events-Total_example =
    client_events-Total day start [] start-Total
      (omega arith, (omega arith, (tt, (tt, (tt, (tt, (tt, (tt, (tt, (tt, (tt, (tt, tt))))))))))))
