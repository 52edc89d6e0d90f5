-- ===== src/Ipc/Client/Concurrent/Delivery.antt =====
-- internal/ipc/client.go: in every interleaving, frames are written in the order in which they were
-- sent, and none is left behind.
use ro_proxy.Prelude.{
  ℕ, zero, suc, ◌+◌, ◌<◌, ◌≡◌, refl, ap, sym, ◌∙◌, Bool, true, false, List, [], ◌∷◌, ◌++◌,
  append_assoc, append-nil, arith,
}
use ro_proxy.Prelude.{length, length-append, if◌then◌else◌, ◌&&◌}
use ro_proxy.Ipc.Frame.{Frame}
use ro_proxy.Ipc.Client.{Client, buffer_size, add_frame, signal, push_front}
use ro_proxy.Ipc.Client.Ring.{
  Represents, Represents-flags, add_frame-room, pop_frame_nil, pop_frame_cons,
  push_front-Represents,
}
use ro_proxy.Ipc.Client.Concurrent.{
  Phase, waiting, popping, dialling, writing, Sending, ClientEvent, enters, signals, wakes, pops,
  writes, dials, signal_one, wake, pop, write, dial, client_event, client_events,
}
use ro_proxy.Ipc.Client.Concurrent.Pending.{
  in_flight, sent_by, sent_in, IsAwake, Total, HasRoomFor, HasRoom,
}

IsAwake-signalled : (phase : Phase) (n : ℕ) (q : List Frame) → IsAwake phase true n q
IsAwake-signalled waiting n q = tt
IsAwake-signalled popping n q = tt
IsAwake-signalled dialling n q = tt
IsAwake-signalled (writing frame) n q = tt

IsAwake-unsignalled :
    (phase : Phase) (b : Bool) (n : ℕ) (q : List Frame) → IsAwake phase b (suc n) q
IsAwake-unsignalled waiting true n q = tt
IsAwake-unsignalled waiting false n q = tt
IsAwake-unsignalled popping b n q = tt
IsAwake-unsignalled dialling b n q = tt
IsAwake-unsignalled (writing frame) b n q = tt

IsAwake-nil : (b : Bool) (n : ℕ) → IsAwake waiting b n []
IsAwake-nil true n = tt
IsAwake-nil false zero = refl
IsAwake-nil false (suc n) = tt

-- A state by its parts.
abbrev sending : Client → ℕ → Phase → List Frame → Sending
sending c u phase written = record { client = c; phase = phase; unsignalled = u; written = written }

module _ (c : Client) (u : ℕ) (w all : List Frame) where
  length-rest :
      (phase : Phase) (t : Total (sending c u phase w) all)
      → length t.rest ≡ c.count + length (in_flight phase)
  length-rest phase t = omega (
    arith,
    ap length t.pends.split,
    length-append (in_flight phase) t.pends.queue,
    t.pends.holds.counted,
  )

  enters-Total :
      (phase : Phase) (frame : Frame)
      → Total (sending c u phase w) all
      → c.count + length (in_flight phase) < buffer_size
      → Total (sending (add_frame c frame) (suc u) phase w) (all ++ (frame ∷ []))
  enters-Total phase frame t room = record {
    rest = t.rest ++ (frame ∷ []);
    pends = record {
      queue = t.pends.queue ++ (frame ∷ []);
      holds =
          add_frame-room c t.pends.queue frame t.pends.holds (omega (arith, t.pends.holds.counted));
      split =
          sym (append_assoc (in_flight phase) t.pends.queue (frame ∷ []))
          ∙ ap (λ r. r ++ (frame ∷ [])) t.pends.split;
      awake = IsAwake-unsignalled phase _ u (t.pends.queue ++ (frame ∷ []));
    };
    order = sym (append_assoc w t.rest (frame ∷ [])) ∙ ap (λ r. r ++ (frame ∷ [])) t.order;
    fits = omega (arith, room, length-rest phase t, length-append t.rest (frame ∷ []));
  }

  signalled-Total :
      (phase : Phase) (n : ℕ)
      → Total (sending c u phase w) all
      → Total (sending (signal c) n phase w) all
  signalled-Total phase n t = record {
    rest = t.rest;
    pends = record {
      queue = t.pends.queue;
      holds = Represents-flags c true c.connected t.pends.queue t.pends.holds;
      split = t.pends.split;
      awake = IsAwake-signalled phase n t.pends.queue;
    };
    order = t.order;
    fits = t.fits;
  }

  wakes-Total :
      (phase : Phase)
      → Total (sending c u phase w) all
      → Total (wake phase (sending c u phase w)) all
  wakes-Total waiting t = go c.signalled
    where
      go :
          (b : Bool)
          → Total
              (if b
                then sending (record c { signalled = false }) u popping w
                else sending c u waiting w)
              all
      go true = record {
        rest = t.rest;
        pends = record {
          queue = t.pends.queue;
          holds = Represents-flags c false c.connected t.pends.queue t.pends.holds;
          split = t.pends.split;
          awake = tt;
        };
        order = t.order;
        fits = t.fits;
      }
      go false = t
  wakes-Total popping t = t
  wakes-Total dialling t = t
  wakes-Total (writing frame) t = t

  pops-Total :
      (phase : Phase)
      → Total (sending c u phase w) all
      → Total (pop phase (sending c u phase w)) all
  pops-Total popping t = go t.pends.queue t.pends.holds t.pends.split
    where
      go :
          (q : List Frame)
          → Represents c q
          → q ≡ t.rest
          → Total (pop popping (sending c u popping w)) all
      go [] r e = rw (pop_frame_nil c r) (record {
        rest = t.rest;
        pends = record { queue = []; holds = r; split = e; awake = IsAwake-nil c.signalled u };
        order = t.order;
        fits = t.fits;
      })
      go (x ∷ q) r e =
          let (first, others) = pop_frame_cons c x q r in
          rw first (record {
            rest = t.rest;
            pends = record { queue = q; holds = others; split = e; awake = tt };
            order = t.order;
            fits = t.fits;
          })
  pops-Total waiting t = t
  pops-Total dialling t = t
  pops-Total (writing frame) t = t

  -- The frame goes to those written, or back to the front of the ring, which has room for it.
  writes-Total :
      (phase : Phase) (goes : Bool)
      → Total (sending c u phase w) all
      → Total (write phase goes (sending c u phase w)) all
  writes-Total (writing frame) goes t = go (c.connected && goes)
    where
      front : Represents (push_front c frame) (frame ∷ t.pends.queue)
      front =
          push_front-Represents c t.pends.queue frame t.pends.holds
            (omega (arith, t.fits, length-rest (writing frame) t, t.pends.holds.counted))

      go :
          (b : Bool)
          → Total
              (if b
                then sending c u popping (w ++ (frame ∷ []))
                else sending (record (push_front c frame) { connected = false }) u dialling w)
              all
      go true = record {
        rest = t.pends.queue;
        pends = record { queue = t.pends.queue; holds = t.pends.holds; split = refl; awake = tt };
        order =
            append_assoc w (frame ∷ []) t.pends.queue ∙ ap (λ r. w ++ r) t.pends.split ∙ t.order;
        fits = omega (arith, t.fits, length-rest (writing frame) t, t.pends.holds.counted);
      }
      go false = record {
        rest = t.rest;
        pends = record {
          queue = frame ∷ t.pends.queue;
          holds =
              Represents-flags (push_front c frame) (push_front c frame).signalled false
                (frame ∷ t.pends.queue) front;
          split = t.pends.split;
          awake = tt;
        };
        order = t.order;
        fits = t.fits;
      }
  writes-Total waiting goes t = t
  writes-Total popping goes t = t
  writes-Total dialling goes t = t

  dials-Total :
      (phase : Phase) (goes : Bool)
      → Total (sending c u phase w) all
      → Total (dial phase goes (sending c u phase w)) all
  dials-Total dialling true t = record {
    rest = t.rest;
    pends = record {
      queue = t.pends.queue;
      holds = Represents-flags c true true t.pends.queue t.pends.holds;
      split = t.pends.split;
      awake = tt;
    };
    order = t.order;
    fits = t.fits;
  }
  dials-Total dialling false t = t
  dials-Total waiting goes t = t
  dials-Total popping goes t = t
  dials-Total (writing frame) goes t = t

signals-Total : (n : ℕ) (s : Sending) (all : List Frame) → Total s all → Total (signal_one n s) all
signals-Total zero s all t = t
signals-Total (suc n) s all t = signalled-Total s.client s.unsignalled s.written all s.phase n t

Total-nil : (s : Sending) (all : List Frame) → Total s all → Total s (all ++ [])
Total-nil s all t = rw (append-nil all) t

event-Total :
    (e : ClientEvent) (s : Sending) (all : List Frame)
    → Total s all
    → HasRoomFor e s
    → Total (client_event e s) (all ++ sent_by e)
unfolding client_event
event-Total (enters frame) s all t room =
    enters-Total s.client s.unsignalled s.written all s.phase frame t room
event-Total signals s all t room = Total-nil _ all (signals-Total s.unsignalled s all t)
event-Total wakes s all t room =
    Total-nil _ all (wakes-Total s.client s.unsignalled s.written all s.phase t)
event-Total pops s all t room =
    Total-nil _ all (pops-Total s.client s.unsignalled s.written all s.phase t)
event-Total (writes goes) s all t room =
    Total-nil _ all (writes-Total s.client s.unsignalled s.written all s.phase goes t)
event-Total (dials goes) s all t room =
    Total-nil _ all (dials-Total s.client s.unsignalled s.written all s.phase goes t)

-- However the two steps of each `Send` and the sender's steps are interleaved, whichever writes and
-- dials fail: if each frame entered finds room, also for the frame in flight, then the frames written,
-- followed by those that pend, are those of the start followed by all entered since, in their order; and
-- a sender that waits without a signal, while no `Send` has still to signal, has left no frame in the
-- ring. Both have to hold at the start.
pub client_events-Total :
    (es : List ClientEvent) (s : Sending) (all : List Frame)
    → Total s all
    → HasRoom es s
    → Total (client_events es s) (all ++ sent_in es)
unfolding client_events HasRoom
client_events-Total [] s all t h = Total-nil s all t
client_events-Total (e ∷ es) s all t (room, rooms) =
    rw⁻¹ (append_assoc all (sent_by e) (sent_in es)) (
      client_events-Total es (client_event e s) (all ++ sent_by e) (event-Total e s all t room)
        rooms)
