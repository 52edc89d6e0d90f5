-- ===== src/Proxy.antt =====
-- internal/proxy: the connections that the proxy relays, and the frames that it sends to the analyzer.
-- Sockets are inputs: what a read, a write or a dial gives.
pub mod Relay
pub mod Mirror
pub mod Registry
pub mod Recording
use ro_proxy.Prelude.{ℕ, ◌+◌, ◌*◌, ◌/◌, ◌%◌, ◌^◌, List, [], ◌∷◌, ◌++◌, Option, some, none}
use ro_proxy.Prelude.Int.{ℤ}
use ro_proxy.Prelude.Assoc.{lookup, insert, remove}
use ro_proxy.Common.Base.{Bytes, PacketDirection}
use ro_proxy.Ipc.Frame.{Frame, new_data_frame, new_conn_open_frame, new_conn_close_frame}

pub record Connection : Type 0 where
  pub id : ℕ
  pub client_addr : Bytes
  pub server_addr : Bytes

-- `nextConnID` and `connections`.
pub record Proxy : Type 0 where
  pub next_conn_id : ℕ
  pub connections : List (ℕ × Connection)

abbrev pub new_proxy : Proxy
new_proxy = record { next_conn_id = 0; connections = [] }

-- `p.nextConnID.Add(1)`: the number of an accepted connection.
unfoldable pub number_connection : Proxy → ℕ × Proxy
number_connection p = let id = (p.next_conn_id + 1) % 2 ^ 64 in (id, record p { next_conn_id = id })

-- `port` of `getOriginalDest`: the two bytes of `addr.Port` swapped.
unfoldable pub original_port : ℕ → ℕ
original_port raw = raw / 2 ^ 8 + raw % 2 ^ 8 * 2 ^ 8

-- What happens to the connections: one is accepted, and numbered; one that was dialled is registered
-- and started; a relay of one hands over a chunk; one ends, once both relays have.
pub data ProxyEvent : Type 0 where
  accepts : ProxyEvent
  starts : (c : Connection) → (now : ℤ) → ProxyEvent
  relays : (id : ℕ) → (direction : PacketDirection) → (bytes : Bytes) → (now : ℤ) → ProxyEvent
  ends : (id : ℕ) → (now : ℤ) → ProxyEvent

-- `Start` and `Close` of a connection, and the end of a round of `relay`, where they send frames.
abbrev pub open_frame : Connection → ℤ → Frame
open_frame c now = new_conn_open_frame c.id now c.client_addr c.server_addr

abbrev pub data_frame : Connection → PacketDirection → Bytes → ℤ → Frame
data_frame c direction bytes now =
    new_data_frame c.id now direction c.client_addr c.server_addr bytes

abbrev pub relayed_by : Option Connection → PacketDirection → Bytes → ℤ → List Frame
relayed_by none direction bytes now = []
relayed_by (some c) direction bytes now = data_frame c direction bytes now ∷ []

abbrev pub ended_by : ℕ → Option Connection → ℤ → Proxy → List Frame × Proxy
ended_by id none now p = ([], p)
ended_by id (some c) now p =
    (new_conn_close_frame id now ∷ [], record p { connections = remove id p.connections })

-- The frames sent, and the proxy afterwards. Only a registered connection relays and ends.
unfoldable pub proxy_event : ProxyEvent → Proxy → List Frame × Proxy
unfolding number_connection
proxy_event accepts p = ([], (number_connection p).1)
proxy_event (starts c now) p =
    (open_frame c now ∷ [], record p { connections = insert c.id c p.connections })
proxy_event (relays id direction bytes now) p =
    (relayed_by (lookup id p.connections) direction bytes now, p)
proxy_event (ends id now) p = ended_by id (lookup id p.connections) now p
