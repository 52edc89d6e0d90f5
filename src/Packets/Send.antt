-- ===== src/Packets/Send.antt =====
-- internal/packets/send: the packets from client to server.
mod Rows1
mod Rows2
mod Rows3
use Rows1.{send_rows1}
use Rows2.{send_rows2}
use Rows3.{send_rows3}
use ro_proxy.Prelude.{ℕ, Option, ◌++◌}
use ro_proxy.Common.Base.{PacketSpec}
use ro_proxy.Packets.Database.{Rows, find_row}

unfoldable pub rows : Rows
unfolding send_rows1 send_rows2 send_rows3
rows = (send_rows1 ++ (send_rows2 ++ send_rows3))

unfoldable pub packet_database : ℕ → Option PacketSpec
unfolding rows find_row
packet_database opcode = find_row opcode rows
