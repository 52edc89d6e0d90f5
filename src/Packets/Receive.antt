-- ===== src/Packets/Receive.antt =====
-- internal/packets/receive: the packets from server to client.
mod Rows1
mod Rows2
mod Rows3
mod Rows4
mod Rows5
mod Rows6
mod Rows7
mod Rows8
mod Rows9
mod Rows10
mod Rows11
use Rows1.{receive_rows1}
use Rows2.{receive_rows2}
use Rows3.{receive_rows3}
use Rows4.{receive_rows4}
use Rows5.{receive_rows5}
use Rows6.{receive_rows6}
use Rows7.{receive_rows7}
use Rows8.{receive_rows8}
use Rows9.{receive_rows9}
use Rows10.{receive_rows10}
use Rows11.{receive_rows11}
use ro_proxy.Prelude.{ℕ, Option, ◌++◌}
use ro_proxy.Common.Base.{PacketSpec}
use ro_proxy.Packets.Database.{Rows, find_row}

unfoldable pub rows : Rows
unfolding receive_rows1 receive_rows2 receive_rows3 receive_rows4 receive_rows5 receive_rows6
    receive_rows7 receive_rows8 receive_rows9 receive_rows10 receive_rows11
rows =
    (receive_rows1
      ++ (receive_rows2
          ++ (receive_rows3
              ++ (receive_rows4
                  ++ (receive_rows5
                      ++ (receive_rows6
                          ++ (receive_rows7
                              ++ (receive_rows8
                                  ++ (receive_rows9 ++ (receive_rows10 ++ receive_rows11))))))))))

unfoldable pub packet_database : ℕ → Option PacketSpec
unfolding rows find_row
packet_database opcode = find_row opcode rows
