-- ===== src/Packets/Parser.antt =====
-- internal/packets/parser.go: raw chunks and parsed packets.
use ro_proxy.Prelude.{ℕ, Option}
use ro_proxy.Prelude.Int.{ℤ}
use ro_proxy.Common.Base.{Bytes, PacketDirection}

pub record RawChunk : Type 0 where
  pub connection_id : ℕ
  pub timestamp : ℤ
  pub direction : PacketDirection
  pub bytes : Bytes

pub record ParsedPacket : Type 0 where
  pub connection_id : ℕ
  pub timestamp : ℤ
  pub direction : PacketDirection
  pub opcode : ℕ
  pub payload : Bytes
  pub checksum : Option ℕ
  pub source_ip : Bytes
  pub source_port : ℤ
  pub dest_ip : Bytes
  pub dest_port : ℤ
