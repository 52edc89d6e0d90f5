-- ===== src/Tests/Handlers.antt =====
-- Runs of the handlers that report, and of their dispatch.
use ro_proxy.Prelude.{
  ◌≡◌, refl, List, [], ◌∷◌, none, some, ok, true, false, length, replicate, does_return, arith,
}
use ro_proxy.Prelude.Int.{pos}
use ro_proxy.Common.Base.{
  Bytes, server_to_client, spec, fixed, string_to_hex, offline_clone_found, map_loaded, PacketSpec,
}
use ro_proxy.Packets.Parser.{ParsedPacket}
use ro_proxy.Packets.Handlers.Reports.{VenderItem, chat_params, chat_messages}
use ro_proxy.Packets.Handlers.Chat.{system_chat}
use ro_proxy.Packets.Handlers.Chat.Texts.{system_chat-params, system_chat-messages}
use ro_proxy.Packets.Handlers.Items.{items_from}
use ro_proxy.Packets.Handlers.Items.Bounds.{items_from-length}
use ro_proxy.Packets.Receive.{packet_database}
use ro_proxy.Packets.Deserialize.{deserialize}
use ro_proxy.Packets.Deserialize.Panics.{is_enough, deserialize_returns}
use ro_proxy.Analyzer.Worker.{Worker, make_packet, find_spec}
use ro_proxy.Analyzer.Worker.Handled.{fixed_packet_returns}

abbrev sample : Bytes → ParsedPacket
sample payload = record {
  connection_id = 3;
  timestamp = pos 1;
  direction = server_to_client;
  opcode = 0x009a;
  payload = payload;
  checksum = none;
  source_ip = b's' ∷ [];
  source_port = pos 5121;
  dest_ip = b'c' ∷ [];
  dest_port = pos 80;
}

-- "a" and "bc", and a byte behind them.
system_chat-params_example :
    system_chat (sample (0x1c ∷ b'a' ∷ 0x1d ∷ b'b' ∷ b'c' ∷ 0x1c ∷ 7 ∷ []))
    ≡ ok (chat_params (string_to_hex (b'a' ∷ []) ∷ string_to_hex (b'b' ∷ b'c' ∷ []) ∷ []))
system_chat-params_example =
    system_chat-params (sample (0x1c ∷ b'a' ∷ 0x1d ∷ b'b' ∷ b'c' ∷ 0x1c ∷ 7 ∷ [])) (b'a' ∷ [])
      ((b'b' ∷ b'c' ∷ []) ∷ []) (7 ∷ []) refl
      ((((λ e. cc), (λ e. cc)), tt), ((((λ e. cc), (λ e. cc)), (((λ e. cc), (λ e. cc)), tt)), tt))

system_chat-messages_example :
    system_chat (sample (b'h' ∷ b'i' ∷ 0 ∷ b'x' ∷ 0 ∷ []))
    ≡ ok (chat_messages (string_to_hex (b'h' ∷ b'i' ∷ []) ∷ string_to_hex (b'x' ∷ []) ∷ []))
system_chat-messages_example =
    system_chat-messages (sample (b'h' ∷ b'i' ∷ 0 ∷ b'x' ∷ 0 ∷ [])) b'h' (b'i' ∷ 0 ∷ b'x' ∷ 0 ∷ [])
      ((b'h' ∷ b'i' ∷ []) ∷ (b'x' ∷ []) ∷ []) refl (λ e. cc) refl
      (((λ e. cc), ((λ e. cc), ((λ e. cc), tt))), (((λ e. cc), ((λ e. cc), tt)), tt))

-- Two items behind the 12 bytes of a head.
abbrev two_items : Bytes
two_items = replicate 140 1

items_from-length_example :
    (list : List VenderItem) × (items_from 3 two_items 12 ≡ ok list) × (length list ≡ 2)
items_from-length_example = items_from-length 3 two_items 12 (omega arith)

deserialize_returns_example :
    does_return (deserialize (λ host. none) (sample []) (pos 1) [] offline_clone_found)
    ≡ is_enough offline_clone_found (sample [])
deserialize_returns_example =
    deserialize_returns (λ host. none) offline_clone_found (sample []) (pos 1) []

abbrev worker : Worker
worker = record { connection_id = 3; client_addr = []; server_addr = [] }

abbrev loaded : PacketSpec
loaded = spec "Map Loaded" (pos 13) fixed (some map_loaded) false

found : find_spec server_to_client 0x02eb ≡ some loaded
unfolding find_spec packet_database
found = refl

fixed_packet_returns_example :
    does_return (
      deserialize
        (λ host. none)
        (make_packet worker server_to_client
          (pos 1)
          0x02eb
          loaded
          (0xeb ∷ 0x02 ∷ replicate 11 0)
          none)
        (pos 1)
        []
        map_loaded)
    ≡ true
fixed_packet_returns_example =
    fixed_packet_returns worker (pos 1) 0x02eb 13 loaded map_loaded (0xeb ∷ 0x02 ∷ replicate 11 0)
      found refl refl refl refl (λ host. none) (pos 1) [] (λ e. cc)
