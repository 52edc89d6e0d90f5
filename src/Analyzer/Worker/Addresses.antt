-- ===== src/Analyzer/Worker/Addresses.antt =====
-- internal/analyzer/worker.go, `parseNetworkAddresses`: the two ends of a connection from its
-- "ip:port" texts.
use ro_proxy.Prelude.{ℕ, ◌+◌, ◌-◌, ◌*◌, ◌^◌, Option, none, some, List, [], ◌∷◌}
use ro_proxy.Prelude.{leb, ltb, ◌==◌, ◌&&◌, if◌then◌else◌}
use ro_proxy.Prelude.Int.{ℤ, pos, negsuc}
use ro_proxy.Common.Base.{Bytes, PacketDirection, server_to_client, client_to_server}

-- `strings.Split(text, sep)` for a separator of one byte: the first piece and the others.
pub record Pieces : Type 0 where
  pub first : Bytes
  pub others : List Bytes

unfoldable pub split : ℕ → Bytes → Pieces
split sep [] = record { first = []; others = [] }
split sep (b ∷ bs) =
    let rest : Pieces = split sep bs in
    if b == sep
    then record { first = []; others = rest.first ∷ rest.others }
    else record { first = b ∷ rest.first; others = rest.others }

-- The first result of `strconv.ParseUint`, or `none` on a syntax error: at a byte that is no digit. Where
-- the number exceeds 64 bits it ends at once with the greatest value, whatever follows.
abbrev pub max_uint64 : ℕ
max_uint64 = 2 ^ 64 - 1

unfoldable pub digits_value : ℕ → Bytes → Option ℕ
digits_value acc [] = some acc
digits_value acc (b ∷ bs) =
    let next = acc * 10 + (b - 48) in
    let rest = digits_value next bs in
    if leb 48 b && leb b 57 then if ltb max_uint64 next then some max_uint64 else rest else none

-- The first result of `strconv.Atoi`: 0 on a syntax error, the nearest `int` where the number is out
-- of range.
clamp_positive : Option ℕ → ℤ
clamp_positive none = pos 0
clamp_positive (some n) = if ltb n (2 ^ 63) then pos n else pos (2 ^ 63 - 1)

clamp_negative : Option ℕ → ℤ
clamp_negative none = pos 0
clamp_negative (some n) =
    if n == 0 then pos 0 else if leb n (2 ^ 63) then negsuc (n - 1) else negsuc (2 ^ 63 - 1)

unsigned_value : Bytes → Option ℕ
unsigned_value [] = none
unsigned_value (b ∷ bs) = digits_value 0 (b ∷ bs)

unfoldable pub atoi : Bytes → ℤ
unfolding clamp_positive clamp_negative unsigned_value digits_value
atoi [] = pos 0
atoi (b ∷ bs) =
    if b == b'-'
    then clamp_negative (unsigned_value bs)
    else if b == b'+'
    then clamp_positive (unsigned_value bs)
    else clamp_positive (unsigned_value (b ∷ bs))

pub record Endpoints : Type 0 where
  pub source_ip : Bytes
  pub source_port : ℤ
  pub dest_ip : Bytes
  pub dest_port : ℤ

-- `len(parts) > 1` and `parts[1]`
port_of : List Bytes → ℤ
unfolding atoi
port_of [] = pos 0
port_of (p ∷ _) = atoi p

unfoldable pub parse_network_addresses : Bytes → Bytes → PacketDirection → Endpoints
unfolding split port_of
parse_network_addresses client_addr server_addr client_to_server =
    let client_parts = split b':' client_addr in
    let server_parts = split b':' server_addr in
    record {
      source_ip = client_parts.first;
      source_port = port_of client_parts.others;
      dest_ip = server_parts.first;
      dest_port = port_of server_parts.others;
    }
parse_network_addresses client_addr server_addr server_to_client =
    let client_parts = split b':' client_addr in
    let server_parts = split b':' server_addr in
    record {
      source_ip = server_parts.first;
      source_port = port_of server_parts.others;
      dest_ip = client_parts.first;
      dest_port = port_of client_parts.others;
    }
