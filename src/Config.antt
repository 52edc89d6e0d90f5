-- ===== src/Config.antt =====
-- internal/config/config.go: the configuration and its test. Reading the file and decoding the JSON is
-- left out; `parse_ip` stands for `net.ParseIP(ip) != nil`.
pub mod Accepted
use ro_proxy.Prelude.{ℕ, Bool, true, false, List, [], ◌∷◌, Option, some, none, suc}
use ro_proxy.Prelude.{leb, if◌then◌else◌}
use ro_proxy.Prelude.Int.{ℤ, pos, negsuc}
use ro_proxy.Common.Base.{Bytes}

pub record ApiConfig : Type 0 where
  pub url : Bytes
  pub key : Bytes

pub record Config : Type 0 where
  pub listen_port : ℤ
  pub target_ips : List Bytes
  pub api : Option ApiConfig
  pub discord_webhook : Bytes

pub data ConfigError : Type 0 where
  bad_listen_port no_target_ips : ConfigError
  bad_target_ip : (index : ℕ) → ConfigError

-- The port is above 0 and at most 65535.
abbrev pub is_port : ℤ → Bool
is_port (pos port) = if leb 1 port then leb port 65535 else false
is_port (negsuc n) = false

-- The loop over the addresses, from the index `i` on.
unfoldable pub bad_ip_from : (Bytes → Bool) → ℕ → List Bytes → Option ConfigError
bad_ip_from parse_ip i [] = none
bad_ip_from parse_ip i (ip ∷ ips) =
    let rest = bad_ip_from parse_ip (suc i) ips in
    if parse_ip ip then rest else some (bad_target_ip i)

abbrev pub bad_ips : (Bytes → Bool) → List Bytes → Option ConfigError
bad_ips parse_ip [] = some no_target_ips
bad_ips parse_ip (ip ∷ ips) = bad_ip_from parse_ip 0 (ip ∷ ips)

unfoldable pub validate : (Bytes → Bool) → Config → Option ConfigError
unfolding bad_ip_from
validate parse_ip c =
    if is_port c.listen_port then bad_ips parse_ip c.target_ips else some bad_listen_port
