-- ===== src/Tui/Units.antt =====
-- internal/tui/dashboard.go: the unit of a byte count.
use ro_proxy.Prelude.{ℕ, ◌^◌, ◌<◌, ◌≡◌, ok, arith}
use ro_proxy.Prelude.{ltb, if◌then◌else◌}
use ro_proxy.Tui.{Shown, plain, scaled, format_bytes, scale_from}

-- The unit by the size of the count.
abbrev pub shown : ℕ → Shown
shown bytes =
    if ltb bytes (1024 ^ 1)
    then plain bytes
    else if ltb bytes (1024 ^ 2)
    then scaled (1024 ^ 1) b'K'
    else if ltb bytes (1024 ^ 3)
    then scaled (1024 ^ 2) b'M'
    else if ltb bytes (1024 ^ 4)
    then scaled (1024 ^ 3) b'G'
    else if ltb bytes (1024 ^ 5)
    then scaled (1024 ^ 4) b'T'
    else if ltb bytes (1024 ^ 6)
    then scaled (1024 ^ 5) b'P'
    else scaled (1024 ^ 6) b'E'

-- `formatBytes` shows every `uint64` in the greatest unit that is not above it, and its index into
-- "KMGTPE" is never out of range.
pub format_bytes-shown : (bytes : ℕ) → bytes < 2 ^ 64 → format_bytes bytes ≡ ok (shown bytes)
unfolding format_bytes scale_from
format_bytes-shown bytes h = ground arith
