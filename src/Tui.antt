-- ===== src/Tui.antt =====
-- internal/tui: the dashboard's settings and log buffer, the log consumer, and the byte counts shown.
-- The terminal library draws what it is given and is left out.
pub mod Units
pub mod Logs
pub mod Keys
use ro_proxy.Prelude.{
  ℕ, zero, suc, ◌+◌, ◌-◌, ◌*◌, ◌/◌, ◌%◌, ◌^◌, Bool, true, false, ◌||◌, List, [], ◌∷◌, ◌++◌, Option,
  some, none, Run, ok, panic, map,
}
use ro_proxy.Prelude.{length, drop, get_elem?, leb, ltb, ◌==◌, if◌then◌else◌}
use ro_proxy.Common.Base.{Bytes}

-- common/logging.go, `LogLevel`
pub data LogLevel : Type 0 where
  log_info log_warning log_error log_verbose log_very_verbose : LogLevel

-- A message of `GlobalLogQueue`: its level and its formatted text.
pub record LogMessage : Type 0 where
  pub level : LogLevel
  pub text : Bytes

-- dashboard.go, `VerbosityLevel`
pub data VerbosityLevel : Type 0 where
  verbosity_info verbosity_verbose verbosity_very_verbose : VerbosityLevel

pub record Dashboard : Type 0 where
  pub verbosity_level : VerbosityLevel
  pub connection_filter : ℕ
  pub filter_active : Bool
  pub log_buffer : List Bytes

abbrev pub max_logs : ℕ
max_logs = 1000

abbrev pub new_dashboard : Dashboard
new_dashboard = record {
  verbosity_level = verbosity_info;
  connection_filter = 0;
  filter_active = false;
  log_buffer = [];
}

-- `(d.verbosityLevel + 1) % 3`
unfoldable pub toggle_verbosity : Dashboard → Dashboard
toggle_verbosity d = record d {
  verbosity_level = elim d.verbosity_level [
    | verbosity_info ↦ verbosity_verbose
    | verbosity_verbose ↦ verbosity_very_verbose
    | verbosity_very_verbose ↦ verbosity_info
  ];
}

unfoldable pub clear_logs : Dashboard → Dashboard
clear_logs d = record d { log_buffer = [] }

-- consumer.go
unfoldable pub should_display_log : LogLevel → VerbosityLevel → Bool
should_display_log log_error v = true
should_display_log log_warning v = true
should_display_log log_info v = true
should_display_log log_verbose verbosity_verbose = true
should_display_log log_verbose verbosity_very_verbose = true
should_display_log log_verbose verbosity_info = false
should_display_log log_very_verbose verbosity_very_verbose = true
should_display_log log_very_verbose _ = false

-- `LogBatch`: the oldest texts go where the buffer exceeds its bound.
unfoldable pub log_batch : List Bytes → Dashboard → Dashboard
log_batch messages d =
    let log_buffer = d.log_buffer ++ messages in
    record d {
      log_buffer =
          if ltb max_logs (length log_buffer)
          then drop (length log_buffer - max_logs) log_buffer
          else log_buffer;
    }

-- The messages of a batch that pass the filter, as `logConsumerLoop` collects them.
unfoldable pub displayed : VerbosityLevel → List LogMessage → List Bytes
unfolding should_display_log
displayed v [] = []
displayed v (m ∷ ms) =
    let rest = displayed v ms in if should_display_log m.level v then m.text ∷ rest else rest

abbrev pub log_some : List Bytes → Dashboard → Dashboard
log_some [] d = d
log_some (m ∷ ms) d = log_batch (m ∷ ms) d

-- A round of `logConsumerLoop`: the message it waited for and those that were ready.
unfoldable pub consume_logs : List LogMessage → Dashboard → Dashboard
unfolding displayed
consume_logs batch d = log_some (displayed d.verbosity_level batch) d

unfoldable pub consume_batches : List (List LogMessage) → Dashboard → Dashboard
consume_batches [] d = d
consume_batches (b ∷ bs) d = consume_batches bs (consume_logs b d)

-- `formatBytes`: a number below 1024 as it is; else the divisor and the index into "KMGTPE", which are
-- what is printed, as `float64(bytes)/float64(div)` and a letter.
pub data Shown : Type 0 where
  plain : (bytes : ℕ) → Shown
  scaled : (div : ℕ) → (letter : ℕ) → Shown

abbrev pub units : Bytes
units = b'K' ∷ b'M' ∷ b'G' ∷ b'T' ∷ b'P' ∷ b'E' ∷ []

-- The loop over `n`, with `div` and `exp`; `div` is a `uint64`.
unfoldable pub scale_from : ℕ → ℕ → ℕ → ℕ → ℕ × ℕ
scale_from zero n div exp = (div, exp)
scale_from (suc fuel) n div exp =
    let rest = scale_from fuel (n / 1024) (div * 1024 % 2 ^ 64) (exp + 1) in
    if leb 1024 n then rest else (div, exp)

abbrev pub letter_at : ℕ → Option ℕ → Run Shown
letter_at div none = panic
letter_at div (some letter) = ok (scaled div letter)

unfoldable pub format_bytes : ℕ → Run Shown
unfolding scale_from
format_bytes bytes =
    if ltb bytes 1024
    then ok (plain bytes)
    else letter_at (scale_from 7 (bytes / 1024) 1024 0).0
        (get_elem? units (scale_from 7 (bytes / 1024) 1024 0).1)
