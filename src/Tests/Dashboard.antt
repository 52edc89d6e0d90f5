-- ===== src/Tests/Dashboard.antt =====
-- Runs of internal/tui.
use ro_proxy.Prelude.{◌≡◌, List, [], ◌∷◌, ◌++◌, ok, arith}
use ro_proxy.Tui.{
  LogMessage, log_info, log_verbose, log_error, new_dashboard, max_logs, displayed, consume_batches,
  format_bytes, scaled,
}
use ro_proxy.Prelude.{ℕ, refl, Option, some}
use ro_proxy.Common.Base.{Bytes}
use ro_proxy.Tui.{toggle_verbosity, should_display_log}
use ro_proxy.Tui.Keys.{UiEvent, logged, presses, enters, ui_event, ui_events}
use ro_proxy.Tui.Keys.Unbounded.{trimmed, unbounded_events, ui_events-trimmed}
use ro_proxy.Tui.Units.{shown, format_bytes-shown}
use ro_proxy.Tui.Logs.{last, all_messages, consume_batches-last}

format_bytes-shown_example : format_bytes 150_000_000 ≡ ok (shown 150_000_000)
format_bytes-shown_example = format_bytes-shown 150_000_000 (omega arith)

megabytes : format_bytes 150_000_000 ≡ ok (scaled 1_048_576 b'M')
megabytes = format_bytes-shown 150_000_000 (omega arith)

abbrev batches : List (List LogMessage)
batches =
    (record { level = log_info; text = b'a' ∷ [] }
      ∷ record { level = log_verbose; text = b'b' ∷ [] }
      ∷ [])
    ∷ (record { level = log_error; text = b'c' ∷ [] } ∷ [])
    ∷ []

consume_batches-last_example :
    (consume_batches batches new_dashboard).log_buffer
    ≡ last max_logs
        (new_dashboard.log_buffer ++ displayed new_dashboard.verbosity_level (all_messages batches))
consume_batches-last_example = consume_batches-last batches new_dashboard (omega arith)

-- A verbose line is shown after "v", a filter is typed in, where "l" clears nothing.
abbrev evening : List UiEvent
evening =
    logged (record { level = log_verbose; text = b'a' ∷ [] } ∷ [])
    ∷ presses b'v'
    ∷ logged (record { level = log_verbose; text = b'b' ∷ [] } ∷ [])
    ∷ presses b'f'
    ∷ presses b'l'
    ∷ enters (b'7' ∷ [])
    ∷ []

abbrev seven : Bytes → Option ℕ
seven text = some 7

ui_events-trimmed_example :
    ui_events seven evening (trimmed new_dashboard)
    ≡ trimmed (unbounded_events seven evening new_dashboard)
ui_events-trimmed_example = ui_events-trimmed seven evening new_dashboard

evening_lines : (unbounded_events seven evening new_dashboard).log_buffer ≡ (b'b' ∷ []) ∷ []
unfolding unbounded_events ui_event toggle_verbosity displayed should_display_log
evening_lines = refl
