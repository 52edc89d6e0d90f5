-- ===== src/Tui/Keys.antt =====
-- internal/tui/ui.go: the keys and the input of the connection filter, between batches of log
-- lines. A key comes between two batches, not within one. `parse_uint` stands for
-- `strconv.ParseUint(text, 10, 64)`. The command of a key is one step.
pub mod Unbounded
use ro_proxy.Prelude.{ℕ, Bool, true, false, ◌||◌, List, [], ◌∷◌, Option, some, none}
use ro_proxy.Prelude.{◌==◌, if◌then◌else◌}
use ro_proxy.Common.Base.{Bytes}
use ro_proxy.Tui.{LogMessage, Dashboard, toggle_verbosity, clear_logs, consume_logs}

-- `promptConnectionFilter`
abbrev pub prompt_filter : Dashboard → Dashboard
prompt_filter d = record d { filter_active = true }

-- `setupKeyBindings`: while the filter is typed in, a key goes to its input. The other keys that have
-- a command, for the recording and to quit, change nothing here.
abbrev pub press : ℕ → Dashboard → Dashboard
press rune d =
    if d.filter_active
    then d
    else if rune == b'v' || rune == b'V'
    then toggle_verbosity d
    else if rune == b'f' || rune == b'F'
    then prompt_filter d
    else if rune == b'l' || rune == b'L'
    then clear_logs d
    else d

-- The filter that the text stands for; none is 0, and a text that is no number changes nothing.
abbrev pub parsed_or : ℕ → Option ℕ → ℕ
parsed_or old none = old
parsed_or old (some n) = n

abbrev pub filter_of : (Bytes → Option ℕ) → Bytes → ℕ → ℕ
filter_of parse_uint [] old = 0
filter_of parse_uint (b ∷ bs) old = parsed_or old (parse_uint (b ∷ bs))

-- A batch is consumed, a key is pressed, or the input of the filter ends with Enter or Escape.
pub data UiEvent : Type 0 where
  logged : (batch : List LogMessage) → UiEvent
  presses : (rune : ℕ) → UiEvent
  enters : (text : Bytes) → UiEvent
  escapes : UiEvent

module _ (parse_uint : Bytes → Option ℕ) where
  unfoldable pub ui_event : UiEvent → Dashboard → Dashboard
  ui_event (logged batch) d = consume_logs batch d
  ui_event (presses rune) d = press rune d
  ui_event (enters text) d = record d {
    connection_filter = filter_of parse_uint text d.connection_filter;
    filter_active = false;
  }
  ui_event escapes d = record d { filter_active = false }

  unfoldable pub ui_events : List UiEvent → Dashboard → Dashboard
  ui_events [] d = d
  ui_events (e ∷ es) d = ui_events es (ui_event e d)
