-- ===== src/Tui/Keys/Unbounded.antt =====
-- internal/tui: the dashboard is one with an unbounded log, seen through its last lines.
use ro_proxy.Prelude.{
  ℕ, ◌≡◌, refl, ap, sym, ◌∙◌, Bool, true, false, ◌||◌, List, [], ◌∷◌, ◌++◌, append-nil, Option,
}
use ro_proxy.Prelude.{◌==◌, if◌then◌else◌}
use ro_proxy.Common.Base.{Bytes}
use ro_proxy.Tui.{
  Dashboard, max_logs, displayed, log_batch, log_some, consume_logs, toggle_verbosity, clear_logs,
}
use ro_proxy.Tui.Logs.{last, last-append, log_buffer-log_batch}
use ro_proxy.Tui.Keys.{
  press, prompt_filter, UiEvent, logged, presses, enters, escapes, ui_event, ui_events,
}

-- The dashboard with only the newest lines.
abbrev pub trimmed : Dashboard → Dashboard
trimmed d = record d { log_buffer = last max_logs d.log_buffer }

-- A dashboard that forgets no line, unless the lines are cleared.
module _ (parse_uint : Bytes → Option ℕ) where
  abbrev pub unbounded_event : UiEvent → Dashboard → Dashboard
  unbounded_event (logged batch) d = record d {
    log_buffer = d.log_buffer ++ displayed d.verbosity_level batch;
  }
  unbounded_event e d = ui_event parse_uint e d

  unfoldable pub unbounded_events : List UiEvent → Dashboard → Dashboard
  unbounded_events [] d = d
  unbounded_events (e ∷ es) d = unbounded_events es (unbounded_event e d)

  log_some-trimmed :
      (messages : List Bytes) (d : Dashboard)
      → log_some messages (trimmed d) ≡ trimmed (record d { log_buffer = d.log_buffer ++ messages })
  unfolding log_batch
  log_some-trimmed [] d =
      ap (λ t. trimmed (record d { log_buffer = t })) (sym (append-nil d.log_buffer))
  log_some-trimmed (m ∷ ms) d =
      ap (λ (t : List Bytes). record d { log_buffer = t })
        (log_buffer-log_batch (m ∷ ms) (trimmed d) ∙ last-append max_logs d.log_buffer (m ∷ ms))

  press-trimmed : (rune : ℕ) (d : Dashboard) → press rune (trimmed d) ≡ trimmed (press rune d)
  unfolding toggle_verbosity clear_logs
  press-trimmed rune d =
      go d.filter_active (rune == b'v' || rune == b'V') (rune == b'f' || rune == b'F')
        (rune == b'l' || rune == b'L')
    where
      chosen : Bool → Bool → Bool → Bool → Dashboard → Dashboard
      chosen active verbosity filter clear e =
          if active
          then e
          else if verbosity
          then toggle_verbosity e
          else if filter
          then prompt_filter e
          else if clear
          then clear_logs e
          else e

      go :
          (active verbosity filter clear : Bool)
          → chosen active verbosity filter clear (trimmed d)
            ≡ trimmed (chosen active verbosity filter clear d)
      go true verbosity filter clear = refl
      go false true filter clear = refl
      go false false true clear = refl
      go false false false true = refl
      go false false false false = refl

  event-trimmed :
      (e : UiEvent) (d : Dashboard)
      → ui_event parse_uint e (trimmed d) ≡ trimmed (unbounded_event e d)
  unfolding ui_event consume_logs
  event-trimmed (logged batch) d = log_some-trimmed (displayed d.verbosity_level batch) d
  event-trimmed (presses rune) d = press-trimmed rune d
  event-trimmed (enters text) d = refl
  event-trimmed escapes d = refl

  -- Whatever is logged, pressed and typed in in whatever order, the dashboard is the one that forgets no
  -- line, with only its newest 1000 lines: a line is shown by the verbosity at its time, and Clear
  -- removes all lines before it.
  pub ui_events-trimmed :
      (es : List UiEvent) (d : Dashboard)
      → ui_events parse_uint es (trimmed d) ≡ trimmed (unbounded_events es d)
  unfolding ui_events unbounded_events
  ui_events-trimmed [] d = refl
  ui_events-trimmed (e ∷ es) d =
      ap (ui_events parse_uint es) (event-trimmed e d) ∙ ui_events-trimmed es (unbounded_event e d)
