-- ===== src/Proxy/Recording/Truncated.antt =====
-- internal/proxy/recording.go: what becomes of a file when another is created in the same second.
use ro_proxy.Prelude.{ℕ, ◌≡◌, ap, ◌∙◌, true, false, List, [], ◌∷◌, ◌++◌, some, none, arith}
use ro_proxy.Prelude.{==_iff}
use ro_proxy.Prelude.Assoc.{insert, lookup-insert}
use ro_proxy.Common.Base.{Bytes}
use ro_proxy.Proxy.Recording.{
  Recording, set_recording, RecordingEvent, sets, records, recording_event, recording_events,
}
use ro_proxy.Proxy.Recording.Files.{recorded}
use ro_proxy.Proxy.Recording.Conserved.{lines_of, AllFresh, recording_events_keep}

-- A recording that is off, beside files.
abbrev pub off_with : List (ℕ × Bytes) → Recording
off_with files = record { status = false; file = none; buffered = []; files = files }

-- It is switched on, and a line is recorded in some second.
abbrev pub reopened : ℕ → Bytes → List (ℕ × Bytes) → Recording
reopened second line files = record {
  status = true;
  file = some second;
  buffered = line;
  files = insert second [] files;
}

recorded-reopened :
    (second : ℕ) (line : Bytes) (files : List (ℕ × Bytes))
    → recorded second (reopened second line files) ≡ line
recorded-reopened second line files =
    ground (arith, lookup-insert second second [] files, ==_iff second second)

-- A recording that is off is switched on, and the first line is recorded in a second of which there is
-- a file already: whatever was recorded in that file is lost. What is recorded for it is the new line and
-- the lines after it, as long as no further file is created over one that holds something.
pub recreated_file_emptied :
    (second : ℕ) (line : Bytes) (files : List (ℕ × Bytes)) (es : List RecordingEvent)
    → AllFresh es (reopened second line files)
    → recorded second
        (recording_events (sets true ∷ records true second line ∷ es) (off_with files))
      ≡ line ++ lines_of second es (reopened second line files)
unfolding recording_events recording_event set_recording
recreated_file_emptied second line files es fresh =
    (recording_events_keep second es (reopened second line files)
      (record { no_file = λ h. cc; off = λ h. cc }) fresh).0
    ∙ ap (λ t. t ++ lines_of second es (reopened second line files))
        (recorded-reopened second line files)
