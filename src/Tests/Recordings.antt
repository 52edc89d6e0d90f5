-- ===== src/Tests/Recordings.antt =====
-- Runs of internal/proxy/recording.go.
use ro_proxy.Prelude.{◌≡◌, refl, List, [], ◌∷◌, ◌++◌, true, false}
use ro_proxy.Prelude.Assoc.{lookup, insert}
use ro_proxy.Proxy.Recording.{
  RecordingEvent, sets, records, closes, spills, recording_event, recording_events, set_recording,
}
use ro_proxy.Proxy.Recording.Files.{recorded}
use ro_proxy.Proxy.Recording.Conserved.{lines_of, AllFresh, recording_events_keep}
use ro_proxy.Proxy.Recording.Truncated.{off_with, reopened, recreated_file_emptied}

-- The first line finds the recording off, the second and the third are recorded in the file of second 7,
-- and a file for the fourth cannot be made. The last comes into another file.
abbrev session : List RecordingEvent
session =
    records true 6 (b'a' ∷ [])
    ∷ sets true
    ∷ records true 7 (b'b' ∷ b'c' ∷ [])
    ∷ spills 1
    ∷ records true 8 (b'd' ∷ [])
    ∷ closes
    ∷ sets false
    ∷ sets true
    ∷ records false 9 (b'e' ∷ [])
    ∷ records true 10 (b'f' ∷ [])
    ∷ sets false
    ∷ []

session-AllFresh : AllFresh session (off_with [])
unfolding AllFresh recording_event set_recording lookup insert
session-AllFresh = (
  (λ h k l. refl),
  (
    tt,
    (
      (λ h k l. refl),
      (tt, ((λ h k l. cc), (tt, (tt, (tt, ((λ h k l. refl), ((λ h k l. refl), (tt, tt)))))))),
    ),
  ),
)

recording_events_keep_example :
    (recorded 7 (recording_events session (off_with []))
      ≡ recorded 7 (off_with []) ++ lines_of 7 session (off_with []))
    × ((recording_events session (off_with [])).status ≡ false
        → (recording_events session (off_with [])).buffered ≡ [])
recording_events_keep_example =
    recording_events_keep 7 session (off_with []) (record { no_file = λ h. refl; off = λ h. refl })
      session-AllFresh

two_lines : lines_of 7 session (off_with []) ≡ b'b' ∷ b'c' ∷ b'd' ∷ []
unfolding lines_of recording_event set_recording
two_lines = refl

-- The file of second 7 holds "b".
recreated_file_emptied_example :
    recorded 7 (
      recording_events
        (sets true ∷ records true 7 (b'g' ∷ []) ∷ closes ∷ [])
        (off_with ((7, b'b' ∷ []) ∷ [])))
    ≡ (b'g' ∷ []) ++ lines_of 7 (closes ∷ []) (reopened 7 (b'g' ∷ []) ((7, b'b' ∷ []) ∷ []))
unfolding AllFresh
recreated_file_emptied_example =
    recreated_file_emptied 7 (b'g' ∷ []) ((7, b'b' ∷ []) ∷ []) (closes ∷ []) (tt, tt)
