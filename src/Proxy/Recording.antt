-- ===== src/Proxy/Recording.antt =====
-- internal/proxy/globals.go and recording.go: the recording of chunks, as the bytes that wait in the
-- writer and the files. The text of a line is an input. A file is named by the second of its creation.
pub mod Files
pub mod Conserved
pub mod Truncated
use ro_proxy.Prelude.{ℕ, Bool, true, false, List, [], ◌∷◌, ◌++◌, Option, some, none}
use ro_proxy.Prelude.{take, drop, if◌then◌else◌}
use ro_proxy.Prelude.Assoc.{lookup, insert}
use ro_proxy.Common.Base.{Bytes}

-- `status` of the recording, the name of its file, if it has one, what its writer has not flushed,
-- and all files so far with what is in them.
pub record Recording : Type 0 where
  pub status : Bool
  pub file : Option ℕ
  pub buffered : Bytes
  pub files : List (ℕ × Bytes)

abbrev pub bytes_or_empty : Option Bytes → Bytes
bytes_or_empty none = []
bytes_or_empty (some bytes) = bytes

-- What is in a file; one that does not exist has nothing.
abbrev pub contents : ℕ → List (ℕ × Bytes) → Bytes
contents name files = bytes_or_empty (lookup name files)

-- Bytes come to the end of an open file.
abbrev pub extend : Option ℕ → Bytes → List (ℕ × Bytes) → List (ℕ × Bytes)
extend none bytes files = files
extend (some name) bytes files = insert name (contents name files ++ bytes) files

abbrev pub flush : Recording → Recording
flush r = record r { buffered = []; files = extend r.file r.buffered r.files }

-- A new `Recording` takes the place of the old one, whose writer is no longer reachable.
abbrev pub renew : Bool → Recording → Recording
renew enabled r = record r { status = enabled; file = none; buffered = [] }

-- `SetRecording`, once there is a recording: only switching off flushes.
abbrev pub switch_on : Bool → Recording → Recording
switch_on true r = r
switch_on false r = renew true r

abbrev pub switch_off : Bool → Option ℕ → Recording → Recording
switch_off true (some name) r = renew false (flush r)
switch_off true none r = renew false r
switch_off false file r = r

unfoldable pub set_recording : Bool → Recording → Recording
set_recording true r = switch_on r.status r
set_recording false r = switch_off r.status r.file r

-- `createRecordFile` in a second: `os.Create` empties a file that has the name already. The writer
-- is new.
abbrev pub create_file : ℕ → Recording → Recording
create_file second r = record r {
  file = some second;
  buffered = [];
  files = insert second [] r.files;
}

abbrev pub write_line : Bytes → Recording → Recording
write_line line r = record r { buffered = r.buffered ++ line }

-- `recordRawChunkToFile`, which makes a file where there is none, or fails to.
abbrev pub record_line : Option ℕ → Bool → ℕ → Bytes → Recording → Recording
record_line (some name) can_create second line r = write_line line r
record_line none true second line r = write_line line (create_file second r)
record_line none false second line r = r

-- What happens to the recording: it is set, a relay that finds it on records a line in some second, a
-- connection is closed, or the writer hands its first bytes to the file.
pub data RecordingEvent : Type 0 where
  sets : (enabled : Bool) → RecordingEvent
  records : (can_create : Bool) → (second : ℕ) → (line : Bytes) → RecordingEvent
  closes : RecordingEvent
  spills : (n : ℕ) → RecordingEvent

-- `closeRecordFile` flushes where there is a writer, and only a writer spills.
abbrev pub close_file : Option ℕ → Recording → Recording
close_file none r = r
close_file (some name) r = flush r

abbrev pub spill : Option ℕ → ℕ → Recording → Recording
spill none n r = r
spill (some name) n r = record r {
  buffered = drop n r.buffered;
  files = extend (some name) (take n r.buffered) r.files;
}

unfoldable pub recording_event : RecordingEvent → Recording → Recording
recording_event (sets enabled) r = set_recording enabled r
recording_event (records can_create second line) r =
    if r.status then record_line r.file can_create second line r else r
recording_event closes r = close_file r.file r
recording_event (spills n) r = spill r.file n r

unfoldable pub recording_events : List RecordingEvent → Recording → Recording
recording_events [] r = r
recording_events (e ∷ es) r = recording_events es (recording_event e r)
