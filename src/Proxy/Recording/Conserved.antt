-- ===== src/Proxy/Recording/Conserved.antt =====
-- internal/proxy/globals.go and recording.go: no line that is recorded gets lost, as long as no file is
-- created over another.
use ro_proxy.Prelude.{
  ℕ, zero, suc, ◌≡◌, refl, ap, sym, ◌∙◌, Bool, true, false, List, [], ◌∷◌, ◌++◌, append_assoc,
  append-nil, Option, some, none, arith,
}
use ro_proxy.Prelude.{take, drop, ==_iff, if◌then◌else◌}
use ro_proxy.Prelude.Assoc.{insert, lookup-insert}
use ro_proxy.Common.Base.{Bytes}
use ro_proxy.Proxy.Recording.{
  Recording, contents, flush, renew, set_recording, record_line, RecordingEvent, sets, records,
  closes, spills, recording_event, recording_events,
}
use ro_proxy.Proxy.Recording.Files.{
  for_file, recorded, IsSettled, contents-extend, for_file-append, for_file-nil,
}
use ro_proxy.Ipc.Server.Delivery.{take-append-drop}

-- The line of an event, where it is recorded for the file `name`: the recording is on, and its file is
-- that one, or is created now with that name.
abbrev pub line_by : ℕ → Option ℕ → Bool → ℕ → Bytes → Bytes
line_by name (some file) can_create second line = for_file name (some file) line
line_by name none true second line = for_file name (some second) line
line_by name none false second line = []

abbrev pub line_of : ℕ → RecordingEvent → Recording → Bytes
line_of name (records can_create second line) r =
    if r.status then line_by name r.file can_create second line else []
line_of name _ r = []

unfoldable pub lines_of : ℕ → List RecordingEvent → Recording → Bytes
lines_of name [] r = []
lines_of name (e ∷ es) r = line_of name e r ++ lines_of name es (recording_event e r)

-- A file that an event creates was not there, or empty.
abbrev pub CreatesFresh : RecordingEvent → Recording → Type 0
CreatesFresh (records can_create second line) r =
    r.status ≡ true → r.file ≡ none → can_create ≡ true → contents second r.files ≡ []
CreatesFresh _ r = Unit

unfoldable pub AllFresh : List RecordingEvent → Recording → Type 0
AllFresh [] r = Unit
AllFresh (e ∷ es) r = CreatesFresh e r × AllFresh es (recording_event e r)

-- What an event does to what is recorded for a file, and to a settled recording.
pub record Keeps (name : ℕ) (line : Bytes) (r r' : Recording) : Type 0 where
  pub kept : recorded name r' ≡ recorded name r ++ line
  pub settled : IsSettled r'

drop-nil : (n : ℕ) (b : Bytes) → b ≡ [] → drop n b ≡ []
drop-nil zero b e = e
drop-nil (suc n) b e = rw e refl

module _ (name : ℕ) where
  same : (r : Recording) → IsSettled r → Keeps name [] r r
  same r v = record { kept = sym (append-nil (recorded name r)); settled = v }

  renewed :
      (enabled : Bool) (r : Recording)
      → for_file name r.file r.buffered ≡ []
      → Keeps name [] r (renew enabled r)
  renewed enabled r e = record {
    kept = ap (λ t. contents name r.files ++ t) (sym e) ∙ sym (append-nil (recorded name r));
    settled = record { no_file = λ h. refl; off = λ h. refl };
  }

  -- What is flushed was recorded before.
  recorded-flush : (r : Recording) → recorded name (flush r) ≡ recorded name r
  recorded-flush r =
      ap (λ t. contents name (flush r).files ++ t) (for_file-nil name r.file)
      ∙ append-nil (contents name (flush r).files)
      ∙ contents-extend name r.file r.buffered r.files

  -- A recording by its parts.
  abbrev recording : Bool → Option ℕ → Bytes → List (ℕ × Bytes) → Recording
  recording status file b files = record {
    status = status;
    file = file;
    buffered = b;
    files = files;
  }

module _ (name : ℕ) (b : Bytes) (files : List (ℕ × Bytes)) where
  set_recording-Keeps :
      (enabled status : Bool) (file : Option ℕ)
      → IsSettled (recording name status file b files)
      → Keeps name []
          (recording name status file b files)
          (set_recording enabled (recording name status file b files))
  unfolding set_recording
  set_recording-Keeps true true file v = same name _ v
  set_recording-Keeps true false file v =
      renewed name true (recording name false file b files)
        (ap (λ o. for_file name o b) (v.off refl))
  set_recording-Keeps false true (some f) v = record {
    kept =
        append-nil _
        ∙ contents-extend name (some f) b files
        ∙ sym (append-nil (recorded name (recording name true (some f) b files)));
    settled = record { no_file = λ h. refl; off = λ h. refl };
  }
  set_recording-Keeps false true none v = renewed name false (recording name true none b files) refl
  set_recording-Keeps false false file v = same name _ v

  record_line-Keeps :
      (file : Option ℕ) (can_create : Bool) (second : ℕ) (line : Bytes)
      → IsSettled (recording name true file b files)
      → (file ≡ none → can_create ≡ true → contents second files ≡ [])
      → Keeps name
          (line_by name file can_create second line)
          (recording name true file b files)
          (record_line file can_create second line (recording name true file b files))
  record_line-Keeps (some f) can_create second line v fresh = record {
    kept =
        ap (λ t. contents name files ++ t) (for_file-append name (some f) b line)
        ∙ sym (
            append_assoc (contents name files) (for_file name (some f) b)
              (for_file name (some f) line));
    settled = record { no_file = λ h. cc; off = λ h. cc };
  }
  record_line-Keeps none true second line v fresh = record {
    kept = ap (λ t. t ++ for_file name (some second) line) (created (fresh refl refl));
    settled = record { no_file = λ h. cc; off = λ h. cc };
  }
    where
      created :
          contents second files ≡ []
          → contents name (insert second [] files) ≡ contents name files ++ []
      created e = ground (
        arith,
        lookup-insert second name [] files,
        ==_iff second name,
        e,
        append-nil (contents name files),
      )
  record_line-Keeps none false second line v fresh = same name _ v

  event-Keeps :
      (e : RecordingEvent) (status : Bool) (file : Option ℕ)
      → IsSettled (recording name status file b files)
      → CreatesFresh e (recording name status file b files)
      → Keeps name
          (line_of name e (recording name status file b files))
          (recording name status file b files)
          (recording_event e (recording name status file b files))
  unfolding recording_event
  event-Keeps (sets enabled) status file v fresh = set_recording-Keeps enabled status file v
  event-Keeps (records can_create second line) true file v fresh =
      record_line-Keeps file can_create second line v (fresh refl)
  event-Keeps (records can_create second line) false file v fresh = same name _ v
  event-Keeps closes status none v fresh = same name _ v
  event-Keeps closes status (some f) v fresh = record {
    kept =
        recorded-flush name (recording name status (some f) b files)
        ∙ sym (append-nil (recorded name (recording name status (some f) b files)));
    settled = record { no_file = λ h. refl; off = v.off };
  }
  event-Keeps (spills n) status none v fresh = same name _ v
  event-Keeps (spills n) status (some f) v fresh = record {
    kept =
        ap (λ t. t ++ for_file name (some f) (drop n b))
          (contents-extend name (some f) (take n b) files)
        ∙ append_assoc (contents name files) (for_file name (some f) (take n b))
            (for_file name (some f) (drop n b))
        ∙ ap (λ t. contents name files ++ t)
            (sym (for_file-append name (some f) (take n b) (drop n b))
              ∙ ap (for_file name (some f)) (take-append-drop n b))
        ∙ sym (append-nil (recorded name (recording name status (some f) b files)));
    settled = record { no_file = λ h. drop-nil n b (v.no_file h); off = v.off };
  }

-- Whatever is switched, recorded, closed and spilled in whatever order, as long as a relay tests and
-- records in one step, and no file is created over one of the same second that holds something: each
-- file and the writer together hold what they held and then every line that was recorded for the file, in
-- order; and a recording that is off has everything in the files. It has to be settled at the start.
pub recording_events_keep :
    (name : ℕ) (es : List RecordingEvent) (r : Recording)
    → IsSettled r
    → AllFresh es r
    → (recorded name (recording_events es r) ≡ recorded name r ++ lines_of name es r)
      × ((recording_events es r).status ≡ false → (recording_events es r).buffered ≡ [])
unfolding recording_events lines_of AllFresh
recording_events_keep name [] r v fresh =
    (sym (append-nil (recorded name r)), λ h. v.no_file (v.off h))
recording_events_keep name (e ∷ es) r v (fresh, later) =
    let k : Keeps name (line_of name e r) r (recording_event e r) =
      event-Keeps name r.buffered r.files e r.status r.file v fresh in
    let (kept, off) = recording_events_keep name es (recording_event e r) k.settled later in
    (
      kept
          ∙ ap (λ t. t ++ lines_of name es (recording_event e r)) k.kept
          ∙ append_assoc (recorded name r) (line_of name e r)
              (lines_of name es (recording_event e r)),
      off,
    )
