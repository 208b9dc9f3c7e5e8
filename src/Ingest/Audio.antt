-- ===== src/Ingest/Audio.antt =====
-- `AudioExtractor.extract` (backend/core/ingest.py).
use slidelens.Prelude.{
  ℕ, ◌*◌, ◌≡◌, ◌≤◌, ◌<◌, refl, Bool, not, ◌||◌, Option, none, some, List, map, ltb, ◌==◌,
  if◌then◌else◌, arith, Bool-cases, inl, inr,
}
use slidelens.Prelude.Exec.{Result, ok, err}
use slidelens.Prelude.Text.{codes, lower}
use slidelens.Services.{IngestError, corrupted_file, render_timeout, no_audio_track, audio_too_long}
use slidelens.Ingest.{Run, timed_out, exited, contains}

abbrev pub max_audio_minutes : ℕ
max_audio_minutes = 30

abbrev pub wav_16k_mono_bytes_per_second : ℕ
wav_16k_mono_bytes_per_second = 16000 * 2

-- What is there and what ffmpeg does: the medium, how the process ends, and the size of the WAV
-- afterwards (`none` if there is none).
pub record Media : Type 0 where
  pub is_file : Bool
  pub ffmpeg : Run
  pub wav_size : Option ℕ

-- A returned WAV's size, or the error; and the WAV that is left on the disk.
abbrev pub Extracted : Type 0
Extracted = Result IngestError ℕ × Option ℕ

abbrev ffmpeg_error : List ℕ → IngestError
ffmpeg_error stderr =
    if contains (codes "does not contain any stream") (map lower stderr)
      || contains (codes "stream map '0:a") (map lower stderr)
    then no_audio_track
    else corrupted_file

-- From ffmpeg's success on. The quotient of the size and the bytes per second exceeds the whole
-- number of seconds exactly when the size exceeds the product: rounding a quotient keeps its order
-- to a number that is exact.
pub check_wav : Option ℕ → Extracted
check_wav none = (err no_audio_track, none)
check_wav (some size) =
    if size == 0
    then (err no_audio_track, some size)
    else if ltb (max_audio_minutes * 60 * wav_16k_mono_bytes_per_second) size
    then (err audio_too_long, none)
    else (ok size, some size)

after_ffmpeg : Run → Option ℕ → Extracted
unfolding check_wav
after_ffmpeg timed_out wav_size = (err render_timeout, wav_size)
after_ffmpeg (exited code stderr) wav_size =
    if not (code == 0) then (err (ffmpeg_error stderr), wav_size) else check_wav wav_size

pub extract : Media → Extracted
unfolding after_ffmpeg
extract media =
    if not media.is_file
    then (err corrupted_file, none)
    else after_ffmpeg media.ffmpeg media.wav_size

abbrev pub max_wav_size : ℕ
max_wav_size = 57600000

-- What a call promises about the recording that is passed on to the transcription.
abbrev pub Bounded : Media → Extracted → Type 0
Bounded media (err audio_too_long, left) = left ≡ none
Bounded media (err _, left) = Unit {0}
Bounded media (ok size, left) =
    (media.wav_size ≡ some size) × (left ≡ some size) × (0 < size) × (size ≤ max_wav_size)

check_wav-Bounded :
    (media : Media) (wav_size : Option ℕ)
    → media.wav_size ≡ wav_size
    → Bounded media (check_wav wav_size)
unfolding check_wav
check_wav-Bounded media none e = tt
check_wav-Bounded media (some size) e = elim (Bool-cases (size == 0)) [
  | inl e0 ↦ rw e0 tt
  | inr e0 ↦ rw e0 (elim (Bool-cases (ltb 57600000 size)) [
    | inl e1 ↦ rw e1 refl
    | inr e1 ↦ rw e1 (e, refl, ground arith, ground arith)
  ])
]

ffmpeg_error-Bounded :
    (media : Media) (stderr : List ℕ) (left : Option ℕ)
    → Bounded media (err (ffmpeg_error stderr), left)
ffmpeg_error-Bounded media stderr left =
    elim (Bool-cases (
      contains (codes "does not contain any stream") (map lower stderr)
      || contains (codes "stream map '0:a") (map lower stderr))) [
        | inl e ↦ rw e tt
        | inr e ↦ rw e tt
      ]

after_ffmpeg-Bounded : (media : Media) (run : Run) → Bounded media (after_ffmpeg run media.wav_size)
unfolding after_ffmpeg
after_ffmpeg-Bounded media timed_out = tt
after_ffmpeg-Bounded media (exited code stderr) = elim (Bool-cases (code == 0)) [
  | inl e ↦ rw e (check_wav-Bounded media media.wav_size refl)
  | inr e ↦ rw e (ffmpeg_error-Bounded media stderr media.wav_size)
]

-- `extract` returns only a recording that is not empty and lasts at most thirty minutes (57600000
-- bytes), the one that ffmpeg made, and leaves it on the disk; one that is too long it removes.
pub extract-Bounded : (media : Media) → Bounded media (extract media)
unfolding extract
extract-Bounded media = elim (Bool-cases media.is_file) [
  | inl e ↦ rw e (after_ffmpeg-Bounded media media.ffmpeg)
  | inr e ↦ rw e tt
]
