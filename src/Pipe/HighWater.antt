-- ===== src/Pipe/HighWater.antt =====
-- pipe.go: the high-water mark and its one-shot warning.
use pollmux.Base.{
  ℕ, ◌+◌, ◌≡◌, ◌≤◌, Bool, false, List, ◌++◌, none, some, ltb, leb, if◌then◌else◌, length,
  length-append, pos_part, max, ◌&&◌, not, ℤ, arith,
}
use pollmux.Pipe.{
  BufferedPipe, new_buffered_pipe, watch_high_water, write, note_high_water, log_warning,
}

-- The mark is at least what is buffered, and the flag says whether the mark has reached an armed
-- threshold.
pub record IsMarked (p : BufferedPipe) : Type 0 where
  pub above : length p.buf ≤ p.hi_water
  pub flagged :
      p.warned ≡ ltb 0 (pos_part p.warn_threshold) && leb (pos_part p.warn_threshold) p.hi_water

-- A pipe may be watched while nothing has been buffered in it.
pub watch_high_water-IsMarked :
    (threshold : ℤ) (logger : Bool) → IsMarked (watch_high_water new_buffered_pipe threshold logger)
unfolding watch_high_water new_buffered_pipe
watch_high_water-IsMarked threshold logger = ground arith

-- Whether the flag tells the truth of a mark.
abbrev is_flagged : ℤ → ℕ → Bool
is_flagged threshold n = ltb 0 (pos_part threshold) && leb (pos_part threshold) n

note_marks :
    (p : BufferedPipe) (n : ℕ)
    → p.warned ≡ is_flagged p.warn_threshold p.hi_water
    → ((note_high_water p n).0.warned ≡ is_flagged p.warn_threshold (max p.hi_water n))
      × ((note_high_water p n).0.hi_water ≡ max p.hi_water n)
      × ((note_high_water p n).1 ≡ not p.warned && (note_high_water p n).0.warned)
      × ((note_high_water p n).0.warn_threshold ≡ p.warn_threshold)
      × ((note_high_water p n).0.logger ≡ p.logger)
      × ((note_high_water p n).0.buf ≡ p.buf)
unfolding note_high_water
note_marks p n f =
    (ground arith, ground arith, ground arith, ground arith, ground arith, ground arith)

-- A write to an open pipe with a truthful mark raises the mark to exactly the larger of the old mark
-- and the fill that it causes, keeps mark and flag truthful, and warns exactly if there is a logger
-- and this write made the flag true.
pub write_marks :
    (p : BufferedPipe) (bytes : List ℕ)
    → IsMarked p
    → p.closed ≡ false
    → IsMarked (write p bytes).0
      × ((write p bytes).0.hi_water ≡ max p.hi_water (length p.buf + length bytes))
      × ((write p bytes).2 ≡ (
          if p.logger && (not p.warned && (write p bytes).0.warned)
          then some ((write p bytes).0.hi_water, p.warn_threshold)
          else none))
unfolding write
write_marks p bytes m o =
    let grown : BufferedPipe = record p { buf = p.buf ++ bytes } in
    let noted = note_marks grown (length grown.buf) m.flagged in
    rw o (
      ground (arith, noted, length-append p.buf bytes),
      ground (arith, noted, length-append p.buf bytes),
      unfold log_warning in ground (arith, noted),
    )
