-- ===== src/Frame/Runs.antt =====
-- Concrete runs of frame.go, and its theorems at concrete inputs. The writer appends to a list.
use pollmux.Base.{
  ℕ, ◌≡◌, ◌≤◌, ◌<◌, ◌+◌, refl, Bool, true, false, List, [], ◌∷◌, ◌++◌, Option, none, some, arith,
  length, take, ◌==◌, ◌||◌, if◌then◌else◌, u32_mod,
}
use pollmux.Base
use pollmux.Frame.{
  Frame, Source, ok, err, eof, unexpected_eof, too_long, next, read_full, header_fields,
  payload_limit, write_frame, write_seq_frame, frame_data, frame_seq_data,
}
use pollmux.Frame.Codec.{encoding, source}
use pollmux.Frame.Writing.{sent_since, next_seq, next-write_frame, next-write_seq_frame}
use pollmux.Frame.Truncation.{next-cut}

abbrev append_put : List ℕ → List ℕ → List ℕ × Option ℕ
append_put w bytes = (w ++ bytes, none)

abbrev content : List ℕ → List ℕ
content w = w

append_lem :
    (w bytes : List ℕ)
    → (append_put w bytes).1 ≡ none
    → content (append_put w bytes).0 ≡ content w ++ bytes
append_lem w bytes h = refl

two_bytes : encoding frame_data (8 ∷ 9 ∷ []) ≡ 1 ∷ 0 ∷ 0 ∷ 0 ∷ 2 ∷ 8 ∷ 9 ∷ []
unfolding Base.big_endian
two_bytes = refl

too_long_example : next 1 (source (1 ∷ 0 ∷ 0 ∷ 0 ∷ 2 ∷ 8 ∷ 9 ∷ []) false) ≡ err (too_long 2 1)
unfolding next read_full header_fields payload_limit Base.from_big_endian
too_long_example = refl

-- A data frame whose body ends behind the header reads as a clean end.
header_only : next 64 (source (1 ∷ 0 ∷ 0 ∷ 0 ∷ 2 ∷ []) false) ≡ err eof
unfolding next read_full header_fields payload_limit Base.from_big_endian
header_only = refl

next-write_frame_example :
    next 64 (
      source
        (sent_since append_put content append_lem
          (3 ∷ [])
          (write_frame append_put (3 ∷ []) frame_data (8 ∷ 9 ∷ [])).0
          (5 ∷ []))
        false)
    ≡ ok (record { typ = frame_data; payload = 8 ∷ 9 ∷ [] }, source (5 ∷ []) false)
unfolding write_frame payload_limit
next-write_frame_example =
    next-write_frame append_put content append_lem (3 ∷ []) 64 frame_data (8 ∷ 9 ∷ []) (5 ∷ [])
      false (omega arith) (omega arith) refl

next-write_seq_frame_example :
    next_seq 2 (
      source
        (sent_since append_put content append_lem []
          (write_seq_frame append_put [] 300 (8 ∷ 9 ∷ [])).0
          (5 ∷ []))
        false)
    ≡ ok (frame_seq_data, 300, 8 ∷ 9 ∷ [], source (5 ∷ []) false)
unfolding write_seq_frame
next-write_seq_frame_example =
    next-write_seq_frame append_put content append_lem [] 2 300 (8 ∷ 9 ∷ []) (5 ∷ []) false
      (omega arith) (omega arith) (omega arith) refl

abbrev short_frame : Frame
short_frame = record { typ = frame_data; payload = 8 ∷ 9 ∷ [] }

abbrev long_source : Source
long_source = source (1 ∷ 0 ∷ 0 ∷ 0 ∷ 2 ∷ 8 ∷ 9 ∷ 4 ∷ []) false

next-cut_example :
    next 64 (source (take 5 (encoding frame_data (8 ∷ 9 ∷ []))) false)
    ≡ err (if 5 == 0 || 5 == 5 then eof else unexpected_eof)
unfolding payload_limit
next-cut_example = next-cut 64 frame_data (8 ∷ 9 ∷ []) 5 (omega arith) (omega arith) (omega arith)
