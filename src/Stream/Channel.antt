-- ===== src/Stream/Channel.antt =====
-- A streamed body from the writer's pipe to the reader's buffer: the loop of the one and the frames
-- that the other reads.
use Prim.{tt}
use mathlib.Core.Path.{subst}
use pollmux.Base.{
  ℕ, suc, ◌≡◌, ◌≤◌, ◌<◌, sym, ap, ◌∙◌, Bool, false, List, [], ◌∷◌, ◌++◌, append_assoc, append-nil,
  append_cancel, Option, none, some, ◌⊎◌, inr, length, u32_mod, arith,
}
use pollmux.Pipe.{BufferedPipe}
use pollmux.Pipe.Content.{pending}
use pollmux.Frame.{Frame, FrameError, payload_limit, frame_end, frame_gone}
use pollmux.Frame.Codec.{source}
use pollmux.Frame.Loop.{Step, stops, read_frames}
use pollmux.Frame.Loop.Wire.{encodings, AllFit}
use pollmux.Stream.{Round, Streamed, stream_loop}
use pollmux.Stream.Writer.{IsPlain, Adds, changes, data_of, stream_loop-Conveys}
use pollmux.Stream.Reader.{Appends, frame_bytes, read_frames-GivenPart, read_frames-GivenAll}

AllFit-mono :
    (dst max_payload : ℕ) (fs : List Frame)
    → dst ≤ max_payload
    → AllFit dst fs
    → AllFit max_payload fs
AllFit-mono dst max_payload [] h v = v
AllFit-mono dst max_payload (f ∷ fs) h (small, fits, v) =
    (small, limit, AllFit-mono dst max_payload fs h v)
  where
    limit : length f.payload ≤ payload_limit f.typ max_payload
    limit = unfold payload_limit in ground arith

-- What a writer's loop has left in its pipe, and all that is to come there.
abbrev pub left_by : {W : Type 0} → Streamed W → List ℕ
left_by out = pending out.pipe (changes out.rest)

module _ {W E : Type 0} (put : W → List ℕ → W × Option E) (content : W → List ℕ) {S R : Type 0}
    (buf : S → List ℕ) (Open : S → Type 0) (handle : S → Frame → Step S R) (fail : FrameError → R)
    (appends : (s : S) (f : Frame) → Open s → Appends buf Open s (frame_bytes f) (handle s f)) where
  -- The writer stopped somewhere, and the body was cut somewhere.
  pub channel_part :
      ((w : W) (bytes : List ℕ) → Adds put content ⊥ w bytes (put w bytes))
      → (checks : Bool) (farewell dst max_payload : ℕ) (w : W) (p : BufferedPipe) (rs : List Round)
        (s : S) (arrived cut : List ℕ) (broken : Bool)
      → (farewell ≡ frame_end) ⊎ (farewell ≡ frame_gone)
      → 0 < dst
      → dst < u32_mod
      → dst ≤ max_payload
      → Open s
      → content w ++ (arrived ++ cut) ≡ content (stream_loop put checks farewell dst w p rs).writer
      → (x : S × R) × (got : List ℕ) × (lost : List ℕ) × (read_frames handle fail max_payload
            (suc (length arrived))
            s
            (source arrived broken)
          ≡ some x)
        × (buf x.0 ≡ buf s ++ got)
        × (got ++ (lost ++ left_by (stream_loop put checks farewell dst w p rs))
            ≡ pending p (changes rs))
  channel_part writes_part checks farewell dst max_payload w p rs s arrived cut broken f pos m le o
        e =
      let c =
        stream_loop-Conveys put content ⊥ writes_part (λ u. absurd u) checks farewell dst w p rs pos
          m f in
      let (done, lost, d, q, z) = c.added in
      let (x, r, (got, more, b, all)) =
        read_frames-GivenPart buf Open handle fail appends max_payload s c.frames arrived
          (cut ++ lost) broken o (AllFit-mono dst max_payload c.frames le c.fit)
          (sym (append_assoc arrived cut lost)
            ∙ ap (λ a. a ++ lost) (append_cancel (content w) _ _ (e ∙ d))
            ∙ q) in
      (
        x,
        got,
        more,
        r,
        b,
        sym (append_assoc got more _)
            ∙ ap (λ a. a ++ left_by (stream_loop put checks farewell dst w p rs)) all
            ∙ c.carried,
      )

  -- No write failed, and the body arrived whole.
  pub channel_whole :
      ((s : S) (f : Frame) (t : S) (r : R) → Open s → handle s f ≡ stops t r → ¬ IsPlain f)
      → ((w : W) (bytes : List ℕ) → Adds put content Unit w bytes (put w bytes))
      → ((w : W) (bytes : List ℕ) → (put w bytes).1 ≡ none)
      → (checks : Bool) (farewell dst max_payload : ℕ) (w : W) (p : BufferedPipe) (rs : List Round)
        (s : S) (arrived : List ℕ)
      → (farewell ≡ frame_end) ⊎ (farewell ≡ frame_gone)
      → 0 < dst
      → dst < u32_mod
      → dst ≤ max_payload
      → Open s
      → content w ++ arrived ≡ content (stream_loop put checks farewell dst w p rs).writer
      → (x : S × R) × (got : List ℕ) × (read_frames handle fail max_payload
            (suc (length arrived))
            s
            (source arrived false)
          ≡ some x)
        × (buf x.0 ≡ buf s ++ got)
        × (got ++ left_by (stream_loop put checks farewell dst w p rs) ≡ pending p (changes rs))
  channel_whole flows writes_part never checks farewell dst max_payload w p rs s arrived f pos m le
        o e =
      let c =
        stream_loop-Conveys put content Unit writes_part (λ u. never) checks farewell dst w p rs pos
          m f in
      let (done, lost, d, q, z) = c.added in
      let all : encodings c.frames ≡ arrived =
        sym q
        ∙ ap (λ l. done ++ l) (z (inr tt))
        ∙ append-nil done
        ∙ sym (append_cancel (content w) arrived done (e ∙ d)) in
      let (x, r, b) =
        read_frames-GivenAll buf Open handle fail appends flows max_payload s c.frames o
          (AllFit-mono dst max_payload c.frames le c.fit) c.last in
      (
        x,
        data_of c.frames,
        subst
            (λ a. read_frames handle fail max_payload (suc (length a)) s (source a false) ≡ some x)
            all r,
        b,
        c.carried,
      )
