-- ===== src/Stream/Reader.antt =====
-- The reader of a streamed body, whatever takes its data: a pipe at the client, a session at the
-- server.
use pollmux.Base.{
  ℕ, suc, ◌≡◌, sym, ap, ◌∙◌, Bool, true, false, List, [], ◌∷◌, ◌++◌, append_assoc, append-nil, some,
  ◌⊎◌, inl, inr, arith, refl, length, take, drop, take-append-drop, ◌==◌, if◌then◌else◌,
}
use pollmux.Frame.{Frame, FrameError, frame_data}
use pollmux.Frame.Codec.{source}
use pollmux.Frame.Loop.{Step, goes_on, stops, feed, after_feed, read_frames}
use pollmux.Frame.Loop.Wire.{encodings, AllFit, read_frames-part, read_frames-encodings}
use pollmux.Stream.Writer.{data_of, data_of-append, IsPlain, EndsLast}

-- The bytes that a frame carries.
abbrev pub frame_bytes : Frame → List ℕ
frame_bytes f = if f.typ == frame_data then f.payload else []

-- A reader with its data in `buf` that has been given `got`, the first part of the data in some
-- frames.
abbrev pub GivenPart : {S : Type 0} (buf : S → List ℕ) → S → List Frame → S → Type 0
GivenPart buf s fs s' =
    (got : List ℕ) × (more : List ℕ) × (buf s' ≡ buf s ++ got) × (got ++ more ≡ data_of fs)

-- `buf` is where the reader puts the data, as long as it is `Open`.
module _ {S R : Type 0} (buf : S → List ℕ) (Open : S → Type 0) where
  -- What the handling of a frame leaves of an open reader: with the data behind, or as it was.
  abbrev pub Appends : S → List ℕ → Step S R → Type 0
  Appends s bytes (goes_on s') = (buf s' ≡ buf s ++ bytes) × Open s'
  Appends s bytes (stops s' r) = buf s' ≡ buf s

  -- A test between two handlings, each for its own bytes or both for the same.
  pub branch :
      (s : S) (b : Bool) (d e : List ℕ) (x y : Step S R)
      → Appends s d x
      → Appends s e y
      → Appends s (if b then d else e) (if b then x else y)
  branch s true d e x y u v = u
  branch s false d e x y u v = v

  pub either :
      (s : S) (b : Bool) (d : List ℕ) (x y : Step S R)
      → Appends s d x
      → Appends s d y
      → Appends s d (if b then x else y)
  either s true d x y u v = u
  either s false d x y u v = v

  module _ (handle : S → Frame → Step S R) (fail : FrameError → R)
      (appends : (s : S) (f : Frame) → Open s → Appends s (frame_bytes f) (handle s f)) where
    after_feed-GivenPart :
        (s : S) (f : Frame) (fs : List Frame) (d : Step S R)
        → Appends s (frame_bytes f) d
        → ((t : S) → Open t → GivenPart buf t fs (feed handle fail t fs).0)
        → GivenPart buf s (f ∷ fs) (after_feed handle fail (λ t. feed handle fail t fs) d).0
    unfolding after_feed
    after_feed-GivenPart s f fs (goes_on t) (b, o) h =
        let bytes = frame_bytes f in
        let (got, more, e, q) = h t o in
        (
          bytes ++ got,
          more,
          e ∙ ap (λ c. c ++ got) b ∙ append_assoc (buf s) bytes got,
          append_assoc bytes got more ∙ ap (λ c. bytes ++ c) q,
        )
    after_feed-GivenPart s f fs (stops t r) b h =
        ([], data_of (f ∷ fs), b ∙ sym (append-nil (buf s)), refl)

    feed-GivenPart :
        (s : S) (fs : List Frame) → Open s → GivenPart buf s fs (feed handle fail s fs).0
    unfolding feed
    feed-GivenPart s [] o = ([], [], sym (append-nil (buf s)), refl)
    feed-GivenPart s (f ∷ fs) o =
        after_feed-GivenPart s f fs (handle s f) (appends s f o) (λ t o'. feed-GivenPart t fs o')

    -- All of the data, where the reader goes on behind each frame that has data behind it.
    module _
        (flows : (s : S) (f : Frame) (t : S) (r : R)
          → Open s
          → handle s f ≡ stops t r
          → ¬ IsPlain f) where
      after_feed-GivenAll :
          (s : S) (f : Frame) (fs : List Frame) (d : Step S R)
          → handle s f ≡ d
          → Open s
          → Appends s (frame_bytes f) d
          → IsPlain f ⊎ (data_of (f ∷ fs) ≡ [])
          → ((t : S) → Open t → buf (feed handle fail t fs).0 ≡ buf t ++ data_of fs)
          → buf (after_feed handle fail (λ t. feed handle fail t fs) d).0
            ≡ buf s ++ data_of (f ∷ fs)
      unfolding after_feed
      after_feed-GivenAll s f fs (goes_on t) e o (b, o') last h =
          h t o' ∙ ap (λ c. c ++ data_of fs) b ∙ append_assoc (buf s) (frame_bytes f) (data_of fs)
      after_feed-GivenAll s f fs (stops t r) e o b (inl plain) h = absurd (flows s f t r o e plain)
      after_feed-GivenAll s f fs (stops t r) e o b (inr none_left) h =
          b ∙ sym (append-nil (buf s)) ∙ ap (λ c. buf s ++ c) (sym none_left)

      feed-GivenAll :
          (s : S) (fs : List Frame)
          → Open s
          → EndsLast fs
          → buf (feed handle fail s fs).0 ≡ buf s ++ data_of fs
      unfolding feed
      feed-GivenAll s [] o v = sym (append-nil (buf s))
      feed-GivenAll s (f ∷ fs) o (last, v) =
          after_feed-GivenAll s f fs (handle s f) refl o (appends s f o) last
            (λ t o'. feed-GivenAll t fs o' v)

      -- A loop over a body of whole frames.
      pub read_frames-GivenAll :
          (max_payload : ℕ) (s : S) (fs : List Frame)
          → Open s
          → AllFit max_payload fs
          → EndsLast fs
          → (x : S × R) × (read_frames handle fail max_payload
                (suc (length (encodings fs)))
                s
                (source (encodings fs) false)
              ≡ some x)
            × (buf x.0 ≡ buf s ++ data_of fs)
      read_frames-GivenAll max_payload s fs o v last = (
        feed handle fail s fs,
        read_frames-encodings handle fail max_payload (suc (length (encodings fs))) s fs v
            (omega arith),
        feed-GivenAll s fs o last,
      )

    -- The same of some of the frames.
    take-GivenPart :
        (s : S) (n : ℕ) (fs : List Frame) (t : S)
        → GivenPart buf s (take n fs) t
        → GivenPart buf s fs t
    take-GivenPart s n fs t (got, more, e, q) = (
      got,
      more ++ data_of (drop n fs),
      e,
      sym (append_assoc got more (data_of (drop n fs)))
          ∙ ap (λ b. b ++ data_of (drop n fs)) q
          ∙ sym (data_of-append (take n fs) (drop n fs))
          ∙ ap data_of (take-append-drop n fs),
    )

    -- A loop over a body that carries the first part of some frames' bytes.
    pub read_frames-GivenPart :
        (max_payload : ℕ) (s : S) (fs : List Frame) (arrived cut : List ℕ) (broken : Bool)
        → Open s
        → AllFit max_payload fs
        → arrived ++ cut ≡ encodings fs
        → (x : S × R) × (read_frames handle fail max_payload
              (suc (length arrived))
              s
              (source arrived broken)
            ≡ some x)
          × GivenPart buf s fs x.0
    read_frames-GivenPart max_payload s fs arrived cut broken o v e =
        let (n, r, q) = read_frames-part handle fail max_payload s fs arrived cut broken v e in
        (
          ((feed handle fail s (take n fs)).0, r),
          q,
          take-GivenPart s n fs (feed handle fail s (take n fs)).0 (feed-GivenPart s (take n fs) o),
        )
