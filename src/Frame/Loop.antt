-- ===== src/Frame/Loop.antt =====
-- The loops around frameReader.next in client.go, resumable_client.go and handler.go: read a frame,
-- handle it, go on or stop. Each caller says what a frame and an error of the reader do.
pub mod Wire
use Prim.{tt}
use pollmux.Base.{
  ℕ, zero, suc, ◌+◌, ◌-◌, ◌≡◌, ◌≢◌, ◌≤◌, ◌<◌, refl, sym, ap, ◌∙◌, Bool, true, false, List, [], ◌∷◌,
  ◌++◌, append_assoc, append-nil, Option, none, some, length, length-append, length-take, take,
  take-append_le, take_all, take-append_length, u32_mod, dec_le, arith,
}
use pollmux.Frame.{
  Result, ok, err, FrameError, eof, Source, Frame, next, read_full, read_payload, payload_limit,
}
use pollmux.Frame.Codec.{encoding, source, length-header, next-header, header, next-encoding}
use pollmux.Frame.Truncation.{next_bounded, take-append_ge}

-- What the handling of a frame leaves: a state to go on with, or the loop's result.
pub data Step (S R : Type 0) : Type 0 where
  goes_on : S → Step S R
  stops : S → R → Step S R

module _ {S R : Type 0} (handle : S → Frame → Step S R) (fail : FrameError → R) where
  after_handle : (S → Source → Option (S × R)) → Source → Step S R → Option (S × R)
  after_handle k src (goes_on s) = k s src
  after_handle k src (stops s r) = some (s, r)

  unfoldable pub after_next :
      (S → Source → Option (S × R)) → S → Result (Frame × Source) → Option (S × R)
  unfolding after_handle
  after_next k s (err e) = some (s, fail e)
  after_next k s (ok (f, src)) = after_handle k src (handle s f)

  -- The loop, with a bound on the frames that it reads; `none` where that was too low.
  unfoldable pub read_frames : ℕ → ℕ → S → Source → Option (S × R)
  unfolding after_next
  read_frames max_payload zero s src = none
  read_frames max_payload (suc n) s src =
      after_next (λ s' src'. read_frames max_payload n s' src') s (next max_payload src)

  unfoldable pub after_feed : (S → S × R) → Step S R → S × R
  after_feed k (goes_on s) = k s
  after_feed k (stops s r) = (s, r)

  -- The same on frames that have been told apart, with a clean end behind them.
  unfoldable pub feed : S → List Frame → S × R
  unfolding after_feed
  feed s [] = (s, fail eof)
  feed s (f ∷ fs) = after_feed (λ s'. feed s' fs) (handle s f)

  -- The loop returns something.
  abbrev Returns : Option (S × R) → Type 0
  Returns x = (r : S × R) × (x ≡ some r)

  after_handle-Returns :
      (k : S → Source → Option (S × R)) (src : Source) (d : Step S R)
      → ((s : S) → Returns (k s src))
      → Returns (after_handle k src d)
  unfolding after_handle
  after_handle-Returns k src (goes_on s) h = h s
  after_handle-Returns k src (stops s r) h = ((s, r), refl)

  after_next-Returns :
      (k : S → Source → Option (S × R)) (s : S) (x : Result (Frame × Source))
      → ((t : S) (f : Frame) (src : Source) → x ≡ ok (f, src) → Returns (k t src))
      → Returns (after_next k s x)
  unfolding after_next
  after_next-Returns k s (err e) h = ((s, fail e), refl)
  after_next-Returns k s (ok (f, src)) h =
      after_handle-Returns k src (handle s f) (λ t. h t f src refl)

  -- One frame for each byte, and one for the end, is bound enough.
  pub read_frames-Returns :
      (max_payload fuel : ℕ) (s : S) (src : Source)
      → length src.bytes < fuel
      → Returns (read_frames max_payload fuel s src)
  unfolding read_frames
  read_frames-Returns max_payload zero s src h = absurd (omega arith)
  read_frames-Returns max_payload (suc n) s src h =
      after_next-Returns (λ t src'. read_frames max_payload n t src') s (next max_payload src)
        (λ t f src' e.
          read_frames-Returns max_payload n t src'
            (omega (arith, next_bounded max_payload src f src' e)))

  -- An invariant of the loop's state: each handling keeps it.
  module _ (P : S → Type 0) where
    abbrev pub StepKeeps : Step S R → Type 0
    StepKeeps (goes_on s) = P s
    StepKeeps (stops s r) = P s

    abbrev pub EndKeeps : Option (S × R) → Type 0
    EndKeeps none = Unit
    EndKeeps (some (s, r)) = P s

    after_handle-Keeps :
        (k : S → Source → Option (S × R)) (src : Source) (d : Step S R)
        → ((s : S) → P s → EndKeeps (k s src))
        → StepKeeps d
        → EndKeeps (after_handle k src d)
    unfolding after_handle
    after_handle-Keeps k src (goes_on s) h v = h s v
    after_handle-Keeps k src (stops s r) h v = v

    module _ (keeps : (s : S) (f : Frame) → P s → StepKeeps (handle s f)) where
      after_next-Keeps :
          (k : S → Source → Option (S × R)) (s : S) (x : Result (Frame × Source))
          → ((s : S) (src : Source) → P s → EndKeeps (k s src))
          → P s
          → EndKeeps (after_next k s x)
      unfolding after_next
      after_next-Keeps k s (err e) h v = v
      after_next-Keeps k s (ok (f, src)) h v =
          after_handle-Keeps k src (handle s f) (λ t. h t src) (keeps s f v)

      pub read_frames-Keeps :
          (max_payload fuel : ℕ) (s : S) (src : Source)
          → P s
          → EndKeeps (read_frames max_payload fuel s src)
      unfolding read_frames
      read_frames-Keeps max_payload zero s src v = tt
      read_frames-Keeps max_payload (suc n) s src v =
          after_next-Keeps (λ t src'. read_frames max_payload n t src') s (next max_payload src)
            (λ t src'. read_frames-Keeps max_payload n t src') v
