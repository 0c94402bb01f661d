-- ===== src/Frame/Loop/Wire.antt =====
-- The loops around frameReader.next, on a body of whole frames and on one that is cut anywhere.
use mathlib.Core.Path.{subst}
use pollmux.Base.{
  ℕ, zero, suc, ◌+◌, ◌-◌, ◌≡◌, ◌≤◌, ◌<◌, refl, sym, ap, ◌∙◌, Bool, true, false, List, [], ◌∷◌, ◌++◌,
  append_assoc, Option, some, length, length-append, length-take, take, take-append_le,
  take-append_length, u32_mod, dec_le, dec_lt, arith,
}
use pollmux.Frame.{
  err, FrameError, eof, unexpected_eof, network, Source, Frame, next, read_full, read_payload,
  payload_limit,
}
use pollmux.Frame.Codec.{encoding, source, length-header, next-header, header, next-encoding}
use pollmux.Frame.Truncation.{take-append_ge}
use pollmux.Frame.Loop.{
  Step, goes_on, stops, read_frames, feed, after_next, after_handle, after_feed,
}

-- The bytes of some frames, one after the other.
abbrev pub encodings : List Frame → List ℕ
encodings [] = []
encodings (f ∷ fs) = encoding f.typ f.payload ++ encodings fs

-- Each frame fits its length field and the reader's bound for its type.
abbrev pub AllFit : ℕ → List Frame → Type 0
AllFit max_payload [] = Unit
AllFit max_payload (f ∷ fs) =
    (length f.payload < u32_mod)
    × (length f.payload ≤ payload_limit f.typ max_payload)
    × AllFit max_payload fs

length-encoding : (typ : ℕ) (payload : List ℕ) → length (encoding typ payload) ≡ 5 + length payload
length-encoding typ payload =
    omega (
      arith,
      length-append (header typ (length payload)) payload,
      length-header typ (length payload),
    )

next-end : (max_payload : ℕ) → next max_payload (source [] false) ≡ err eof
unfolding next read_full
next-end max_payload = refl

-- A read behind the end of a body is an error.
read_full-cut :
    (n : ℕ) (bytes : List ℕ) (broken : Bool)
    → length bytes < n
    → (e : FrameError) × (read_full n (source bytes broken) ≡ err e)
unfolding read_full
read_full-cut n bytes true h = (network, ground arith)
read_full-cut n [] false h = (eof, ground arith)
read_full-cut n (b ∷ bytes) false h = (unexpected_eof, ground arith)

read_payload-cut :
    (max_payload typ n : ℕ) (bytes : List ℕ) (broken : Bool)
    → n ≤ payload_limit typ max_payload
    → length bytes < n
    → (e : FrameError) × (read_payload max_payload (typ, n) (source bytes broken) ≡ err e)
unfolding read_payload
read_payload-cut max_payload typ n bytes broken fits h =
    let (e, p) = read_full-cut n bytes broken h in (e, ground arith)

-- A frame that is cut, with any error behind it, is an error of the reader.
next-cut_short :
    (max_payload typ : ℕ) (payload : List ℕ) (k : ℕ) (broken : Bool)
    → length payload < u32_mod
    → length payload ≤ payload_limit typ max_payload
    → k < 5 + length payload
    → (e : FrameError) × (next max_payload (source (take k (encoding typ payload)) broken) ≡ err e)
next-cut_short max_payload typ payload k broken h fits cut = elim (dec_le 5 k) [
  | no inside ↦
      unfold next in
      let (e, p) = read_full-cut 5 (take k (encoding typ payload)) broken (omega (arith, size)) in
      (e, rw p refl)
  | yes past ↦
      let left = take (k - 5) payload in
      let (e, p) =
        read_payload-cut max_payload typ (length payload) left broken fits
          (omega (arith, length-take (k - 5) payload)) in
      (e, rw (split past) (next-header max_payload typ (length payload) left broken h ∙ p))
]
  where
    size : length (take k (encoding typ payload)) ≡ k
    size = omega (arith, length-take k (encoding typ payload), length-encoding typ payload)

    split :
        5 ≤ k → take k (encoding typ payload) ≡ header typ (length payload) ++ take (k - 5) payload
    split p =
        take-append_ge (header typ (length payload)) payload k
          (omega (arith, length-header typ (length payload)))
        ∙ ap (λ m. header typ (length payload) ++ take (k - m) payload)
            (length-header typ (length payload))

next-empty :
    (max_payload k : ℕ) (broken : Bool)
    → (e : FrameError) × (next max_payload (source (take k []) broken) ≡ err e)
unfolding next
next-empty max_payload k broken =
    let (e, p) = read_full-cut 5 (take k []) broken (omega (arith, length-take {A = ℕ} k [])) in
    (e, rw p refl)

take_past :
    (f : Frame) (fs : List Frame) (k : ℕ)
    → 5 + length f.payload ≤ k
    → take k (encodings (f ∷ fs))
      ≡ encoding f.typ f.payload ++ take (k - (5 + length f.payload)) (encodings fs)
take_past f fs k h =
    take-append_ge (encoding f.typ f.payload) (encodings fs) k
      (omega (arith, length-encoding f.typ f.payload))
    ∙ ap (λ m. encoding f.typ f.payload ++ take (k - m) (encodings fs))
        (length-encoding f.typ f.payload)

module _ {S R : Type 0} (handle : S → Frame → Step S R) (fail : FrameError → R) where
  after_handle-feed :
      (k : S → Source → Option (S × R)) (src : Source) (fs : List Frame) (d : Step S R)
      → ((t : S) → k t src ≡ some (feed handle fail t fs))
      → after_handle handle fail k src d
        ≡ some (after_feed handle fail (λ t. feed handle fail t fs) d)
  unfolding after_handle after_feed
  after_handle-feed k src fs (goes_on t) h = h t
  after_handle-feed k src fs (stops t r) h = refl

  -- A body of whole frames that ends behind them: the loop does what it does on the frames.
  pub read_frames-encodings :
      (max_payload fuel : ℕ) (s : S) (fs : List Frame)
      → AllFit max_payload fs
      → length (encodings fs) < fuel
      → read_frames handle fail max_payload fuel s (source (encodings fs) false)
        ≡ some (feed handle fail s fs)
  unfolding read_frames feed after_next
  read_frames-encodings max_payload zero s fs v h = absurd (omega arith)
  read_frames-encodings max_payload (suc n) s [] v h = rw (next-end max_payload) refl
  read_frames-encodings max_payload (suc n) s (f ∷ fs) (small, fits, v) h =
      rw (next-encoding max_payload f.typ f.payload (encodings fs) false small fits) (
        after_handle-feed (λ t src. read_frames handle fail max_payload n t src)
          (source (encodings fs) false) fs (handle s f)
          (λ t. read_frames-encodings max_payload n t fs v (
            omega (
              arith,
              length-append (encoding f.typ f.payload) (encodings fs),
              length-encoding f.typ f.payload,
            ))))

  -- A body that is cut anywhere, with any error behind it: the loop has handled some of the frames.
  abbrev pub HandledSome : S → List Frame → Option (S × R) → Type 0
  HandledSome s fs x = (n : ℕ) × (r : R) × (x ≡ some ((feed handle fail s (take n fs)).0, r))

  after_handle-cut :
      (k : S → Source → Option (S × R)) (src : Source) (f : Frame) (fs : List Frame) (s : S)
      (d : Step S R)
      → handle s f ≡ d
      → ((t : S) → HandledSome t fs (k t src))
      → HandledSome s (f ∷ fs) (after_handle handle fail k src d)
  unfolding after_handle after_feed feed
  after_handle-cut k src f fs s (goes_on t) e h = let (n, r, p) = h t in (suc n, r, rw e p)
  after_handle-cut k src f fs s (stops t r) e h = (1, r, rw e refl)

  pub read_frames-cut :
      (max_payload fuel : ℕ) (s : S) (fs : List Frame) (k : ℕ) (broken : Bool)
      → AllFit max_payload fs
      → length (take k (encodings fs)) < fuel
      → HandledSome s fs
          (read_frames handle fail max_payload fuel s (source (take k (encodings fs)) broken))
  unfolding read_frames after_next feed
  read_frames-cut max_payload zero s fs k broken v h = absurd (omega arith)
  read_frames-cut max_payload (suc n) s [] k broken v h =
      let (e, p) = next-empty max_payload k broken in (0, fail e, rw p refl)
  read_frames-cut max_payload (suc n) s (f ∷ fs) k broken (small, fits, v) h =
      elim (dec_lt k (5 + length f.payload)) [
        | yes cut ↦
            let (e, p) = next-cut_short max_payload f.typ f.payload k broken small fits cut in
            (
              0,
              fail e,
              rw
                  (take-append_le k (encoding f.typ f.payload) (encodings fs)
                    (omega (arith, length-encoding f.typ f.payload)))
                  (rw p refl),
            )
        | no past ↦ rw (take_past f fs k (omega arith)) (
            rw
              (next-encoding max_payload f.typ f.payload
                (take (k - (5 + length f.payload)) (encodings fs)) broken small fits)
              (after_handle-cut (λ t src. read_frames handle fail max_payload n t src)
                (source (take (k - (5 + length f.payload)) (encodings fs)) broken) f fs s
                (handle s f) refl
                (λ t. read_frames-cut max_payload n t fs (k - (5 + length f.payload)) broken v (
                  omega (
                    arith,
                    length-take k (encodings (f ∷ fs)),
                    length-take (k - (5 + length f.payload)) (encodings fs),
                    length-append (encoding f.typ f.payload) (encodings fs),
                    length-encoding f.typ f.payload,
                  )))))
      ]

  -- The same where `arrived` is what came of the frames' bytes.
  pub read_frames-part :
      (max_payload : ℕ) (s : S) (fs : List Frame) (arrived cut : List ℕ) (broken : Bool)
      → AllFit max_payload fs
      → arrived ++ cut ≡ encodings fs
      → HandledSome s fs
          (read_frames handle fail max_payload (suc (length arrived)) s (source arrived broken))
  read_frames-part max_payload s fs arrived cut broken v e =
      subst
        (λ a.
          HandledSome s fs
            (read_frames handle fail max_payload (suc (length arrived)) s (source a broken)))
        front
        (read_frames-cut max_payload (suc (length arrived)) s fs (length arrived) broken v
          (omega (arith, ap length front)))
    where
      front : take (length arrived) (encodings fs) ≡ arrived
      front = ap (take (length arrived)) (sym e) ∙ take-append_length arrived cut

-- A body whose frames are followed by something that the reader refuses.
module _ {S R : Type 0} (handle : S → Frame → Step S R) (fail : FrameError → R)
    (e : FrameError) where
  after_handle-then :
      (k : S → Source → Option (S × R)) (src : Source) (fs : List Frame) (d : Step S R)
      → ((t : S) → k t src ≡ some (feed handle (λ x. fail e) t fs))
      → after_handle handle fail k src d
        ≡ some (after_feed handle (λ x. fail e) (λ t. feed handle (λ x. fail e) t fs) d)
  unfolding after_handle after_feed
  after_handle-then k src fs (goes_on t) h = h t
  after_handle-then k src fs (stops t r) h = refl

  -- The loop does what it does on the frames, and if it gets past them, ends with that error.
  pub read_frames-then :
      (max_payload fuel : ℕ) (s : S) (fs : List Frame) (tail : List ℕ) (broken : Bool)
      → AllFit max_payload fs
      → next max_payload (source tail broken) ≡ err e
      → length (encodings fs ++ tail) < fuel
      → read_frames handle fail max_payload fuel s (source (encodings fs ++ tail) broken)
        ≡ some (feed handle (λ x. fail e) s fs)
  unfolding read_frames feed after_next
  read_frames-then max_payload zero s fs tail broken v q h = absurd (omega arith)
  read_frames-then max_payload (suc n) s [] tail broken v q h = rw q refl
  read_frames-then max_payload (suc n) s (f ∷ fs) tail broken (small, fits, v) q h =
      rw (append_assoc (encoding f.typ f.payload) (encodings fs) tail) (
        rw (next-encoding max_payload f.typ f.payload (encodings fs ++ tail) broken small fits) (
          after_handle-then (λ t src. read_frames handle fail max_payload n t src)
            (source (encodings fs ++ tail) broken) fs (handle s f)
            (λ t. read_frames-then max_payload n t fs tail broken v q (
              omega (
                arith,
                h,
                length-append (encoding f.typ f.payload) (encodings fs),
                length-append (encoding f.typ f.payload ++ encodings fs) tail,
                length-append (encodings fs) tail,
                length-encoding f.typ f.payload,
              )))))
