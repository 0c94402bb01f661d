-- ===== src/Frame/Truncation.antt =====
-- frame.go: what `next` says of a body that ends inside a frame, and what it never lets through.
use pollmux.Base.{
  ℕ, zero, suc, ◌+◌, ◌-◌, dec_lt, ◌||◌, ◌≡◌, ◌≤◌, ◌<◌, ap, ◌∙◌, false, List, [], ◌∷◌, ◌++◌,
  if◌then◌else◌, length, length-append, length-take, length-drop, take, drop, u32_mod, ◌==◌, arith,
}
use pollmux.Frame.{
  ok, err, eof, unexpected_eof, Source, Frame, read_full, read_payload, next, header_fields,
  payload_limit,
}
use pollmux.Frame.Codec.{header, encoding, source, length-header, next-header}

next_bounded_body :
    (max_payload typ n : ℕ) (r : Source) (f : Frame) (r' : Source)
    → read_payload max_payload (typ, n) r ≡ ok (f, r')
    → (length f.payload ≤ payload_limit f.typ max_payload)
      × (length r.bytes ≡ length f.payload + length r'.bytes)
unfolding read_payload read_full
next_bounded_body max_payload typ n r f r' h = (
  ground (arith, length-take n r.bytes),
  ground (arith, length-take n r.bytes, length-drop n r.bytes),
)

-- The most that one frame costs the receiver: its payload is within the bound for its type, and the
-- reader has moved past exactly the header and the payload.
pub next_bounded :
    (max_payload : ℕ) (r : Source) (f : Frame) (r' : Source)
    → next max_payload r ≡ ok (f, r')
    → (length f.payload ≤ payload_limit f.typ max_payload)
      × (length r.bytes ≡ 5 + length f.payload + length r'.bytes)
unfolding next read_full
next_bounded max_payload r f r' h =
    let fields = header_fields (take 5 r.bytes) in
    let rest : Source = record r { bytes = drop 5 r.bytes } in
    (
      ground (arith, next_bounded_body max_payload fields.0 fields.1 rest f r'),
      ground
          (arith, next_bounded_body max_payload fields.0 fields.1 rest f r', length-drop 5 r.bytes),
    )

-- A body too short for a read, ending cleanly.
read_full_short :
    (n : ℕ) (bytes : List ℕ)
    → length bytes < n
    → read_full n (source bytes false) ≡ err (if length bytes == 0 then eof else unexpected_eof)
unfolding read_full
read_full_short n bytes h = ground arith

pub take-append_ge :
    (xs ys : List ℕ) (k : ℕ) → length xs ≤ k → take k (xs ++ ys) ≡ xs ++ take (k - length xs) ys
take-append_ge [] ys k h = ap (λ j. take j ys) (omega arith)
take-append_ge (x ∷ xs) ys zero h = absurd (omega arith)
take-append_ge (x ∷ xs) ys (suc k) h =
    ap (◌∷◌ x)
      (take-append_ge xs ys k (omega arith) ∙ ap (λ j. xs ++ take j ys) (less_suc k (length xs)))
  where
    less_suc : (a b : ℕ) → a - b ≡ suc a - suc b
    less_suc a b = omega arith

read_payload_short :
    (max_payload typ n : ℕ) (bytes : List ℕ)
    → n ≤ payload_limit typ max_payload
    → length bytes < n
    → read_payload max_payload (typ, n) (source bytes false)
      ≡ err (if length bytes == 0 then eof else unexpected_eof)
unfolding read_payload
read_payload_short max_payload typ n bytes fits h = ground (arith, read_full_short n bytes h)

-- A frame that fits its length field and the reader's bound, cut short by a body that then ends
-- cleanly, reads as io.EOF exactly where the cut is before the header or directly behind it, and as
-- io.ErrUnexpectedEOF elsewhere.
pub next-cut :
    (max_payload typ : ℕ) (payload : List ℕ) (k : ℕ)
    → length payload < u32_mod
    → length payload ≤ payload_limit typ max_payload
    → k < 5 + length payload
    → next max_payload (source (take k (encoding typ payload)) false)
      ≡ err (if k == 0 || k == 5 then eof else unexpected_eof)
next-cut max_payload typ payload k h fits cut = elim (dec_lt k 5) [
  | yes inside ↦
      unfold next in
      rw (read_full_short 5 (take k (encoding typ payload)) (omega (arith, size)))
        (ground (arith, size))
  | no past ↦
      rw
        (take-append_ge (header typ (length payload)) payload k
          (omega (arith, length-header typ (length payload))))
        (rw
          (next-header max_payload typ (length payload)
            (take (k - length (header typ (length payload))) payload) false h)
          (rw
            (read_payload_short max_payload typ (length payload)
              (take (k - length (header typ (length payload))) payload) fits (omega (arith, left)))
            (ground (arith, left))))
]
  where
    size : length (take k (encoding typ payload)) ≡ k
    size = omega (
      arith,
      length-take k (encoding typ payload),
      length-append (header typ (length payload)) payload,
      length-header typ (length payload),
    )

    left : length (take (k - length (header typ (length payload))) payload) ≡ k - 5
    left = omega (
      arith,
      length-take (k - length (header typ (length payload))) payload,
      length-header typ (length payload),
    )
