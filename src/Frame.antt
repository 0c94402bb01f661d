-- ===== src/Frame.antt =====
-- frame.go: the frames of a streamed body. A byte is a number below 256; io.ReadFull and
-- encoding/binary are Go's.
pub mod Codec
pub mod Writing
pub mod Truncation
pub mod Loop
mod Runs
use pollmux.Base.{
  ℕ, suc, ◌+◌, ◌%◌, Bool, List, [], ◌∷◌, ◌++◌, Option, none, some, leb, ltb, ◌==◌, if◌then◌else◌,
  length, take, drop, u32_mod, big_endian, from_big_endian,
}

abbrev pub frame_data : ℕ
frame_data = 1

abbrev pub frame_heartbeat : ℕ
frame_heartbeat = 2

abbrev pub frame_end : ℕ
frame_end = 3

abbrev pub frame_gone : ℕ
frame_gone = 4

abbrev pub frame_ack : ℕ
frame_ack = 5

abbrev pub frame_seq_data : ℕ
frame_seq_data = 6

abbrev pub seq_header_len : ℕ
seq_header_len = 8

abbrev pub frame_header_len : ℕ
frame_header_len = 5

pub data FrameError : Type 0 where
  eof : FrameError
  unexpected_eof : FrameError
  -- Another error of the underlying reader.
  network : FrameError
  -- A frame of the first length where the second is the most allowed.
  too_long : ℕ → ℕ → FrameError
  -- A payload of the wrong length.
  bad_payload : ℕ → FrameError

pub data Result {ℓ} (A : Type ℓ) : Type ℓ where
  ok : A → Result A
  err : FrameError → Result A

infixl 5 ◌>>=◌
abbrev pub ◌>>=◌ {ℓ κ} : {A : Type ℓ} {B : Type κ} → Result A → (A → Result B) → Result B
ok a >>= f = f a
err e >>= f = err e

-- An io.Writer over states `W`, with its errors `E`: Write returns the new state and the error.
module _ {W E : Type 0} (put : W → List ℕ → W × Option E) where
  -- The rest of a write after its header, which is skipped where the header failed.
  unfoldable pub put_payload : W × Option E → List ℕ → W × Option E
  put_payload (w, some e) payload = (w, some e)
  put_payload (w, none) payload = if length payload == 0 then (w, none) else put w payload

  unfoldable pub write_frame : W → ℕ → List ℕ → W × Option E
  unfolding put_payload
  write_frame w typ payload =
      put_payload (put w (typ ∷ big_endian 4 (length payload % u32_mod))) payload

  unfoldable pub write_seq_frame : W → ℕ → List ℕ → W × Option E
  unfolding put_payload
  write_seq_frame w off payload =
      put_payload
        (put w (
          frame_seq_data
          ∷ (big_endian 4 ((seq_header_len + length payload) % u32_mod) ++ big_endian 8 off)))
        payload

unfoldable pub encode_offset : ℕ → List ℕ
encode_offset n = big_endian 8 n

-- binary.BigEndian.Uint64 reads the first eight bytes.
unfoldable pub decode_ack : List ℕ → Result ℕ
decode_ack payload =
    if length payload == seq_header_len
    then ok (from_big_endian 0 (take 8 payload))
    else err (bad_payload (length payload))

unfoldable pub split_seq : List ℕ → Result (ℕ × List ℕ)
split_seq payload =
    if ltb (length payload) seq_header_len
    then err (bad_payload (length payload))
    else ok (from_big_endian 0 (take 8 payload), drop seq_header_len payload)

-- What an io.Reader has still to give: some bytes, then its end or an error.
pub record Source : Type 0 where
  pub bytes : List ℕ
  pub broken : Bool

-- io.ReadFull of `n` bytes.
unfoldable pub read_full : ℕ → Source → Result (List ℕ × Source)
read_full n r =
    if leb n (length r.bytes)
    then ok (take n r.bytes, record r { bytes = drop n r.bytes })
    else if r.broken
    then err network
    else if length r.bytes == 0
    then err eof
    else err unexpected_eof

pub record Frame : Type 0 where
  pub typ : ℕ
  pub payload : List ℕ

-- The most payload that a frame of this type may carry.
unfoldable pub payload_limit : ℕ → ℕ → ℕ
payload_limit typ max_payload =
    if typ == frame_seq_data
    then max_payload + seq_header_len
    else if typ == frame_ack
    then seq_header_len
    else max_payload

-- The type and the length in a header.
unfoldable pub header_fields : List ℕ → ℕ × ℕ
header_fields [] = (0, 0)
header_fields (t ∷ rest) = (t, from_big_endian 0 rest)

unfoldable pub read_payload : ℕ → ℕ × ℕ → Source → Result (Frame × Source)
read_payload max_payload (typ, n) r =
    let body =
      read_full n r >>= λ (payload, r'). ok (record { typ = typ; payload = payload }, r') in
    if n == 0
    then ok (record { typ = typ; payload = [] }, r)
    else if ltb (payload_limit typ max_payload) n
    then err (too_long n (payload_limit typ max_payload))
    else body

-- frameReader.next, with the frame and what the reader has left.
unfoldable pub next : ℕ → Source → Result (Frame × Source)
unfolding read_payload
next max_payload r =
    read_full frame_header_len r >>= λ (hdr, r'). read_payload max_payload (header_fields hdr) r'
