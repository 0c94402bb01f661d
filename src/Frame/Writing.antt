-- ===== src/Frame/Writing.antt =====
-- frame.go: writeFrame and writeSeqFrame against frameReader.next. The writer is a parameter.
use pollmux.Base.{
  ℕ, ◌+◌, ◌%◌, ◌≡◌, ◌≤◌, ◌<◌, refl, sym, ap, ◌∙◌, Bool, List, [], ◌∷◌, ◌++◌, append_assoc,
  append-nil, Option, none, some, length, length-append, length-big_endian, drop,
  drop-append_length, u32_mod, u64_mod, big_endian, arith,
}
use pollmux.Frame.{
  Result, ok, ◌>>=◌, Source, Frame, next, payload_limit, frame_seq_data, split_seq, put_payload,
  write_frame, write_seq_frame,
}
use pollmux.Frame.Codec.{encoding, source, next-encoding, split_seq-encoding}

-- What a receiver of a numbered frame does: its type, its offset and data, and the rest.
abbrev pub SeqFrame : Type 0
SeqFrame = ℕ × ℕ × List ℕ × Source

seq_parts : ℕ → Source → ℕ × List ℕ → Result SeqFrame
seq_parts typ r (off, bytes) = ok (typ, off, bytes, r)

split_frame : Frame × Source → Result SeqFrame
unfolding seq_parts
split_frame (f, r) = split_seq f.payload >>= seq_parts f.typ r

pub next_seq : ℕ → Source → Result SeqFrame
unfolding split_frame
next_seq max_payload r = next max_payload r >>= split_frame

-- `content` is what has been written so far: a Write that reports no error has written all of its
-- bytes behind it, as io.Writer documents.
module _ {W E : Type 0} (put : W → List ℕ → W × Option E) (content : W → List ℕ)
    (appends : (w : W) (bytes : List ℕ)
      → (put w bytes).1 ≡ none
      → content (put w bytes).0 ≡ content w ++ bytes) where
  put_payload-content :
      (r : W × Option E) (before payload : List ℕ)
      → (r.1 ≡ none → content r.0 ≡ before)
      → (put_payload put r payload).1 ≡ none
      → content (put_payload put r payload).0 ≡ before ++ payload
  unfolding put_payload
  put_payload-content (w, some e) before payload h k = cc k
  put_payload-content (w, none) before [] h k = h refl ∙ sym (append-nil before)
  put_payload-content (w, none) before (x ∷ xs) h k = ground (arith, appends w (x ∷ xs), h refl)

  put_payload-after :
      (w : W) (front payload : List ℕ)
      → (put_payload put (put w front) payload).1 ≡ none
      → content (put_payload put (put w front) payload).0 ≡ content w ++ (front ++ payload)
  put_payload-after w front payload h =
      put_payload-content (put w front) (content w ++ front) payload (appends w front) h
      ∙ append_assoc (content w) front payload

  -- What the reader sees of a writer that has come from `w` to `w'`, and of the bytes behind.
  abbrev pub sent_since : W → W → List ℕ → List ℕ
  sent_since w w' rest = drop (length (content w)) (content w') ++ rest

  sent_since-eq :
      (w w' : W) (bytes rest : List ℕ)
      → content w' ≡ content w ++ bytes
      → sent_since w w' rest ≡ bytes ++ rest
  sent_since-eq w w' bytes rest e =
      ap (λ c. drop (length (content w)) c ++ rest) e
      ∙ ap (λ c. c ++ rest) (drop-append_length (content w) bytes)

  -- A frame that was written without an error is read back, whatever follows it, if its length fits
  -- the field and the reader's bound for its type.
  pub next-write_frame :
      (w : W) (max_payload typ : ℕ) (payload rest : List ℕ) (broken : Bool)
      → length payload < u32_mod
      → length payload ≤ payload_limit typ max_payload
      → (write_frame put w typ payload).1 ≡ none
      → next max_payload (source (sent_since w (write_frame put w typ payload).0 rest) broken)
        ≡ ok (record { typ = typ; payload = payload }, source rest broken)
  unfolding write_frame
  next-write_frame w max_payload typ payload rest broken h fits done =
      rw (sent_since-eq w _ (encoding typ payload) rest (put_payload-after w _ payload done))
        (next-encoding max_payload typ payload rest broken h fits)

  -- A numbered data frame that was written without an error is read back with its offset, on any
  -- reader whose data bound admits the data: the eight bytes of the offset are on top of the bound.
  pub next-write_seq_frame :
      (w : W) (max_payload off : ℕ) (payload rest : List ℕ) (broken : Bool)
      → off < u64_mod
      → 8 + length payload < u32_mod
      → length payload ≤ max_payload
      → (write_seq_frame put w off payload).1 ≡ none
      → next_seq max_payload
          (source (sent_since w (write_seq_frame put w off payload).0 rest) broken)
        ≡ ok (frame_seq_data, off, payload, source rest broken)
  unfolding write_seq_frame next_seq
  next-write_seq_frame w max_payload off payload rest broken h small fits done =
      rw (sent_since-eq w _ (encoding frame_seq_data body) rest written) (
        rw
          (next-encoding max_payload frame_seq_data body rest broken (omega (arith, counted)) limit)
          (rw (split_seq-encoding off payload h)))
    where
      body : List ℕ
      body = big_endian 8 off ++ payload

      counted : length body ≡ 8 + length payload
      counted = omega (arith, length-append (big_endian 8 off) payload, length-big_endian 8 off)

      limit : length body ≤ payload_limit frame_seq_data max_payload
      limit = unfold payload_limit in omega (arith, counted)

      written :
          content (write_seq_frame put w off payload).0 ≡ content w ++ encoding frame_seq_data body
      written =
          put_payload-after w _ payload done
          ∙ rw (
            counted,
            append_assoc (big_endian 4 ((8 + length payload) % u32_mod)) (big_endian 8 off) payload,
          )
