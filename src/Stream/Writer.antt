-- ===== src/Stream/Writer.antt =====
-- client.go and handler.go: what the writer of a streamed body puts on the wire.
use pollmux.Base.{
  ℕ, ◌≡◌, ◌≢◌, ◌≤◌, ◌<◌, refl, sym, ap, ◌∙◌, Bool, true, false, List, [], ◌∷◌, ◌++◌, append_assoc,
  append-nil, Option, none, some, ◌⊎◌, inl, inr, length, u32_mod, ◌==◌, if◌then◌else◌, ◌&&◌, arith,
}
use Prim.{tt}
use pollmux.Pipe.{
  BufferedPipe, apply_all, Wake, Change, ReadResult, got, failed, blocked, pipe_interrupted,
  read_available, bytes_of,
}
use pollmux.Pipe
use pollmux.Pipe.Content.{pending, all_changes, pending-apply_all, outcome_then-read_available}
use pollmux.Pipe.Outcome.{Justified, read_available-Justified}
use pollmux.Frame.{
  Frame, write_frame, put_payload, payload_limit, frame_data, frame_heartbeat, frame_end,
  frame_gone,
}
use pollmux.Frame.Codec.{encoding, header}
use pollmux.Frame.Loop.Wire.{encodings, AllFit}
use pollmux.Stream.{
  Round, Ending, Streamed, settle, attempt, put_reading, roll_over, go_on, stream_loop,
  context_done,
}

-- The bytes that the data frames carry.
abbrev pub data_of : List Frame → List ℕ
data_of [] = []
data_of (f ∷ fs) = (if f.typ == frame_data then f.payload else []) ++ data_of fs

-- All that others do to the pipe in some rounds.
abbrev pub changes : List Round → List Change
changes [] = []
changes (r ∷ rs) = all_changes r.wakes ++ changes rs

pub pending-settle :
    (p : BufferedPipe) (ws : List Wake) (cs : List Change)
    → pending (settle p ws) cs ≡ pending p (all_changes ws ++ cs)
unfolding settle
pending-settle p [] cs = refl
pending-settle p (w ∷ ws) cs =
    pending-settle (apply_all (record { pipe = p; timed_out = false }) w).pipe ws cs
    ∙ pending-apply_all (record { pipe = p; timed_out = false }) w (all_changes ws ++ cs)
    ∙ ap (pending p) (sym (append_assoc w (all_changes ws) cs))

encodings-append : (fs gs : List Frame) → encodings (fs ++ gs) ≡ encodings fs ++ encodings gs
encodings-append [] gs = refl
encodings-append (f ∷ fs) gs =
    ap (λ b. encoding f.typ f.payload ++ b) (encodings-append fs gs)
    ∙ sym (append_assoc (encoding f.typ f.payload) (encodings fs) (encodings gs))

pub data_of-append : (fs gs : List Frame) → data_of (fs ++ gs) ≡ data_of fs ++ data_of gs
data_of-append [] gs = refl
data_of-append (f ∷ fs) gs =
    ap (λ b. (if f.typ == frame_data then f.payload else []) ++ b) (data_of-append fs gs)
    ∙ sym (append_assoc _ (data_of fs) (data_of gs))

AllFit-append :
    (dst : ℕ) (fs gs : List Frame) → AllFit dst fs → AllFit dst gs → AllFit dst (fs ++ gs)
AllFit-append dst [] gs u v = v
AllFit-append dst (f ∷ fs) gs (small, fits, u) v = (small, fits, AllFit-append dst fs gs u v)

-- Frames behind which the reader goes on.
abbrev pub IsPlain : Frame → Type 0
IsPlain f = (f.typ ≡ frame_data) ⊎ (f.typ ≡ frame_heartbeat)

abbrev AllPlain : List Frame → Type 0
AllPlain [] = Unit
AllPlain (f ∷ fs) = IsPlain f × AllPlain fs

-- Any other frame has no data, nor comes any behind it.
abbrev pub EndsLast : List Frame → Type 0
EndsLast [] = Unit
EndsLast (f ∷ fs) = (IsPlain f ⊎ (data_of (f ∷ fs) ≡ [])) × EndsLast fs

AllPlain-append : (fs gs : List Frame) → AllPlain fs → AllPlain gs → AllPlain (fs ++ gs)
AllPlain-append [] gs u v = v
AllPlain-append (f ∷ fs) gs (p, u) v = (p, AllPlain-append fs gs u v)

EndsLast-append : (fs gs : List Frame) → AllPlain fs → EndsLast gs → EndsLast (fs ++ gs)
EndsLast-append [] gs u v = v
EndsLast-append (f ∷ fs) gs (p, u) v = (inl p, EndsLast-append fs gs u v)

pub fits_of :
    (dst : ℕ) (before : List Wake) (x : Pipe.Reading)
    → Justified dst before x
    → length (bytes_of x.1) ≤ dst
fits_of dst before (p, got [], ws) j = omega arith
fits_of dst before (p, got (b ∷ bytes), ws) j = j
fits_of dst before (p, failed e, ws) j = omega arith
fits_of dst before (p, blocked, ws) j = omega arith

-- An io.Writer: `content` is what has been written, and a Write that reports no error has added all
-- of its bytes, one that reports an error some of them. `Sure` is the case that no Write fails.
module _ {W E : Type 0} (put : W → List ℕ → W × Option E) (content : W → List ℕ)
    (Sure : Type 0) where
  -- A result of writing has added `bytes`, or with an error some first part of them.
  abbrev pub Adds : {X : Type 0} → W → List ℕ → W × Option X → Type 0
  Adds w bytes r =
      (done : List ℕ) × (lost : List ℕ) × (content r.0 ≡ content w ++ done)
      × (done ++ lost ≡ bytes)
      × ((r.1 ≡ none) ⊎ Sure → lost ≡ [])

  -- What is added without an error.
  whole :
      {X : Type 0} (w w' : W) (bytes : List ℕ) (r : Option X)
      → Adds w bytes (w', r)
      → r ≡ none
      → content w' ≡ content w ++ bytes
  whole w w' bytes r (done, lost, p, s, q) e =
      p
      ∙ ap (λ b. content w ++ b) (sym (append-nil done) ∙ ap (λ l. done ++ l) (sym (q (inl e))) ∙ s)

  Adds-nothing : {X : Type 0} (w : W) (r : Option X) → Adds w [] (w, r)
  Adds-nothing w r = ([], [], sym (append-nil (content w)), refl, λ h. refl)

  -- What is added behind a write that went well.
  Adds-then :
      {X : Type 0} (w w' : W) (front bytes : List ℕ) (r : W × Option X)
      → content w' ≡ content w ++ front
      → Adds w' bytes r
      → Adds w (front ++ bytes) r
  Adds-then w w' front bytes r e (done, lost, p, s, q) = (
    front ++ done,
    lost,
    p ∙ ap (λ c. c ++ done) e ∙ append_assoc (content w) front done,
    append_assoc front done lost ∙ ap (λ b. front ++ b) s,
    q,
  )

  -- What is not tried behind an error.
  Adds-error :
      {X : Type 0} (w w' : W) (front bytes : List ℕ) (e : X)
      → ¬ Sure
      → Adds w front (w', some e)
      → Adds w (front ++ bytes) (w', some e)
  Adds-error w w' front bytes e unsure (done, lost, p, s, q) = (
    done,
    lost ++ bytes,
    p,
    sym (append_assoc done lost bytes) ∙ ap (λ b. b ++ bytes) s,
    λ h. unsure_case h,
  )
    where
      unsure_case : ((some e ≡ none) ⊎ Sure) → lost ++ bytes ≡ []
      unsure_case (inl h) = cc h
      unsure_case (inr h) = absurd (unsure h)

  module _ (writes_part : (w : W) (bytes : List ℕ) → Adds w bytes (put w bytes))
      (never : Sure → (w : W) (bytes : List ℕ) → (put w bytes).1 ≡ none) where
    some_ne_none : (e : E) → some e ≢ none
    some_ne_none e h = cc h

    put_payload-cons :
        (w : W) (b : ℕ) (bytes : List ℕ) → put_payload put (w, none) (b ∷ bytes) ≡ put w (b ∷ bytes)
    unfolding put_payload
    put_payload-cons w b bytes = ground arith

    put_payload-Adds :
        (w : W) (front payload : List ℕ) (r : W × Option E)
        → Adds w front r
        → (Sure → r.1 ≡ none)
        → Adds w (front ++ payload) (put_payload put r payload)
    put_payload-Adds w front payload (w', some e) a h =
        unfold put_payload in Adds-error w w' front payload e (λ u. some_ne_none e (h u)) a
    put_payload-Adds w front [] (w', none) a h =
        unfold put_payload in
        Adds-then w w' front [] (w', none) (whole w w' front none a refl) (Adds-nothing w' none)
    put_payload-Adds w front (b ∷ bytes) (w', none) a h = rw (put_payload-cons w' b bytes) (
        Adds-then w w' front (b ∷ bytes) (put w' (b ∷ bytes)) (whole w w' front none a refl)
          (writes_part w' (b ∷ bytes)))

    pub write_frame-Adds :
        (w : W) (typ : ℕ) (payload : List ℕ)
        → Adds w (encoding typ payload) (write_frame put w typ payload)
    unfolding write_frame
    write_frame-Adds w typ payload =
        put_payload-Adds w (header typ (length payload)) payload _
          (writes_part w (header typ (length payload)))
          (λ u. never u w (header typ (length payload)))

    -- Frames that carry `bytes`, and that a step of the loop has written, or with an ending some of
    -- their bytes.
    pub record Carries (dst : ℕ) (w : W) (bytes : List ℕ) (r : W × Option Ending) : Type 0 where
      pub frames : List Frame
      pub added : Adds w (encodings frames) r
      pub carried : data_of frames ≡ bytes
      pub fit : AllFit dst frames
      pub plain : r.1 ≡ none → AllPlain frames
      pub last : EndsLast frames

    -- An ending says nothing of what was added.
    Adds-attempt :
        (w : W) (bytes : List ℕ) (r : W × Option E) → Adds w bytes r → Adds w bytes (attempt put r)
    unfolding attempt
    Adds-attempt w bytes (w', none) (done, lost, p, s, q) = (done, lost, p, s, λ h. q (inl refl))
    Adds-attempt w bytes (w', some e) (done, lost, p, s, q) =
        (done, lost, p, s, λ h. elim h [ inl n ↦ cc n | inr u ↦ q (inr u) ])

    Adds-end :
        (w : W) (bytes : List ℕ) (r : W × Option E) (e : Ending)
        → Adds w bytes r
        → Adds w bytes (r.0, some e)
    Adds-end w bytes r e (done, lost, p, s, q) =
        (done, lost, p, s, λ h. elim h [ inl n ↦ cc n | inr u ↦ q (inr u) ])

    write_frame-encodings :
        (w : W) (typ : ℕ) (payload : List ℕ)
        → Adds w
            (encodings (record { typ = typ; payload = payload } ∷ []))
            (write_frame put w typ payload)
    write_frame-encodings w typ payload =
        rw (append-nil (encoding typ payload)) (write_frame-Adds w typ payload)

    put_reading-Carries :
        (dst farewell : ℕ) (w : W) (r : ReadResult)
        → dst < u32_mod
        → length (bytes_of r) ≤ dst
        → (farewell ≡ frame_end) ⊎ (farewell ≡ frame_gone)
        → Carries dst w (bytes_of r) (put_reading put farewell w r)
    unfolding put_reading payload_limit
    put_reading-Carries dst farewell w (got []) m h f = record {
      frames = record { typ = frame_heartbeat; payload = [] } ∷ [];
      added = Adds-attempt w _ _ (write_frame-encodings w frame_heartbeat []);
      carried = refl;
      fit = (omega arith, omega arith, tt);
      plain = λ h. (inr refl, tt);
      last = (inl (inr refl), tt);
    }
    put_reading-Carries dst farewell w (got (b ∷ bytes)) m h f = record {
      frames = record { typ = frame_data; payload = b ∷ bytes } ∷ [];
      added = Adds-attempt w _ _ (write_frame-encodings w frame_data (b ∷ bytes));
      carried = append-nil (b ∷ bytes);
      fit = (omega arith, h, tt);
      plain = λ e. (inl refl, tt);
      last = (inl (inl refl), tt);
    }
    put_reading-Carries dst farewell w (failed Pipe.eof) m h f = record {
      frames = record { typ = farewell; payload = [] } ∷ [];
      added = Adds-end w _ _ _ (write_frame-encodings w farewell []);
      carried = ground arith;
      fit = (omega arith, omega arith, tt);
      plain = λ e. cc e;
      last = (inr (ground arith), tt);
    }
    put_reading-Carries dst farewell w (failed pipe_interrupted) m h f = record {
      frames = record { typ = frame_heartbeat; payload = [] } ∷ [];
      added = Adds-attempt w _ _ (write_frame-encodings w frame_heartbeat []);
      carried = refl;
      fit = (omega arith, omega arith, tt);
      plain = λ h. (inr refl, tt);
      last = (inl (inr refl), tt);
    }
    put_reading-Carries dst farewell w blocked m h f = record {
      frames = [];
      added = Adds-nothing w _;
      carried = refl;
      fit = tt;
      plain = λ e. tt;
      last = tt;
    }

    end_frame : Frame
    end_frame = record { typ = frame_end; payload = [] }

    roll_over-Carries :
        (dst : ℕ) (w : W) (bytes : List ℕ) (late : Bool) (r : W × Option Ending)
        → Carries dst w bytes r
        → Carries dst w bytes (roll_over put late r)
    unfolding roll_over payload_limit
    roll_over-Carries dst w bytes late (w', some e) c = c
    roll_over-Carries dst w bytes false (w', none) c = c
    roll_over-Carries dst w bytes true (w', none) c = record {
      frames = c.frames ++ (record { typ = frame_end; payload = [] } ∷ []);
      added = rw (encodings-append c.frames (record { typ = frame_end; payload = [] } ∷ [])) (
          Adds-then w w' _ _ _ (whole w w' _ none c.added refl)
            (Adds-end w' _ _ _ (write_frame-encodings w' frame_end [])));
      carried = data_of-append c.frames _ ∙ append-nil (data_of c.frames) ∙ c.carried;
      fit = AllFit-append dst c.frames _ c.fit (omega arith, omega arith, tt);
      plain = λ e. cc e;
      last = EndsLast-append c.frames _ (c.plain refl) (inr refl, tt);
    }

    -- A run of the loop that has brought `before`, what the pipe held and was to be given, into data
    -- frames, as far as it went, and written these, up to an error.
    pub record Conveys (dst : ℕ) (w : W) (before : List ℕ) (out : Streamed W) : Type 0 where
      pub frames : List Frame
      pub added : Adds w (encodings frames) (out.writer, some out.ending)
      pub carried : data_of frames ++ pending out.pipe (changes out.rest) ≡ before
      pub fit : AllFit dst frames
      pub last : EndsLast frames

    go_on-Conveys :
        (dst : ℕ) (w : W) (bytes : List ℕ) (k : W → Streamed W) (p : BufferedPipe) (rs : List Round)
        (r : W × Option Ending)
        → Carries dst w bytes r
        → ((w' : W) → Conveys dst w' (pending p (changes rs)) (k w'))
        → Conveys dst w (bytes ++ pending p (changes rs)) (go_on put k p rs r)
    unfolding go_on
    go_on-Conveys dst w bytes k p rs (w', some e) c h = record {
      frames = c.frames;
      added = c.added;
      carried = ap (λ b. b ++ pending p (changes rs)) c.carried;
      fit = c.fit;
      last = c.last;
    }
    go_on-Conveys dst w bytes k p rs (w', none) c h =
        let d = h w' in
        record {
          frames = c.frames ++ d.frames;
          added =
              rw (encodings-append c.frames d.frames)
                (Adds-then w w' _ _ _ (whole w w' _ none c.added refl) d.added);
          carried =
              ap (λ b. b ++ pending (k w').pipe (changes (k w').rest))
                (data_of-append c.frames d.frames)
              ∙ append_assoc (data_of c.frames) (data_of d.frames) _
              ∙ ap (λ b. data_of c.frames ++ b) d.carried
              ∙ ap (λ b. b ++ pending p (changes rs)) c.carried;
          fit = AllFit-append dst c.frames d.frames c.fit d.fit;
          last = EndsLast-append c.frames d.frames (c.plain refl) d.last;
        }

    -- What a read of at most `dst` bytes and the rest of the round leave of the pipe.
    read-settle :
        (p : BufferedPipe) (dst : ℕ) (r : Round) (rs : List Round)
        → (let (p', result, ws) = read_available p dst r.wakes in
            bytes_of result ++ pending (settle p' ws) (changes rs))
          ≡ pending p (changes (r ∷ rs))
    read-settle p dst r rs =
        let (p', result, ws) = read_available p dst r.wakes in
        ap (λ b. bytes_of result ++ b) (pending-settle p' ws (changes rs))
        ∙ outcome_then-read_available (changes rs) p dst r.wakes

    read_fits :
        (p : BufferedPipe) (dst : ℕ) (ws : List Wake)
        → 0 < dst
        → length (bytes_of (read_available p dst ws).1) ≤ dst
    read_fits p dst ws pos =
        fits_of dst ws (read_available p dst ws) (read_available-Justified p dst ws pos)

    run_round :
        (stop : Bool) (dst : ℕ) (w : W) (p : BufferedPipe) (rs : List Round) (more : Streamed W)
        → Conveys dst w (pending p (changes rs)) more
        → Conveys dst w (pending p (changes rs)) (
            if stop
            then record { writer = w; pipe = p; ending = context_done; rest = rs }
            else more)
    run_round true dst w p rs more c = record {
      frames = [];
      added = Adds-nothing w _;
      carried = refl;
      fit = tt;
      last = tt;
    }
    run_round false dst w p rs more c = c

    pub stream_loop-Conveys :
        (checks : Bool) (farewell dst : ℕ) (w : W) (p : BufferedPipe) (rs : List Round)
        → 0 < dst
        → dst < u32_mod
        → (farewell ≡ frame_end) ⊎ (farewell ≡ frame_gone)
        → Conveys dst w (pending p (changes rs)) (stream_loop put checks farewell dst w p rs)
    unfolding stream_loop
    stream_loop-Conveys checks farewell dst w p [] pos m f = record {
      frames = [];
      added = Adds-nothing w _;
      carried = refl;
      fit = tt;
      last = tt;
    }
    stream_loop-Conveys checks farewell dst w p (r ∷ rs) pos m f =
        let (p', result, ws) = read_available p dst r.wakes in
        let after = settle p' ws in
        run_round (checks && r.cancelled) dst w p (r ∷ rs) _ (
          rw (sym (read-settle p dst r rs)) (
            go_on-Conveys dst w (bytes_of result)
              (λ w'. stream_loop put checks farewell dst w' after rs) after rs
              (roll_over put r.late (put_reading put farewell w result))
              (roll_over-Carries dst w (bytes_of result) r.late _
                (put_reading-Carries dst farewell w result m (read_fits p dst r.wakes pos) f))
              (λ w'. stream_loop-Conveys checks farewell dst w' after rs pos m f)))
