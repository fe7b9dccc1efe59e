-- ===== src/Frame.antt =====
-- benchkit/protocol/frame.go: frames on a stream of bytes, each a big-endian length and a payload. The
-- message library is not part of the repository: `marshal` and `unmarshal` are its functions.
use wkbench.Base.{
  ℕ, ℤ, pos, negsuc, zero, suc, ◌+◌, ◌*◌, ◌/◌, ◌%◌, ◌≤◌, ltb, Bool, true, false, Option, none, some,
  List, [], ◌∷◌, ◌++◌, Result, ok, err, ◌>>=◌, length, if◌then◌else◌, ◌≡◌, refl, ap, arith,
  append_assoc,
}

pub data FrameError (E : Type 0) : Type 0 where
  marshal_failed unmarshal_failed header_failed payload_failed : E → FrameError E
  frame_too_large : FrameError E
  -- io.EOF at the start of a frame or of its payload, io.ErrUnexpectedEOF inside of one
  eof unexpected_eof : FrameError E

abbrev max_uint32 : ℕ
max_uint32 = 4_294_967_295

-- binary.BigEndian.PutUint32
unfoldable pub put_uint32 : ℕ → List ℕ
put_uint32 n = n / 16_777_216 % 256 ∷ n / 65_536 % 256 ∷ n / 256 % 256 ∷ n % 256 ∷ []

-- binary.BigEndian.Uint32, on four bytes
unfoldable pub uint32 : List ℕ → ℕ
uint32 (a ∷ b ∷ c ∷ d ∷ []) = a * 16_777_216 + b * 65_536 + c * 256 + d
uint32 _ = 0

-- io.ReadFull of that many bytes from a stream that ends: `inl` counts what is missing
abbrev take_bytes : ℕ → List ℕ → Option (List ℕ × List ℕ)
take_bytes zero bytes = some ([], bytes)
take_bytes (suc n) [] = none
take_bytes (suc n) (b ∷ bytes) = elim (take_bytes n bytes) [
  | none ↦ none
  | some (taken, rest) ↦ some (b ∷ taken, rest)
]

end_of : {E : Type 0} → List ℕ → FrameError E
end_of [] = eof
end_of (_ ∷ _) = unexpected_eof

taken_or_end :
    {E : Type 0} → List ℕ → Option (List ℕ × List ℕ) → Result (FrameError E) (List ℕ × List ℕ)
unfolding end_of
taken_or_end bytes none = err (end_of bytes)
taken_or_end bytes (some t) = ok t

unfoldable pub read_full : {E : Type 0} → ℕ → List ℕ → Result (FrameError E) (List ℕ × List ℕ)
unfolding taken_or_end
read_full n bytes = taken_or_end bytes (take_bytes n bytes)

-- `r.maxBytes < 0 || uint64(size) > uint64(r.maxBytes)`
abbrev is_over : ℤ → ℕ → Bool
is_over (negsuc n) size = true
is_over (pos max) size = ltb max size

-- What Write of the underlying writer returns, as the result of a step of WriteFrame
written : {E W : Type 0} → (E → FrameError E) → Option E × W → Result (FrameError E) W
written failed (some e, w) = err (failed e)
written failed (none, w) = ok w

checked_payload : {E Frame : Type 0} → Result E Frame → Result (FrameError E) Frame
checked_payload (err e) = err (unmarshal_failed e)
checked_payload (ok frame) = ok frame

module _ {E Frame : Type 0} (marshal : Frame → Result E (List ℕ))
    (unmarshal : List ℕ → Result E Frame) where
  write_marshaled :
      {W : Type 0} → (List ℕ → W → Option E × W) → W → Result E (List ℕ) → Result (FrameError E) W
  unfolding written put_uint32
  write_marshaled put w (err e) = err (marshal_failed e)
  write_marshaled put w (ok payload) =
      if ltb max_uint32 (length payload)
      then err frame_too_large
      else written header_failed (put (put_uint32 (length payload)) w) >>= λ w'.
          written payload_failed (put payload w')

  -- FrameWriter.WriteFrame; `put` is Write of the underlying writer, with its error
  unfoldable pub write_frame :
      {W : Type 0} → (List ℕ → W → Option E × W) → Frame → W → Result (FrameError E) W
  unfolding write_marshaled
  write_frame put frame w = write_marshaled put w (marshal frame)

  read_payload : ℤ → ℕ → List ℕ → Result (FrameError E) (Frame × List ℕ)
  unfolding read_full checked_payload
  read_payload max size bytes =
      if is_over max size
      then err frame_too_large
      else read_full size bytes >>= λ (payload, rest).
          checked_payload (unmarshal payload) >>= λ frame. ok (frame, rest)

  -- FrameReader.ReadFrame on a stream, with what is left of it
  unfoldable pub read_frame : ℤ → List ℕ → Result (FrameError E) (Frame × List ℕ)
  unfolding read_full read_payload uint32
  read_frame max bytes =
      read_full 4 bytes >>= λ (header, rest). read_payload max (uint32 header) rest

take_bytes-append : (xs ys : List ℕ) → take_bytes (length xs) (xs ++ ys) ≡ some (xs, ys)
take_bytes-append [] ys = refl
take_bytes-append (x ∷ xs) ys = rw (take_bytes-append xs ys) refl

uint32-put_uint32 : (n : ℕ) → n ≤ max_uint32 → uint32 (put_uint32 n) ≡ n
unfolding uint32 put_uint32
uint32-put_uint32 n l = omega arith

read_full-append :
    {E : Type 0} (xs ys : List ℕ) → read_full {E = E} (length xs) (xs ++ ys) ≡ ok (xs, ys)
unfolding read_full taken_or_end
read_full-append xs ys = rw (take_bytes-append xs ys) refl

-- A writer that keeps what is written in memory
abbrev pub append : {E : Type 0} → List ℕ → List ℕ → Option E × List ℕ
append bytes stream = (none, stream ++ bytes)

read_payload-ok :
    {E Frame : Type 0} (marshal : Frame → Result E (List ℕ)) (unmarshal : List ℕ → Result E Frame)
    (frame : Frame) (payload rest : List ℕ) (max : ℕ)
    → unmarshal payload ≡ ok frame
    → length payload ≤ max
    → read_payload marshal unmarshal (pos max) (length payload) (payload ++ rest) ≡ ok (frame, rest)
unfolding read_payload checked_payload
read_payload-ok {E} marshal unmarshal frame payload rest max u l =
    let fits : ltb max (length payload) ≡ false = ground arith in
    rw (fits, read_full-append {E = E} payload rest, u) refl

-- A frame that the message library encodes, in no more bytes than the reader's bound and 2^32 - 1, and
-- decodes again is appended to the stream as some bytes, and a reader that finds these bytes at the
-- start of its stream returns the frame and leaves what follows them.
pub write_frame-read_frame :
    {E Frame : Type 0} (marshal : Frame → Result E (List ℕ)) (unmarshal : List ℕ → Result E Frame)
    (frame : Frame) (payload stream rest : List ℕ) (max : ℕ)
    → marshal frame ≡ ok payload
    → unmarshal payload ≡ ok frame
    → length payload ≤ max_uint32
    → length payload ≤ max
    → (bytes : List ℕ) × (write_frame marshal unmarshal append frame stream ≡ ok (stream ++ bytes))
      × (read_frame marshal unmarshal (pos max) (bytes ++ rest) ≡ ok (frame, rest))
unfolding write_frame write_marshaled read_frame written put_uint32
write_frame-read_frame {E} marshal unmarshal frame payload stream rest max m u small l =
    let fits : ltb max_uint32 (length payload) ≡ false = ground arith in
    let header = put_uint32 (length payload) in
    (
      header ++ payload,
      rw (m, fits) (ap ok (append_assoc stream header payload)),
      rw (uint32-put_uint32 (length payload) small)
          (read_payload-ok marshal unmarshal frame payload rest max u l),
    )
