-- ===== src/Logs/Frames.antt =====
-- A log that Docker has framed is read back frame by frame.
use persistent_memory_stack.Prelude.Text.{Text}
use persistent_memory_stack.Prelude.{
  All, List, [], ap, append_assoc, arith, drop, false, length, length-append, le→leb, ltb, lt→ltb,
  map, refl, some, suc, take, true, zero, ℕ, ◌%◌, ◌*◌, ◌++◌, ◌+◌, ◌/◌, ◌<◌, ◌∙◌, ◌∷◌, ◌≡◌, ◌≤◌,
}
use persistent_memory_stack.Logs.{
  concat_texts, demux_docker_log, frame_texts, is_header, joined, read_size,
}

-- A frame of a stream (0, 1 or 2), as Docker's API documents it: the stream, three bytes that are
-- 0, the size in four bytes with the highest first, and the payload.
pub record Frame : Type 0 where
  pub kind : ℕ
  pub payload : List ℕ

abbrev pub size_bytes : ℕ → List ℕ
size_bytes n = n / 16777216 ∷ n / 65536 % 256 ∷ n / 256 % 256 ∷ n % 256 ∷ []

unfoldable pub encode_frame : Frame → List ℕ
encode_frame f = f.kind ∷ 0 ∷ 0 ∷ 0 ∷ (size_bytes (length f.payload) ++ f.payload)

unfoldable pub encode_frames : List Frame → List ℕ
unfolding encode_frame
encode_frames [] = []
encode_frames (f ∷ fs) = encode_frame f ++ encode_frames fs

abbrev pub IsFrame : Frame → Type 0
IsFrame f = (f.kind ≤ 2) × (length f.payload < 4294967296)

length-encode_frame :
    (f : Frame) (rest : List ℕ) → length (encode_frame f ++ rest) ≡ 8 + length (f.payload ++ rest)
unfolding encode_frame
length-encode_frame f rest = omega arith

read_bytes :
    (n : ℕ)
    → n < 4294967296
    → ((n / 16777216 * 256 + n / 65536 % 256) * 256 + n / 256 % 256) * 256 + n % 256 ≡ n
read_bytes n h = omega arith

take-prefix : {A : Type 0} (xs ys : List A) → take (length xs) (xs ++ ys) ≡ xs
take-prefix [] ys = refl
take-prefix (x ∷ xs) ys = ap (λ zs. x ∷ zs) (take-prefix xs ys)

drop-prefix : {A : Type 0} (xs ys : List A) → drop (length xs) (xs ++ ys) ≡ ys
drop-prefix [] ys = refl
drop-prefix (x ∷ xs) ys = drop-prefix xs ys

-- A stream that ends here, or in the middle of a frame.
pub data IsCut : List ℕ → Type 0 where
  in_header : (rest : List ℕ) → length rest < 8 → IsCut rest
  in_payload :
      (rest : List ℕ)
      → is_header rest ≡ true
      → 8 ≤ length rest
      → length rest < 8 + read_size rest
      → IsCut rest

eight : (n : ℕ) → 8 + n ≡ suc (suc (suc (suc (suc (suc (suc (suc n)))))))
eight n = omega arith

ge→ltb : (a b : ℕ) → b ≤ a → ltb a b ≡ false
ge→ltb a b h = ground arith

module _ (decode : List ℕ → Text) where
  cut-frame_texts : (fuel : ℕ) (rest : List ℕ) → IsCut rest → frame_texts decode fuel rest ≡ some []
  unfolding frame_texts
  cut-frame_texts zero rest h = refl
  cut-frame_texts (suc fuel) rest (in_header _ h) = rw (lt→ltb (length rest) 8 h) refl
  cut-frame_texts (suc fuel) rest (in_payload _ header some_header h) =
      rw (ge→ltb (length rest) 8 some_header, header, lt→ltb (length rest) (8 + read_size rest) h)
        refl

  whole-frame_texts :
      (fuel : ℕ) (buf : List ℕ)
      → ltb (length buf) 8 ≡ false
      → is_header buf ≡ true
      → ltb (length buf) (8 + read_size buf) ≡ false
      → frame_texts decode (suc fuel) buf
        ≡ joined
            (decode (take (read_size buf) (drop 8 buf)))
            (frame_texts decode fuel (drop (8 + read_size buf) buf))
  unfolding frame_texts
  whole-frame_texts fuel buf e h l = rw (e, h, l) refl

  frame-frame_texts :
      (fuel : ℕ) (f : Frame) (rest : List ℕ)
      → IsFrame f
      → frame_texts decode (suc fuel) (encode_frame f ++ rest)
        ≡ joined (decode f.payload) (frame_texts decode fuel rest)
  frame-frame_texts fuel f rest (k, n) =
      whole-frame_texts fuel (encode_frame f ++ rest)
        (ge→ltb (length (encode_frame f ++ rest)) 8 (omega (arith, length-encode_frame f rest)))
        (unfold encode_frame in (rw (le→leb f.kind 2 k) refl))
        (ge→ltb _ _
          (omega (arith, length-encode_frame f rest, sized, length-append f.payload rest)))
      ∙ rw (sized, body, tail) (rw (take-prefix f.payload rest) refl)
    where
      sized : read_size (encode_frame f ++ rest) ≡ length f.payload
      sized = unfold encode_frame in read_bytes (length f.payload) n

      body : drop 8 (encode_frame f ++ rest) ≡ f.payload ++ rest
      body = unfold encode_frame in refl

      tail : drop (8 + length f.payload) (encode_frame f ++ rest) ≡ rest
      tail = unfold encode_frame in rw (eight (length f.payload)) (drop-prefix f.payload rest)

  frames-frame_texts :
      (fuel : ℕ) (fs : List Frame) (rest : List ℕ)
      → All IsFrame fs
      → IsCut rest
      → length (encode_frames fs ++ rest) ≤ fuel
      → frame_texts decode fuel (encode_frames fs ++ rest) ≡ some (map (λ f. decode f.payload) fs)
  unfolding encode_frames
  frames-frame_texts fuel [] rest h cut n = cut-frame_texts fuel rest cut
  frames-frame_texts zero (f ∷ fs) rest h cut n = absurd (
      omega (
        arith,
        n,
        length-append (encode_frame f ++ encode_frames fs) rest,
        length-encode_frame f (encode_frames fs),
      ))
  frames-frame_texts (suc fuel) (f ∷ fs) rest (k, h) cut n =
      rw (append_assoc (encode_frame f) (encode_frames fs) rest) (
        rw (frame-frame_texts fuel f (encode_frames fs ++ rest) k) (
          rw
            (frames-frame_texts fuel fs rest h cut (
              omega (
                arith,
                n,
                length-append (encode_frame f ++ encode_frames fs) rest,
                length-encode_frame f (encode_frames fs),
                length-append f.payload (encode_frames fs),
                length-append (encode_frames fs) rest,
              )))
            refl))

  -- A stream of whole frames, which may be cut off in one more frame, is read back as the texts of the
  -- whole frames in their order, each decoded by itself; there is one at least, of a stream 0, 1 or 2
  -- and below 2^32 bytes like all the others.
  pub demux_docker_log-encode_frames :
      (f : Frame) (fs : List Frame) (rest : List ℕ)
      → All IsFrame (f ∷ fs)
      → IsCut rest
      → demux_docker_log decode (encode_frames (f ∷ fs) ++ rest)
        ≡ concat_texts decode (map (λ g. decode g.payload) (f ∷ fs))
  unfolding demux_docker_log
  demux_docker_log-encode_frames f fs rest h cut =
      rw
        (
          frames-frame_texts (length (encode_frames (f ∷ fs) ++ rest)) (f ∷ fs) rest h cut
              (omega arith),
          demux_docker_log,
        )
        refl
