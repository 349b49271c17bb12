-- ===== src/Stdio/ContentLength/Total.antt =====
-- The header loop of `contentLengthFramer.ReadFrame` ends within its fuel.
use golang_jsonrpc.Prelude.{
  ℕ, zero, suc, ◌+◌, ◌≤◌, ◌<◌, ◌≡◌, ◌≢◌, ◌⊎◌, refl, Bool, true, false, [], ◌∷◌, Option, none, arith,
  Bytes, ◌==◌, length, Bool-cases, inl, inr,
}
use golang_jsonrpc.Stdio.Stream.{
  FrameError, Ending, eof, read_failed, Slice, line, full, ended, prepend, read_slice, begin,
  trim_eol,
}
use golang_jsonrpc.Stdio.ContentLength.{
  max_header_bytes, HeaderLine, header_line, no_line, bad_line, line_of, read_header_line,
  parse_header, Parsed, refused, content_length, read_headers, sniff, read_frame,
}

-- A line that was read holds a byte at least, its line feed.
abbrev NonEmpty : Slice → Type 0
NonEmpty (line l rest) = 0 < length l
NonEmpty (full l rest) = Unit
NonEmpty (ended l) = Unit

prepend-NonEmpty : (c : ℕ) (sl : Slice) → NonEmpty (prepend c sl)
prepend-NonEmpty c (line l rest) = omega arith
prepend-NonEmpty c (full l rest) = tt
prepend-NonEmpty c (ended l) = tt

read_slice-NonEmpty : (cap : ℕ) (s : Bytes) → NonEmpty (read_slice cap s)
unfolding read_slice
read_slice-NonEmpty zero s = tt
read_slice-NonEmpty (suc cap) [] = tt
read_slice-NonEmpty (suc cap) (c ∷ s) = elim (Bool-cases (c == b'\n')) [
  | inl e ↦ rw e (omega arith)
  | inr e ↦ rw e (prepend-NonEmpty c (read_slice cap s))
]

line_of-pos :
    (ending : Ending) (first : Bool) (sl : Slice) {l rest : Bytes}
    → NonEmpty sl
    → line_of ending first sl ≡ header_line l rest
    → 0 < length l
unfolding line_of
line_of-pos ending first (line l' rest') n e = ground arith
line_of-pos ending first (full l' rest') n e = cc
line_of-pos eof true (ended []) n e = cc
line_of-pos eof false (ended []) n e = cc
line_of-pos eof true (ended (c ∷ l')) n e = cc
line_of-pos eof false (ended (c ∷ l')) n e = cc
line_of-pos read_failed first (ended l') n e = cc

read_header_line-pos :
    (ending : Ending) (first : Bool) (s : Bytes) {l rest : Bytes}
    → read_header_line ending first s ≡ header_line l rest
    → 0 < length l
unfolding read_header_line
read_header_line-pos ending first s =
    line_of-pos ending first (read_slice _ s) (read_slice-NonEmpty _ s)

pub HeaderLine-cases :
    (h : HeaderLine)
    → (h ≡ no_line)
      ⊎ ((e : FrameError) × (h ≡ bad_line e))
      ⊎ ((l : Bytes) × (rest : Bytes) × (h ≡ header_line l rest))
HeaderLine-cases no_line = inl refl
HeaderLine-cases (bad_line e) = inr (inl (e, refl))
HeaderLine-cases (header_line l rest) = inr (inr (l, rest, refl))

pub Parsed-cases :
    (p : Parsed)
    → ((e : FrameError) × (p ≡ refused e)) ⊎ ((len : Option ℕ) × (p ≡ content_length len))
Parsed-cases (refused e) = inl (e, refl)
Parsed-cases (content_length len) = inr (len, refl)

-- Each round reads a byte at least, and the block is refused past its limit.
read_headers_total :
    (fuel max_size : ℕ) (ending : Ending) (len : Option ℕ) (total : ℕ) (first : Bool) (s : Bytes)
    → max_header_bytes < total + fuel
    → total ≤ max_header_bytes
    → read_headers fuel max_size ending len total first s ≢ none
unfolding read_headers
read_headers_total zero max_size ending len total first s h b = absurd (omega arith)
read_headers_total (suc fuel) max_size ending len total first s h b =
    elim (HeaderLine-cases (read_header_line ending first s)) [
      | inl e ↦ rw (e, read_headers) (λ x. cc)
      | inr (inl (_, e)) ↦ rw (e, read_headers) (λ x. cc)
      | inr (inr (l, rest, e)) ↦
          let some_byte = read_header_line-pos ending first s e in
          rw (e, read_headers)
            (elim (Parsed-cases (parse_header max_size len (trim_eol l))) [
              | inl (_, p) ↦ rw p (ground arith)
              | inr (len', p) ↦ rw p (
                  ground (
                    arith,
                    read_headers_total fuel max_size ending len' (total + length l) false rest,
                  ))
            ])
    ]

sniff_total : (max_size : ℕ) (ending : Ending) (s : Bytes) → sniff max_size ending s ≢ none
unfolding sniff
sniff_total max_size eof [] = λ x. cc
sniff_total max_size read_failed [] = λ x. cc
sniff_total max_size ending (c ∷ s) = ground (
  arith,
  read_headers_total (max_header_bytes + 1) max_size ending none 0 true (c ∷ s) (omega arith)
      (omega arith),
)

-- ReadFrame always returns: the fuel of the header loop, one round more than the limit on the
-- bytes of a header block, is never used up, whatever the peer sends.
pub read_frame_total :
    (started : Bool) (max_size : ℕ) (ending : Ending) (s : Bytes)
    → read_frame started max_size ending s ≢ none
unfolding read_frame
read_frame_total started max_size ending s = sniff_total max_size ending (begin started s)
