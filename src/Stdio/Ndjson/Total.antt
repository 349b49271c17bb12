-- ===== src/Stdio/Ndjson/Total.antt =====
-- The loops of `ndjsonFramer.ReadFrame` end within their fuel.
use golang_jsonrpc.Prelude.{
  ℕ, zero, suc, ◌+◌, ◌<◌, ◌≡◌, ◌≢◌, ◌⊎◌, refl, ap, Bool, false, [], ◌∷◌, ◌++◌, Option, none, arith,
  Bytes, ◌==◌, length, length-append, Bool-cases, inl, inr, is_nil,
}
use golang_jsonrpc.Stdio.Stream.{
  Ending, eof, read_failed, Slice, line, full, ended, prepend, read_slice, reader_buffer_size,
  begin, trim_eol, Read,
}
use golang_jsonrpc.Stdio.Ndjson.{accept, at_end, read_lines, read_frame}

-- How much of the stream a slice leaves.
abbrev pub Splits : Bytes → Slice → Type 0
Splits s (line l rest) = length l + length rest ≡ length s
Splits s (full l rest) = length l + length rest ≡ length s
Splits s (ended l) = l ≡ s

-- A slice takes a byte at least, unless the stream has none.
abbrev pub Moves : Slice → Type 0
Moves (line l rest) = 0 < length l
Moves (full l rest) = 0 < length l
Moves (ended l) = Unit

prepend-Splits : (c : ℕ) (s : Bytes) (sl : Slice) → Splits s sl → Splits (c ∷ s) (prepend c sl)
prepend-Splits c s (line l rest) h = omega arith
prepend-Splits c s (full l rest) h = omega arith
prepend-Splits c s (ended l) h = ap (◌∷◌ c) h

prepend-Moves : (c : ℕ) (sl : Slice) → Moves (prepend c sl)
prepend-Moves c (line l rest) = omega arith
prepend-Moves c (full l rest) = omega arith
prepend-Moves c (ended l) = tt

pub read_slice-Splits : (cap : ℕ) (s : Bytes) → Splits s (read_slice cap s)
unfolding read_slice
read_slice-Splits zero s = omega arith
read_slice-Splits (suc cap) [] = refl
read_slice-Splits (suc cap) (c ∷ s) = elim (Bool-cases (c == b'\n')) [
  | inl e ↦ rw e (omega arith)
  | inr e ↦ rw e (prepend-Splits c s (read_slice cap s) (read_slice-Splits cap s))
]

pub read_slice-Moves : (cap : ℕ) (s : Bytes) → Moves (read_slice (suc cap) s)
unfolding read_slice
read_slice-Moves cap [] = tt
read_slice-Moves cap (c ∷ s) = elim (Bool-cases (c == b'\n')) [
  | inl e ↦ rw e (omega arith)
  | inr e ↦ rw e (prepend-Moves c (read_slice cap s))
]

length-pos : (s : Bytes) → is_nil s ≡ false → 0 < length s
length-pos [] h = cc
length-pos (c ∷ s) h = omega arith

accept_total :
    (max_size : ℕ) (l rest : Bytes) (next : Option Read)
    → next ≢ none
    → accept max_size l rest next ≢ none
unfolding accept
accept_total max_size l rest next h = ground arith

pub Slice-cases :
    (s : Bytes) (sl : Slice)
    → Splits s sl
    → Moves sl
    → ((l : Bytes) × (rest : Bytes) × (sl ≡ line l rest)
        × (length l + length rest ≡ length s)
        × (0 < length l))
      ⊎ ((l : Bytes) × (rest : Bytes) × (sl ≡ full l rest)
          × (length l + length rest ≡ length s)
          × (0 < length l))
      ⊎ (sl ≡ ended s)
Slice-cases s (line l rest) h m = inl (l, rest, refl, h, m)
Slice-cases s (full l rest) h m = inr (inl (l, rest, refl, h, m))
Slice-cases s (ended l) h m = inr (inr (ap ended h))

-- The end of the stream: what is left of a line is accepted, or skipped and the end read again.
ended_total :
    (max_size : ℕ) (ending : Ending) (l : Bytes) (next : Option Read)
    → (is_nil l ≡ false → next ≢ none)
    → at_end max_size ending l next ≢ none
unfolding at_end
ended_total max_size eof l next h = ground (arith, accept_total max_size (trim_eol l) [] next)
ended_total max_size read_failed l next h = ground arith

read_lines_total :
    (fuel max_size : ℕ) (ending : Ending) (acc s : Bytes)
    → length s + length s + length acc < fuel
    → read_lines fuel max_size ending acc s ≢ none
unfolding read_lines
read_lines_total zero max_size ending acc s h = elim h [ ]
read_lines_total (suc fuel) max_size ending acc s h =
    elim (Slice-cases s (read_slice reader_buffer_size s) (read_slice-Splits _ s)
      (read_slice-Moves 32767 s)) [
        | inl (l, rest, e, sum, some_byte) ↦
            rw (e, read_lines)
              (ground (
                arith,
                accept_total max_size (trim_eol (acc ++ l)) rest
                    (read_lines fuel max_size ending [] rest),
                read_lines_total fuel max_size ending [] rest,
              ))
        | inr (inl (l, rest, e, sum, some_byte)) ↦
            rw (e, read_lines)
              (ground
                (arith, length-append acc l, read_lines_total fuel max_size ending (acc ++ l) rest))
        | inr (inr e) ↦
            rw (e, read_lines)
              (ended_total max_size ending (acc ++ s) _ λ n.
                read_lines_total fuel max_size ending [] []
                  (omega (arith, length-append acc s, length-pos (acc ++ s) n)))
      ]

-- ReadFrame always returns: each round takes a byte off the stream or ends the line it has read.
pub read_frame_finishes :
    (started : Bool) (max_size : ℕ) (ending : Ending) (s : Bytes)
    → read_frame started max_size ending s ≢ none
unfolding read_frame
read_frame_finishes started max_size ending s =
    read_lines_total _ max_size ending [] (begin started s) (omega arith)
