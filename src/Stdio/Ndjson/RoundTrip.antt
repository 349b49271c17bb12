-- ===== src/Stdio/Ndjson/RoundTrip.antt =====
-- What `ndjsonFramer.WriteFrame` writes is one line, and its `ReadFrame` reads that line back.
use mathlib.Core.Option
use golang_jsonrpc.Prelude.{
  ℕ, zero, suc, ◌+◌, ◌≤◌, ◌<◌, ◌≡◌, ◌≢◌, refl, ap, ◌∙◌, sym, subst, true, false, [], ◌∷◌, ◌++◌,
  append_assoc, Option, none, some, arith, Bytes, length, length-append, take, drop, Bool-cases,
  ltb→lt, Option-cases, inl, inr, ltb, Bool,
}
use golang_jsonrpc.Json.Compact.{compact, compact-no_newline}
use golang_jsonrpc.Stdio.Stream.{
  Ending, line, full, read_slice, reader_buffer_size, read_slice_line, NoNewline, begin, trim_eol,
  trim_cr, trim_lf-concat, Read, frame, nothing_left, eof, read_failed,
}
use golang_jsonrpc.Stdio.Ndjson.{
  accept, is_header, read_lines, read_frame, has_newline, write_compact, write_frame, at_end,
}

-- A buffer that fills up before the line ends.
read_slice_full :
    (cap : ℕ) (l rest : Bytes)
    → NoNewline l
    → cap ≤ length l
    → read_slice cap (l ++ rest) ≡ full (take cap l) (drop cap l ++ rest)
unfolding read_slice
read_slice_full zero l rest n h = refl
read_slice_full (suc cap) [] rest n h = elim h [ ]
read_slice_full (suc cap) (c ∷ l) rest n h = ground (arith, read_slice_full cap l rest n.1)

take-drop : (n : ℕ) (s : Bytes) → take n s ++ drop n s ≡ s
take-drop zero s = refl
take-drop (suc n) [] = refl
take-drop (suc n) (c ∷ s) = ap (◌∷◌ c) (take-drop n s)

length-take : (n : ℕ) (s : Bytes) → length (take n s) ≤ length s
length-take zero s = omega arith
length-take (suc n) [] = omega arith
length-take (suc n) (c ∷ s) = omega (arith, length-take n s)

not-ltb→le : (a b : ℕ) → ltb a b ≡ false → b ≤ a
not-ltb→le a b h = ground arith

length-drop : (n : ℕ) (s : Bytes) → n ≤ length s → length (drop n s) + n ≡ length s
length-drop zero s h = omega arith
length-drop (suc n) [] h = elim h [ ]
length-drop (suc n) (c ∷ s) h = omega (arith, length-drop n s)

NoNewline-drop : (n : ℕ) (s : Bytes) → NoNewline s → NoNewline (drop n s)
NoNewline-drop zero s h = h
NoNewline-drop (suc n) [] h = tt
NoNewline-drop (suc n) (c ∷ s) h = NoNewline-drop n s h.1

has_newline-NoNewline : (s : Bytes) → has_newline s ≡ false → NoNewline s
unfolding has_newline
has_newline-NoNewline [] h = tt
has_newline-NoNewline (c ∷ s) h = (ground arith, has_newline-NoNewline s (ground arith))

pub NoNewline-has_newline : (s : Bytes) → NoNewline s → has_newline s ≡ false
unfolding has_newline
NoNewline-has_newline [] h = refl
NoNewline-has_newline (c ∷ s) h = ground (arith, NoNewline-has_newline s h.1)

-- A line that `ReadFrame` hands on as it stands: it is not empty, ends in no carriage return, is
-- within the limit and is no header of the other framing.
pub record IsMessage (max_size : ℕ) (l : Bytes) : Type 0 where
  pub one_line : NoNewline l
  pub not_blank : l ≢ []
  pub no_return : trim_cr l ≡ l
  pub fits : length l ≤ max_size
  pub no_header : is_header l ≡ false

accept_lem :
    (max_size : ℕ) (l rest : Bytes) (next : Option Read)
    → IsMessage max_size l
    → accept max_size l rest next ≡ some (frame l rest)
unfolding accept
accept_lem max_size [] rest next m = absurd (m.not_blank refl)
accept_lem max_size (c ∷ l) rest next m = rw m.no_header (ground (arith, m.fits))

trim_eol-concat : (l : Bytes) → trim_cr l ≡ l → trim_eol (l ++ b'\n' ∷ []) ≡ l
unfolding trim_eol
trim_eol-concat l h = ap trim_cr (trim_lf-concat l) ∙ h

-- One round of the loop, by what `ReadSlice` returns.
module _ (fuel max_size : ℕ) (ending : Ending) (acc s l rest : Bytes) where
  read_lines_line :
      read_slice reader_buffer_size s ≡ line l rest
      → length (acc ++ l) ≤ max_size + 2
      → read_lines (suc fuel) max_size ending acc s
        ≡ accept max_size (trim_eol (acc ++ l)) rest (read_lines fuel max_size ending [] rest)
  unfolding read_lines
  read_lines_line e h = rw (e, read_lines) (ground arith)

  read_lines_full :
      read_slice reader_buffer_size s ≡ full l rest
      → length (acc ++ l) ≤ max_size + 2
      → read_lines (suc fuel) max_size ending acc s
        ≡ read_lines fuel max_size ending (acc ++ l) rest
  unfolding read_lines
  read_lines_full e h = rw (e, read_lines) (ground arith)

-- The last round: the line feed lies within the buffer.
last_round :
    (fuel max_size : ℕ) (ending : Ending) (acc l rest : Bytes)
    → length l < reader_buffer_size
    → NoNewline l
    → IsMessage max_size (acc ++ l)
    → read_lines (suc fuel) max_size ending acc (l ++ b'\n' ∷ rest) ≡ some (frame (acc ++ l) rest)
last_round fuel max_size ending acc l rest h n m =
    let whole : acc ++ (l ++ b'\n' ∷ []) ≡ (acc ++ l) ++ b'\n' ∷ [] = sym (append_assoc acc l _) in
    read_lines_line fuel max_size ending acc _ _ _ (read_slice_line reader_buffer_size l rest n h)
      (rw whole (omega (arith, length-append (acc ++ l) (b'\n' ∷ []), m.fits)))
    ∙ ap (λ t. accept max_size (trim_eol t) rest (read_lines fuel max_size ending [] rest)) whole
    ∙ ap (λ t. accept max_size t rest (read_lines fuel max_size ending [] rest))
        (trim_eol-concat (acc ++ l) m.no_return)
    ∙ accept_lem max_size (acc ++ l) rest _ m

-- A round that fills the buffer.
full_round :
    (fuel max_size : ℕ) (ending : Ending) (acc l rest : Bytes)
    → reader_buffer_size ≤ length l
    → NoNewline l
    → length (acc ++ l) ≤ max_size
    → read_lines (suc fuel) max_size ending acc (l ++ b'\n' ∷ rest)
      ≡ read_lines fuel max_size ending
          (acc ++ take reader_buffer_size l)
          (drop reader_buffer_size l ++ b'\n' ∷ rest)
full_round fuel max_size ending acc l rest h n f =
    read_lines_full fuel max_size ending acc _ _ _
      (read_slice_full reader_buffer_size l (b'\n' ∷ rest) n h)
      (omega (
        arith,
        length-append acc l,
        length-append acc (take reader_buffer_size l),
        length-take reader_buffer_size l,
      ))

-- However often the buffer fills up, the line comes out whole.
read_lines_message :
    (fuel max_size : ℕ) (ending : Ending) (acc l rest : Bytes)
    → length l < fuel
    → NoNewline l
    → IsMessage max_size (acc ++ l)
    → read_lines fuel max_size ending acc (l ++ b'\n' ∷ rest) ≡ some (frame (acc ++ l) rest)
read_lines_message zero max_size ending acc l rest h n m = elim h [ ]
read_lines_message (suc fuel) max_size ending acc l rest h n m =
    elim (Bool-cases (ltb (length l) reader_buffer_size)) [
      | inl e ↦ last_round fuel max_size ending acc l rest (ltb→lt _ _ e) n m
      | inr e ↦
          let long : reader_buffer_size ≤ length l = not-ltb→le _ _ e in
          let whole : (acc ++ take reader_buffer_size l) ++ drop reader_buffer_size l ≡ acc ++ l =
            append_assoc acc _ _ ∙ ap (◌++◌ acc) (take-drop reader_buffer_size l) in
          full_round fuel max_size ending acc l rest long n m.fits
          ∙ read_lines_message fuel max_size ending (acc ++ take reader_buffer_size l)
              (drop reader_buffer_size l) rest
              (omega (arith, length-drop reader_buffer_size l long))
              (NoNewline-drop reader_buffer_size l n) (subst (IsMessage max_size) (sym whole) m)
          ∙ ap (λ t. some (frame t rest)) whole
    ]

-- A line of a stream that has begun is read back whole, however long, and the bytes behind its line
-- feed are left.
pub read_frame_line :
    (max_size : ℕ) (ending : Ending) (l rest : Bytes)
    → IsMessage max_size l
    → read_frame true max_size ending (l ++ b'\n' ∷ rest) ≡ some (frame l rest)
unfolding read_frame begin
read_frame_line max_size ending l rest m =
    read_lines_message _ max_size ending [] l rest (omega (arith, length-append l (b'\n' ∷ rest)))
      m.one_line m

-- What WriteFrame writes for a message: exactly one line feed, at its end.
abbrev IsOneLine : Option Bytes → Type 0
IsOneLine none = Unit
IsOneLine (some w) = (l : Bytes) × (w ≡ l ++ b'\n' ∷ []) × NoNewline l

write_compact_line : (o : Option Bytes) → IsOneLine (write_compact o)
unfolding write_compact
write_compact_line none = tt
write_compact_line (some l) = elim (Bool-cases (has_newline l)) [
  | inl e ↦ rw e tt
  | inr e ↦ rw e (l, refl, has_newline-NoNewline l e)
]

write_frame-IsOneLine : (body : Bytes) → IsOneLine (write_frame body)
unfolding write_frame
write_frame-IsOneLine body = elim (Bool-cases (has_newline body)) [
  | inl e ↦ rw e (write_compact_line (compact body))
  | inr e ↦ rw e (body, refl, has_newline-NoNewline body e)
]

-- Whatever the message holds, a frame that WriteFrame writes is one line: no line feed that a
-- handler smuggled into its result can split it.
pub write_frame_line :
    (body : Bytes) {w : Bytes}
    → write_frame body ≡ some w
    → (l : Bytes) × (w ≡ l ++ b'\n' ∷ []) × NoNewline l
write_frame_line body e = subst IsOneLine e (write_frame-IsOneLine body)

write_compact-compact :
    (s l : Bytes) → compact s ≡ some l → write_compact (compact s) ≡ some (l ++ b'\n' ∷ [])
unfolding write_compact
write_compact-compact s l e = rw (e, NoNewline-has_newline l (compact-no_newline s e))

-- A message with a raw line feed is written as its compact form, if it is JSON, and refused with
-- nothing written if it is not: the compact form never needs to be refused.
pub write_frame-compact :
    (body : Bytes)
    → has_newline body ≡ true
    → write_frame body ≡ Option.map (λ l. l ++ b'\n' ∷ []) (compact body)
unfolding write_frame
write_frame-compact body h = rw h (elim (Option-cases (compact body)) [
  | inl e ↦ rw e (unfold write_compact in refl)
  | inr (l, e) ↦ write_compact-compact body l e ∙ rw e
])

pub Ndjson_nothing :
    (started : Bool) (max_size : ℕ) (ending : Ending)
    → read_frame started max_size ending [] ≡ nothing_left ending
unfolding read_frame read_lines read_slice at_end begin
Ndjson_nothing true max_size eof = ground arith
Ndjson_nothing true max_size read_failed = ground arith
Ndjson_nothing false max_size eof = ground arith
Ndjson_nothing false max_size read_failed = ground arith
