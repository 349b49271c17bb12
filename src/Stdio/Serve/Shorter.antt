-- ===== src/Stdio/Serve/Shorter.antt =====
-- A frame that is read takes a byte at least off the stream.
use golang_jsonrpc.Prelude.{
  ℕ, zero, suc, ◌+◌, ◌≤◌, ◌<◌, ◌≡◌, ◌≢◌, ◌⊎◌, refl, subst, Bool, true, false, inl, inr, [], ◌∷◌,
  ◌++◌, Option, none, some, Bytes, length, length-append, arith, drop, is_nil, ltb, ◌==◌, ◌||◌,
  if◌then◌else◌,
}
use golang_jsonrpc.Stdio.Stream.{
  Ending, eof, read_failed, FrameError, over_limit, unexpected_json, Read, frame, clean_eof, fatal,
  Slice, line, full, ended, read_slice, reader_buffer_size, begin, trim_eol,
}
use golang_jsonrpc.Stdio.ContentLength
use golang_jsonrpc.Stdio.ContentLength.{
  HeaderLine, header_line, no_line, bad_line, line_of, read_header_line, Parsed, refused,
  content_length, parse_header, read_headers, read_body, end_of_block, sniff,
}
use golang_jsonrpc.Stdio.Ndjson
use golang_jsonrpc.Stdio.Ndjson.{accept, at_end, read_lines}
use golang_jsonrpc.Stdio.Ndjson.Total.{
  Splits, Moves, read_slice-Splits, read_slice-Moves, Slice-cases, read_frame_finishes,
}
use golang_jsonrpc.Stdio.ContentLength.Total.{HeaderLine-cases, Parsed-cases, read_frame_total}
use golang_jsonrpc.Stdio.Serve.{
  Server, Framing, framing_content_length, framing_ndjson, framer_read,
}

-- Fewer bytes than `n` are left behind a frame.
abbrev Leaves : ℕ → Read → Type 0
Leaves n (frame b rest) = length rest < n
Leaves n clean_eof = Unit
Leaves n (fatal e) = Unit

abbrev Within : ℕ → Option Read → Type 0
Within n none = Unit
Within n (some r) = Leaves n r

Within-if :
    (n : ℕ) (b : Bool) (x y : Option Read)
    → (b ≡ true → Within n x)
    → (b ≡ false → Within n y)
    → Within n (if b then x else y)
Within-if n true x y h k = h refl
Within-if n false x y h k = k refl

Leaves-more : (m n : ℕ) → m ≤ n → (r : Read) → Leaves m r → Leaves n r
Leaves-more m n h (frame b rest) k = omega arith
Leaves-more m n h clean_eof k = tt
Leaves-more m n h (fatal e) k = tt

Within-more : (m n : ℕ) → m ≤ n → (o : Option Read) → Within m o → Within n o
Within-more m n h none k = tt
Within-more m n h (some r) k = Leaves-more m n h r k

module _ (n max_size : ℕ) where
  accept-Within :
      (l rest : Bytes) (next : Option Read)
      → length rest < n
      → Within n next
      → Within n (accept max_size l rest next)
  unfolding accept
  accept-Within l rest next h k =
      Within-if n (is_nil l) next _ (λ _. k)
        (λ _.
          Within-if n (ltb max_size (length l)) (some (fatal _)) _ (λ _. tt)
            (λ _. Within-if n (Ndjson.is_header l) (some (fatal _)) _ (λ _. tt) (λ _. h)))

  at_end-Within :
      (ending : Ending) (acc : Bytes) (next : Option Read)
      → (is_nil acc ≡ false → 0 < n)
      → Within n next
      → Within n (at_end max_size ending acc next)
  unfolding at_end
  at_end-Within eof acc next h k =
      Within-if n (ltb (max_size + 2) (length acc)) (some (fatal _)) _ (λ _. tt)
        (λ _.
          Within-if n (is_nil acc) (some clean_eof) _ (λ _. tt)
            (λ e. accept-Within (trim_eol acc) [] next (h e) k))
  at_end-Within read_failed acc next h k =
      Within-if n (ltb (max_size + 2) (length acc)) (some (fatal _)) _ (λ _. tt) (λ _. tt)

length-pos : (s : Bytes) → is_nil s ≡ false → 0 < length s
length-pos [] h = cc
length-pos (c ∷ s) h = omega arith

read_lines-Within :
    (fuel max_size : ℕ) (ending : Ending) (acc s : Bytes)
    → Within (length acc + length s) (read_lines fuel max_size ending acc s)
unfolding read_lines
read_lines-Within zero max_size ending acc s = tt
read_lines-Within (suc fuel) max_size ending acc s =
    elim (Slice-cases s (read_slice reader_buffer_size s) (read_slice-Splits _ s)
      (read_slice-Moves 32767 s)) [
        | inl (l, rest, e, sum, some_byte) ↦
            rw (e, read_lines)
              (Within-if n (ltb (max_size + 2) (length (acc ++ l))) (some (fatal over_limit)) _
                (λ _. tt)
                (λ _. accept-Within n max_size (trim_eol (acc ++ l)) rest _ (omega arith) (
                  Within-more (0 + length rest) n (omega arith) _
                    (read_lines-Within fuel max_size ending [] rest))))
        | inr (inl (l, rest, e, sum, some_byte)) ↦
            rw (e, read_lines)
              (Within-if n (ltb (max_size + 2) (length (acc ++ l))) (some (fatal over_limit)) _
                (λ _. tt)
                (λ _.
                  Within-more (length (acc ++ l) + length rest) n
                    (omega (arith, length-append acc l)) _
                    (read_lines-Within fuel max_size ending (acc ++ l) rest)))
        | inr (inr e) ↦
            rw (e, read_lines)
              (at_end-Within n max_size ending (acc ++ s) _
                (λ h. omega (arith, length-append acc s, length-pos (acc ++ s) h))
                (Within-more 0 n (omega arith) _ (read_lines-Within fuel max_size ending [] [])))
      ]
  where
    n : ℕ
    n = length acc + length s

length-begin : (started : Bool) (s : Bytes) → length (begin started s) ≤ length s
unfolding begin
length-begin true s = omega arith
length-begin false [] = omega arith
length-begin false (a ∷ []) = omega arith
length-begin false (a ∷ b ∷ []) = omega arith
length-begin false (a ∷ b ∷ c ∷ s) = ground arith

length-drop : (n : ℕ) (s : Bytes) → length (drop n s) ≤ length s
length-drop zero s = omega arith
length-drop (suc n) [] = omega arith
length-drop (suc n) (c ∷ s) = omega (arith, length-drop n s)

Leaves-if :
    (n : ℕ) (b : Bool) (x y : Read) → Leaves n x → Leaves n y → Leaves n (if b then x else y)
Leaves-if n true x y h k = h
Leaves-if n false x y h k = k

end_of_block-Leaves :
    (ending : Ending) (len : Option ℕ) (s : Bytes)
    → Leaves (suc (length s)) (end_of_block ending len s)
unfolding end_of_block read_body
end_of_block-Leaves ending none s = tt
end_of_block-Leaves eof (some n) s =
    Leaves-if (suc (length s)) (ltb (length s) n) (fatal _) _ tt (omega (arith, length-drop n s))
end_of_block-Leaves read_failed (some n) s =
    Leaves-if (suc (length s)) (ltb (length s) n) (fatal _) _ tt (omega (arith, length-drop n s))

-- A header line takes a byte at least.
line_of-shorter :
    (ending : Ending) (first : Bool) (s : Bytes) (sl : Slice) {l rest : Bytes}
    → Splits s sl
    → Moves sl
    → line_of ending first sl ≡ header_line l rest
    → length rest < length s
unfolding line_of
line_of-shorter ending first s (line l' rest') h m e = ground arith
line_of-shorter ending first s (full l' rest') h m e = cc
line_of-shorter eof true s (ended []) h m e = cc
line_of-shorter eof false s (ended []) h m e = cc
line_of-shorter eof true s (ended (c ∷ l')) h m e = cc
line_of-shorter eof false s (ended (c ∷ l')) h m e = cc
line_of-shorter read_failed first s (ended l') h m e = cc

read_headers-Within :
    (fuel max_size : ℕ) (ending : Ending) (len : Option ℕ) (total : ℕ) (first : Bool) (s : Bytes)
    → Within (length s) (read_headers fuel max_size ending len total first s)
unfolding read_headers read_header_line
read_headers-Within zero max_size ending len total first s = tt
read_headers-Within (suc fuel) max_size ending len total first s =
    elim (HeaderLine-cases (read_header_line ending first s)) [
      | inl e ↦ rw (e, read_headers) tt
      | inr (inl (_, e)) ↦ rw (e, read_headers) tt
      | inr (inr (l, rest, e)) ↦
          let shorter =
            line_of-shorter ending first s (read_slice reader_buffer_size s) (read_slice-Splits _ s)
              (read_slice-Moves 32767 s) e in
          rw (e, read_headers)
            (Within-if n (ltb ContentLength.max_header_bytes (total + length l)) (some (fatal _)) _
              (λ _. tt)
              (λ _.
                Within-if n (is_nil (trim_eol l)) (some (end_of_block ending len rest)) _
                  (λ _.
                    Leaves-more (suc (length rest)) n shorter _
                      (end_of_block-Leaves ending len rest))
                  (λ _. elim (Parsed-cases (parse_header max_size len (trim_eol l))) [
                    | inl (_, p) ↦ rw p tt
                    | inr (len', p) ↦ rw p (
                        Within-more (length rest) n (omega arith) _ (
                          read_headers-Within fuel max_size ending len' (total + length l) false
                            rest))
                  ])))
    ]
  where
    n : ℕ
    n = length s

sniff-Within :
    (max_size : ℕ) (ending : Ending) (s : Bytes) → Within (length s) (sniff max_size ending s)
unfolding sniff
sniff-Within max_size eof [] = tt
sniff-Within max_size read_failed [] = tt
sniff-Within max_size ending (c ∷ s) =
    Within-if (suc (length s)) (c == b'{' || c == b'[') (some (fatal unexpected_json)) _ (λ _. tt)
      (λ _. read_headers-Within _ max_size ending none 0 true (c ∷ s))

framer-Within :
    (f : Framing) (n k : ℕ) (started : Bool) (ending : Ending) (t : Bytes)
    → Within
        (length t)
        (framer_read (record { framing = f; max_message_size = n; max_calls = k }) started ending t)
unfolding framer_read ContentLength.read_frame Ndjson.read_frame
framer-Within framing_content_length n k started ending t =
    Within-more (length (begin started t)) (length t) (length-begin started t) _
      (sniff-Within n ending (begin started t))
framer-Within framing_ndjson n k started ending t =
    Within-more (0 + length (begin started t)) (length t) (omega (arith, length-begin started t)) _
      (read_lines-Within _ n ending [] (begin started t))

pub framer_read-shorter :
    (s : Server) (started : Bool) (ending : Ending) (t : Bytes) {b rest : Bytes}
    → framer_read s started ending t ≡ some (frame b rest)
    → length rest < length t
framer_read-shorter s started ending t e =
    subst (Within (length t)) e
      (framer-Within s.framing s.max_message_size s.max_calls started ending t)

framer_total :
    (f : Framing) (n k : ℕ) (started : Bool) (ending : Ending) (t : Bytes)
    → framer_read (record { framing = f; max_message_size = n; max_calls = k }) started ending t
      ≢ none
unfolding framer_read
framer_total framing_content_length n k started ending t = read_frame_total started n ending t
framer_total framing_ndjson n k started ending t = read_frame_finishes started n ending t

read_cases :
    (o : Option Read)
    → o ≢ none
    → ((b : Bytes) × (rest : Bytes) × (o ≡ some (frame b rest)))
      ⊎ (o ≡ some clean_eof)
      ⊎ ((e : FrameError) × (o ≡ some (fatal e)))
read_cases none h = absurd (h refl)
read_cases (some (frame b rest)) h = inl (b, rest, refl)
read_cases (some clean_eof) h = inr (inl refl)
read_cases (some (fatal e)) h = inr (inr (e, refl))

-- What a read gives: it always ends.
pub framer_read-cases :
    (s : Server) (started : Bool) (ending : Ending) (t : Bytes)
    → ((b : Bytes) × (rest : Bytes) × (framer_read s started ending t ≡ some (frame b rest)))
      ⊎ (framer_read s started ending t ≡ some clean_eof)
      ⊎ ((e : FrameError) × (framer_read s started ending t ≡ some (fatal e)))
framer_read-cases s started ending t =
    read_cases (framer_read s started ending t)
      (framer_total s.framing s.max_message_size s.max_calls started ending t)
