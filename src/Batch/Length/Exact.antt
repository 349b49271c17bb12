-- ===== src/Batch/Length/Exact.antt =====
-- The count of `approxBatchLen` is exact, up to the limit.
use golang_jsonrpc.Prelude.{
  ℕ, suc, ◌+◌, ◌<◌, ◌≡◌, refl, ap, ◌∙◌, sym, Bool, true, false, ◌||◌, List, [], ◌∷◌, ◌++◌,
  append_assoc, arith, Bytes, ltb, leb, if◌then◌else◌, pos, length, All,
}
use golang_jsonrpc.Batch.Text.{
  Quoted, plain, escape, Balanced, byte, comma, quoted, group, IsElement, Blank, Padded, IsPadded,
  padded_text, join, array, quoted-append, group-append, has_visible, Visible-has_visible,
  is_open-visible,
}
use golang_jsonrpc.Batch.Length.{Scan, is_open, is_close, scan, approx_batch_len}

or_visible : (seen : Bool) {b : Bool} → b ≡ true → (seen || b) ≡ true
or_visible seen h = ground arith

module _ (limit : ℕ) (count : ℕ) where
  -- Between two bytes at a depth, outside of strings and inside of one.
  abbrev outside : ℕ → Bool → Scan
  outside depth seen = record {
    depth = pos depth;
    count = count;
    in_string = false;
    escaped = false;
    seen = seen;
  }

  abbrev inside : ℕ → Bool → Scan
  inside depth seen = record {
    depth = pos depth;
    count = count;
    in_string = true;
    escaped = false;
    seen = seen;
  }

  scan-Quoted :
      (depth : ℕ) (seen : Bool) (rest : Bytes) {q : Bytes}
      → Quoted q
      → scan limit (inside depth seen) (q ++ b'"' ∷ rest) ≡ scan limit (outside depth seen) rest
  unfolding scan
  scan-Quoted depth seen rest Quoted.done = refl
  scan-Quoted depth seen rest (plain c h k q) = ground (arith, scan-Quoted depth seen rest q)
  scan-Quoted depth seen rest (escape c q) = scan-Quoted depth seen rest q

  deep_quote :
      (depth : ℕ) (seen : Bool) (rest : Bytes)
      → scan limit (outside (suc (suc depth)) seen) (b'"' ∷ rest)
        ≡ scan limit (inside (suc (suc depth)) seen) rest
  unfolding scan
  deep_quote depth seen rest = ground arith

  deep_open :
      (depth : ℕ) (seen : Bool) (o : ℕ) (rest : Bytes)
      → is_open o ≡ true
      → scan limit (outside (suc (suc depth)) seen) (o ∷ rest)
        ≡ scan limit (outside (suc (suc (suc depth))) seen) rest
  unfolding scan
  deep_open depth seen o rest h = ground arith

  any_close :
      (depth : ℕ) (seen : Bool) (c : ℕ) (rest : Bytes)
      → is_close c ≡ true
      → scan limit (outside (suc depth) seen) (c ∷ rest) ≡ scan limit (outside depth seen) rest
  unfolding scan
  any_close depth seen c rest h = ground arith

  top_quote :
      (seen : Bool) (rest : Bytes)
      → scan limit (outside 1 seen) (b'"' ∷ rest) ≡ scan limit (inside 1 true) rest
  unfolding scan
  top_quote seen rest = ground arith

  top_open :
      (seen : Bool) (o : ℕ) (rest : Bytes)
      → is_open o ≡ true
      → scan limit (outside 1 seen) (o ∷ rest) ≡ scan limit (outside 2 true) rest
  unfolding scan
  top_open seen o rest h = ground arith

  -- Inside of an element nothing is counted.
  scan_deep :
      (depth : ℕ) (seen : Bool) (rest : Bytes) {commas : Bool} {t : Bytes}
      → Balanced commas t
      → scan limit (outside (suc (suc depth)) seen) (t ++ rest)
        ≡ scan limit (outside (suc (suc depth)) seen) rest
  unfolding scan
  scan_deep depth seen rest Balanced.done = refl
  scan_deep depth seen rest (byte c h b) = ground (arith, scan_deep depth seen rest b)
  scan_deep depth seen rest (comma b) = ground (arith, scan_deep depth seen rest b)
  scan_deep depth seen rest (quoted q s h b e) = rw (quoted-append q s rest e) (
      deep_quote depth seen (q ++ b'"' ∷ (s ++ rest))
      ∙ scan-Quoted (suc (suc depth)) seen (s ++ rest) h
      ∙ scan_deep depth seen rest b)
  scan_deep depth seen rest (group o c t s ho b hc b' e) = rw (group-append o c t s rest e) (
      deep_open depth seen o (t ++ c ∷ (s ++ rest)) ho
      ∙ scan_deep (suc depth) seen (c ∷ (s ++ rest)) b
      ∙ any_close (suc (suc depth)) seen c (s ++ rest) hc
      ∙ scan_deep depth seen rest b')

  -- At the depth of the elements a byte is seen, unless it is white space.
  scan_top :
      (seen : Bool) (rest : Bytes) {t : Bytes}
      → Balanced false t
      → scan limit (outside 1 seen) (t ++ rest)
        ≡ scan limit (outside 1 (seen || has_visible t)) rest
  unfolding scan
  scan_top seen rest Balanced.done = ap (λ x. scan limit (outside 1 x) rest) (ground arith)
  scan_top seen rest (byte c h b) = ground (arith, scan_top seen rest b, scan_top true rest b)
  scan_top seen rest (quoted q s h b e) = rw (quoted-append q s rest e) (
      top_quote seen (q ++ b'"' ∷ (s ++ rest))
      ∙ scan-Quoted 1 true (s ++ rest) h
      ∙ scan_top true rest b
      ∙ ap (λ x. scan limit (outside 1 x) rest) (sym (or_visible seen (ap has_visible e))))
  scan_top seen rest (group o c t s ho b hc b' e) = rw (group-append o c t s rest e) (
      top_open seen o (t ++ c ∷ (s ++ rest)) ho
      ∙ scan_deep 0 true (c ∷ (s ++ rest)) b
      ∙ any_close 1 true c (s ++ rest) hc
      ∙ scan_top true rest b'
      ∙ ap (λ x. scan limit (outside 1 x) rest)
          (sym (or_visible seen (ap has_visible e ∙ is_open-visible o (t ++ c ∷ s) ho))))

  -- An element as a whole is seen, and counts nothing.
  scan_element :
      (seen : Bool) (e rest : Bytes)
      → IsElement e
      → scan limit (outside 1 seen) (e ++ rest) ≡ scan limit (outside 1 true) rest
  scan_element seen e rest h =
      scan_top seen rest h.balanced
      ∙ ap (λ x. scan limit (outside 1 x) rest) (or_visible seen (Visible-has_visible e h.visible))

  -- White space counts nothing and is not seen.
  scan-Blank :
      (seen : Bool) (s rest : Bytes)
      → Blank s
      → scan limit (outside 1 seen) (s ++ rest) ≡ scan limit (outside 1 seen) rest
  unfolding scan
  scan-Blank seen [] rest h = refl
  scan-Blank seen (c ∷ s) rest h = ground (arith, h.0, scan-Blank seen s rest h.1)

  scan_padded :
      (seen : Bool) (p : Padded) (rest : Bytes)
      → IsPadded p
      → scan limit (outside 1 seen) (padded_text p ++ rest) ≡ scan limit (outside 1 true) rest
  scan_padded seen p rest h =
      ap (scan limit (outside 1 seen)) (append_assoc p.space p.element rest)
      ∙ scan-Blank seen p.space (p.element ++ rest) h.blank
      ∙ scan_element seen p.element rest h.is_element

  -- The closing bracket of the array ends the count.
  scan_end : scan limit (outside 1 true) (b']' ∷ []) ≡ count + 1
  unfolding scan
  scan_end = ground arith

  scan_comma :
      (rest : Bytes)
      → scan limit (outside 1 true) (b',' ∷ rest) ≡ (
          if ltb limit (count + 2)
          then count + 2
          else scan limit
              (record {
                depth = pos 1;
                count = count + 1;
                in_string = false;
                escaped = false;
                seen = true;
              })
              rest)
  unfolding scan
  scan_comma rest = ground arith

-- The rest of an array, from an element that is still within the limit.
scan-join :
    (space : Bytes) (limit count : ℕ) (seen : Bool) (p : Padded) (ps : List Padded)
    → All IsPadded (p ∷ ps)
    → count < limit
    → scan limit (outside limit count 1 seen) (join space (p ∷ ps) ++ b']' ∷ [])
      ≡ (if leb (count + suc (length ps)) limit then count + suc (length ps) else limit + 1)
scan-join space limit count seen p [] h lt =
    scan_padded limit count seen p (b']' ∷ []) h.0 ∙ scan_end limit count ∙ ground arith
scan-join space limit count seen p (q ∷ ps) h lt =
    rw (append_assoc (padded_text p) (b',' ∷ join space (q ∷ ps)) (b']' ∷ [])) (
      scan_padded limit count seen p _ h.0
      ∙ scan_comma limit count (join space (q ∷ ps) ++ b']' ∷ [])
      ∙ ground (arith, scan-join space limit (count + 1) true q ps h.1))

-- The array's own brackets.
scan_array :
    (limit : ℕ) (space : Bytes) (ps : List Padded)
    → Blank space
    → All IsPadded ps
    → 0 < limit
    → scan limit (outside limit 0 1 false) (join space ps ++ b']' ∷ [])
      ≡ (if leb (length ps) limit then length ps else limit + 1)
unfolding scan
scan_array limit space [] b h pos' = scan-Blank limit 0 false space (b']' ∷ []) b ∙ ground arith
scan_array limit space (p ∷ ps) b h pos' = scan-join space limit 0 false p ps h pos' ∙ ground arith

-- On the text of an array, with any white space in front of its elements or with only white space
-- between its brackets, and for a limit above zero, the count is the number of the elements, if that
-- is within the limit, and one more than the limit if it is not.
pub approx_batch_len-array :
    (limit : ℕ) (space : Bytes) (ps : List Padded)
    → Blank space
    → All IsPadded ps
    → 0 < limit
    → approx_batch_len (array space ps) limit
      ≡ (if leb (length ps) limit then length ps else limit + 1)
unfolding approx_batch_len
approx_batch_len-array limit space ps b h pos' = scan_array limit space ps b h pos'
