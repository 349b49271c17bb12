-- ===== src/Batch/Split/RoundTrip.antt =====
-- `splitBatchElements` takes an array apart into the elements that it was put together from.
use golang_jsonrpc.Prelude.{
  ℕ, suc, ◌<◌, ◌≡◌, refl, ap, ◌∙◌, sym, Bool, true, false, List, [], ◌∷◌, ◌++◌, append_assoc,
  append-nil, arith, Bytes, All, Option, none, some, init-concat, map,
}
use golang_jsonrpc.Batch.Length.{is_open, is_close}
use golang_jsonrpc.Batch.Text.{
  Quoted, plain, escape, Balanced, byte, comma, quoted, group, Visible, IsElement, Blank, Padded,
  IsPadded, padded_text, element_of, join, array, quoted-append, group-append,
}
use golang_jsonrpc.Batch.Split.{Scan, scan, split_batch_elements}

module _ (elems : List Bytes) where
  abbrev outside : ℕ → Option Bytes → Scan
  outside depth current = record {
    elems = elems;
    depth = depth;
    in_string = false;
    escaped = false;
    current = current;
  }

  abbrev inside : ℕ → Option Bytes → Scan
  inside depth current = record {
    elems = elems;
    depth = depth;
    in_string = true;
    escaped = false;
    current = current;
  }

  scan-Quoted :
      (depth : ℕ) (e rest : Bytes) {q : Bytes}
      → Quoted q
      → scan (inside depth (some e)) (q ++ b'"' ∷ rest)
        ≡ scan (outside depth (some (e ++ (q ++ b'"' ∷ [])))) rest
  unfolding scan
  scan-Quoted depth e rest Quoted.done = refl
  scan-Quoted depth e rest (plain c {s = s} h k q) =
      ground
        (arith, scan-Quoted depth (e ++ c ∷ []) rest q, append_assoc e (c ∷ []) (s ++ b'"' ∷ []))
  scan-Quoted depth e rest (escape c {s = s} q) =
      scan-Quoted depth ((e ++ b'\\' ∷ []) ++ c ∷ []) rest q
      ∙ ap (λ t. scan (outside depth (some t)) rest)
          (append_assoc (e ++ b'\\' ∷ []) (c ∷ []) _ ∙ append_assoc e (b'\\' ∷ []) _)

  open_quote :
      (depth : ℕ) (e rest : Bytes)
      → scan (outside depth (some e)) (b'"' ∷ rest)
        ≡ scan (inside depth (some (e ++ b'"' ∷ []))) rest
  unfolding scan
  open_quote depth e rest = refl

  any_open :
      (depth o : ℕ) (e rest : Bytes)
      → is_open o ≡ true
      → scan (outside depth (some e)) (o ∷ rest)
        ≡ scan (outside (suc depth) (some (e ++ o ∷ []))) rest
  unfolding scan
  any_open depth o e rest h = ground arith

  any_close :
      (depth c : ℕ) (e rest : Bytes)
      → is_close c ≡ true
      → scan (outside (suc depth) (some e)) (c ∷ rest)
        ≡ scan (outside depth (some (e ++ c ∷ []))) rest
  unfolding scan
  any_close depth c e rest h = ground arith

  -- Inside of an element every byte is kept. A comma may stand in brackets only.
  scan_text :
      (depth : ℕ) (e rest : Bytes) {commas : Bool} {t : Bytes}
      → Balanced commas t
      → (commas ≡ true → 0 < depth)
      → scan (outside depth (some e)) (t ++ rest) ≡ scan (outside depth (some (e ++ t))) rest
  unfolding scan
  scan_text depth e rest Balanced.done k =
      ap (λ t. scan (outside depth (some t)) rest) (sym (append-nil e))
  scan_text depth e rest (byte c {s = s} h b) k =
      ground (arith, scan_text depth (e ++ c ∷ []) rest b k, append_assoc e (c ∷ []) s)
  scan_text depth e rest (comma {s = s} b) k =
      ground
        (arith, k refl, scan_text depth (e ++ b',' ∷ []) rest b k, append_assoc e (b',' ∷ []) s)
  scan_text depth e rest (quoted q s h b r) k = rw (quoted-append q s rest r) (
      open_quote depth e (q ++ b'"' ∷ (s ++ rest))
      ∙ scan-Quoted depth (e ++ b'"' ∷ []) (s ++ rest) h
      ∙ scan_text depth _ rest b k
      ∙ ap (λ t. scan (outside depth (some t)) rest) (simp append_assoc (ap (◌++◌ e) (sym r))))
  scan_text depth e rest (group o c t s ho b hc b' r) k = rw (group-append o c t s rest r) (
      any_open depth o e (t ++ c ∷ (s ++ rest)) ho
      ∙ scan_text (suc depth) (e ++ o ∷ []) (c ∷ (s ++ rest)) b (λ _. omega arith)
      ∙ any_close depth c _ (s ++ rest) hc
      ∙ scan_text depth _ rest b' k
      ∙ ap (λ t. scan (outside depth (some t)) rest) (simp append_assoc (ap (◌++◌ e) (sym r))))

  -- White space in front of an element is left out.
  scan-Blank :
      (s rest : Bytes) → Blank s → scan (outside 0 none) (s ++ rest) ≡ scan (outside 0 none) rest
  unfolding scan
  scan-Blank [] rest h = refl
  scan-Blank (c ∷ s) rest h = ground (arith, h.0, scan-Blank s rest h.1)

  -- The first byte of an element begins it.
  first_byte :
      (rest : Bytes) {e : Bytes}
      → Balanced false e
      → Visible e
      → scan (outside 0 none) (e ++ rest) ≡ scan (outside 0 (some [])) (e ++ rest)
  unfolding scan
  first_byte rest Balanced.done v = elim v [ ]
  first_byte rest (byte c h b) v = ground arith
  first_byte rest (quoted q s h b r) v = rw (quoted-append q s rest r)
  first_byte rest (group o c t s ho b hc b' r) v = rw (group-append o c t s rest r) (ground arith)

  scan_element :
      (e rest : Bytes)
      → IsElement e
      → scan (outside 0 none) (e ++ rest) ≡ scan (outside 0 (some e)) rest
  scan_element e rest h =
      first_byte rest h.balanced h.visible ∙ scan_text 0 [] rest h.balanced (λ x. cc)

  scan_padded :
      (p : Padded) (rest : Bytes)
      → IsPadded p
      → scan (outside 0 none) (padded_text p ++ rest) ≡ scan (outside 0 (some p.element)) rest
  scan_padded p rest h =
      ap (scan (outside 0 none)) (append_assoc p.space p.element rest)
      ∙ scan-Blank p.space (p.element ++ rest) h.blank
      ∙ scan_element p.element rest h.is_element

scan-join :
    (space : Bytes) (elems : List Bytes) (p : Padded) (ps : List Padded)
    → All IsPadded (p ∷ ps)
    → scan (outside elems 0 none) (join space (p ∷ ps)) ≡ some (elems ++ map element_of (p ∷ ps))
unfolding scan
scan-join space elems p [] h =
    ap (scan (outside elems 0 none)) (sym (append-nil (padded_text p))) ∙ scan_padded elems p [] h.0
scan-join space elems p (q ∷ ps) h =
    scan_padded elems p (b',' ∷ join space (q ∷ ps)) h.0
    ∙ scan-join space (elems ++ p.element ∷ []) q ps h.1
    ∙ ap some (append_assoc elems (p.element ∷ []) (map element_of (q ∷ ps)))

scan_array :
    (space : Bytes) (ps : List Padded)
    → Blank space
    → All IsPadded ps
    → scan (outside [] 0 none) (join space ps) ≡ some (map element_of ps)
unfolding scan
scan_array space [] b h =
    ap (scan (outside [] 0 none)) (sym (append-nil space)) ∙ scan-Blank [] space [] b
scan_array space (p ∷ ps) b h = scan-join space [] p ps h

-- The text of an array with any white space in front of its elements, or with only white space
-- between its brackets, is split into exactly its elements, in their order, byte for byte and
-- without that white space.
pub split_batch_elements-array :
    (space : Bytes) (ps : List Padded)
    → Blank space
    → All IsPadded ps
    → split_batch_elements (array space ps) ≡ some (map element_of ps)
unfolding split_batch_elements
split_batch_elements-array space ps b h =
    ap (scan (outside [] 0 none)) (init-concat (join space ps) b']') ∙ scan_array space ps b h
