-- ===== src/Batch/Notifications/Objects.antt =====
-- How the scan of `lacksResponseID` passes over the text of an object: which keys keep the reply.
use golang_jsonrpc.Prelude.{
  ℕ, suc, ◌≤◌, ◌<◌, ◌≡◌, refl, ◌∙◌, Bool, true, false, ◌||◌, List, [], ◌∷◌, ◌++◌, append_assoc,
  append-nil, arith, Bytes, if◌then◌else◌, All, codes, bytes_eq,
}
use golang_jsonrpc.Batch.Length.{is_open, is_close}
use golang_jsonrpc.Batch.Text.{
  Quoted, plain, escape, Balanced, byte, comma, quoted, group, quoted-append, group-append, Blank,
}
use golang_jsonrpc.Batch.Notifications.{Scan, scan}
use golang_jsonrpc.Batch.Notifications.Members.{
  Member, IsMember, key_text, member_text, members_text, Object, IsObject, has_escape, could_be_id,
  some_could_be_id,
}

if_or :
    (a b r : Bool) → (if a then false else if b then false else r) ≡ (if a || b then false else r)
if_or a b r = ground arith

module _ (saw : Bool) where
  -- Outside of strings, with the key that was read last.
  abbrev pub outside : ℕ → Bool → Bool → Bytes → Scan
  outside depth key_pos esc key = record {
    depth = depth;
    in_string = false;
    escaped = false;
    key_pos = key_pos;
    in_key = false;
    key_escaped = esc;
    key = key;
    saw_element = saw;
    closed = false;
  }

  -- Inside of a string, which is a key or not.
  abbrev inside : ℕ → Bool → Bool → Bool → Bytes → Scan
  inside depth key_pos in_key esc key = record {
    depth = depth;
    in_string = true;
    escaped = false;
    key_pos = key_pos;
    in_key = in_key;
    key_escaped = esc;
    key = key;
    saw_element = saw;
    closed = false;
  }

  module _ (kd : ℕ) (r : Bool) where
    -- The scan of `rest` has the result `r`, whatever key was read last.
    abbrev pub Answers : ℕ → Bool → Bytes → Type 0
    Answers depth key_pos rest =
        (esc : Bool) (key : Bytes) → scan kd (outside depth key_pos esc key) rest ≡ r

    Quoted-value :
        (depth : ℕ) (rest : Bytes) {q : Bytes}
        → Quoted q
        → Answers depth false rest
        → (esc : Bool) (key : Bytes)
        → scan kd (inside depth false false esc key) (q ++ b'"' ∷ rest) ≡ r
    unfolding scan
    Quoted-value depth rest Quoted.done h esc key = h esc key
    Quoted-value depth rest (plain c n k q) h esc key =
        ground (arith, Quoted-value depth rest q h esc (key ++ c ∷ []))
    Quoted-value depth rest (escape c q) h esc key =
        Quoted-value depth rest q h true ((key ++ b'\\' ∷ []) ++ c ∷ [])

    open_value :
        (depth o : ℕ) (rest : Bytes)
        → is_open o ≡ true
        → 0 < kd
        → kd ≤ depth
        → Answers (suc depth) false rest
        → Answers depth false (o ∷ rest)
    unfolding scan
    open_value depth o rest ho p k h esc key = ground (arith, h esc key)

    close_value :
        (depth c : ℕ) (rest : Bytes)
        → is_close c ≡ true
        → 0 < kd
        → kd ≤ depth
        → Answers depth false rest
        → Answers (suc depth) false (c ∷ rest)
    unfolding scan
    close_value depth c rest hc p k h esc key = ground (arith, h esc key)

    -- A value changes nothing but the bytes kept of strings. A comma may stand in brackets only.
    value_scan :
        (depth : ℕ) (rest : Bytes) {commas : Bool} {t : Bytes}
        → Balanced commas t
        → 0 < kd
        → kd ≤ depth
        → (commas ≡ true → kd < depth)
        → Answers depth false rest
        → Answers depth false (t ++ rest)
    unfolding scan
    value_scan depth rest Balanced.done p k kc h esc key = h esc key
    value_scan depth rest (byte c n b) p k kc h esc key =
        ground (arith, value_scan depth rest b p k kc h esc key)
    value_scan depth rest (comma b) p k kc h esc key =
        ground (arith, kc refl, value_scan depth rest b p k kc h esc key)
    value_scan depth rest (quoted q s n b e) p k kc h esc key = rw (quoted-append q s rest e) (
        ground (arith, Quoted-value depth (s ++ rest) n (value_scan depth rest b p k kc h) esc key))
    value_scan depth rest (group o c t s ho b hc b' e) p k kc h esc key =
        rw (group-append o c t s rest e) (
          open_value depth o _ ho p k
            (value_scan (suc depth) (c ∷ (s ++ rest)) b p (omega arith) (λ _. omega arith)
              (close_value depth c (s ++ rest) hc p k (value_scan depth rest b' p k kc h)))
            esc key)

    -- White space between two tokens changes nothing.
    pub Blank-scan :
        (depth : ℕ) (key_pos : Bool) (s rest : Bytes)
        → Blank s
        → Answers depth key_pos rest
        → Answers depth key_pos (s ++ rest)
    unfolding scan
    Blank-scan depth key_pos [] rest b h esc key = h esc key
    Blank-scan depth key_pos (c ∷ s) rest b h esc key =
        ground (arith, b.0, Blank-scan depth key_pos s rest b.1 h esc key)

    -- The key of a member is what stands between its quotation marks.
    key_scan :
        (esc : Bool) (seen rest : Bytes) {q : Bytes}
        → Quoted q
        → Answers kd true rest
        → scan kd (inside kd true true esc seen) (q ++ b'"' ∷ rest)
          ≡ (if esc || (has_escape q || bytes_eq (seen ++ q) (codes "id")) then false else r)
    unfolding scan
    key_scan esc seen rest Quoted.done h = rw (append-nil seen) (ground (arith, h esc seen))
    key_scan esc seen rest (plain c {s = s} n k q) h =
        ground (arith, key_scan esc (seen ++ c ∷ []) rest q h, append_assoc seen (c ∷ []) s)
    key_scan esc seen rest (escape c q) h =
        key_scan true ((seen ++ b'\\' ∷ []) ++ c ∷ []) rest q h ∙ ground arith

    key_quote :
        (esc : Bool) (key rest : Bytes)
        → scan kd (outside kd true esc key) (b'"' ∷ rest)
          ≡ scan kd (inside kd true true false []) rest
    unfolding scan
    key_quote esc key rest = ground arith

    colon : (rest : Bytes) → Answers kd false rest → Answers kd true (b':' ∷ rest)
    unfolding scan
    colon rest h esc key = ground (arith, h esc key)

    next_member : (rest : Bytes) → Answers kd true rest → Answers kd false (b',' ∷ rest)
    unfolding scan
    next_member rest h esc key = ground (arith, h esc key)

    scan-key_text :
        (m : Member) (rest : Bytes)
        → IsMember m
        → 0 < kd
        → Answers kd false rest
        → (esc : Bool) (key : Bytes)
        → scan kd (outside kd true esc key) (key_text m ++ rest)
          ≡ (if could_be_id m.key then false else r)
    scan-key_text m rest h p k esc key =
        rw
          (
            append_assoc m.key (b'"' ∷ (m.between ++ b':' ∷ m.value)) rest,
            append_assoc m.between (b':' ∷ m.value) rest,
          )
          (key_quote esc key _
            ∙ key_scan false [] _ h.quoted_key (
                Blank-scan kd true m.between _ h.blank_between (
                  colon (m.value ++ rest)
                    (value_scan kd rest h.balanced p (omega arith) (λ x. cc) k))))

  member_scan :
      (kd : ℕ) (r : Bool) (m : Member) (rest : Bytes)
      → IsMember m
      → 0 < kd
      → Answers kd r kd false rest
      → Answers kd (if could_be_id m.key then false else r) kd true (member_text m ++ rest)
  member_scan kd r m rest h p k =
      rw (append_assoc m.before (key_text m) rest)
        (Blank-scan kd _ kd true m.before _ h.blank_before (scan-key_text kd r m rest h p k))

  pub members_scan :
      (kd : ℕ) (r : Bool) (ms : List Member) (rest : Bytes)
      → All IsMember ms
      → 0 < kd
      → ((key_pos : Bool) → Answers kd r kd key_pos rest)
      → Answers kd (if some_could_be_id ms then false else r) kd true (members_text ms ++ rest)
  members_scan kd r [] rest h p k esc key = k true esc key
  members_scan kd r (m ∷ []) rest h p k esc key =
      member_scan kd r m rest h.0 p (k false) esc key ∙ ground arith
  members_scan kd r (m ∷ n ∷ ms) rest h p k esc key =
      rw (append_assoc (member_text m) (b',' ∷ members_text (n ∷ ms)) rest) (
        member_scan kd (if some_could_be_id (n ∷ ms) then false else r) m _ h.0 p
          (next_member kd _ _ (members_scan kd r (n ∷ ms) rest h.1 p k)) esc key
        ∙ if_or (could_be_id m.key) (some_could_be_id (n ∷ ms)) r)

  -- The members of an object, up to its closing brace.
  pub object_scan :
      (kd : ℕ) (r : Bool) (o : Object) (rest : Bytes)
      → IsObject o
      → 0 < kd
      → ((key_pos : Bool) → Answers kd r kd key_pos (b'}' ∷ rest))
      → Answers kd
          (if some_could_be_id o.members then false else r)
          kd
          true
          (members_text o.members ++ (o.space ++ b'}' ∷ rest))
  object_scan kd r o rest h p k =
      members_scan kd r o.members _ h.are_members p
        (λ kp. Blank-scan kd r kd kp o.space _ h.blank (k kp))
