-- ===== src/Batch/Notifications/Replies.antt =====
-- When `lacksResponseID` lets a rejected payload go unanswered: if none of its keys is `id` or could
-- be `id` once decoded.
use golang_jsonrpc.Prelude.{
  ◌≡◌, refl, ap, ◌∙◌, sym, Bool, true, false, ◌||◌, not, List, [], ◌∷◌, ◌++◌, map, append_assoc,
  arith, Bytes, if◌then◌else◌, All, length-append,
}
use golang_jsonrpc.Text.Space.{trim_space}
use golang_jsonrpc.Batch.Text.{
  padded_text, join, array, Frame, IsBlankFrame, around, trim_space-around,
}
use golang_jsonrpc.Batch.Notifications.{scan, start, lacks_trimmed, lacks_response_id}
use golang_jsonrpc.Batch.Notifications.Members.{
  Object, IsObject, members_text, object_text, some_could_be_id,
}
use golang_jsonrpc.Batch.Notifications.Elements.{Item, IsItem, padded}
use golang_jsonrpc.Batch.Notifications.Objects.{outside, Answers, Blank-scan, object_scan}

-- Whether a request keeps the reply, and whether one of a batch does.
abbrev pub may_have_id : Object → Bool
may_have_id o = some_could_be_id o.members

abbrev pub some_may_have_id : List Item → Bool
some_may_have_id [] = false
some_may_have_id (i ∷ is) = may_have_id i.object || some_may_have_id is

not-if : (b : Bool) → (if b then false else true) ≡ not b
not-if b = ground arith

-- The brace that ends a single object ends the scan.
object_end : (saw key_pos : Bool) → Answers saw 1 true 1 key_pos (b'}' ∷ [])
unfolding scan
object_end saw key_pos esc key = refl

scan_object : (o : Object) → IsObject o → scan 1 start (object_text o) ≡ not (may_have_id o)
unfolding scan
scan_object o h =
    object_scan true 1 true o [] h (omega arith) (object_end true) false [] ∙ not-if (may_have_id o)

lacks_trimmed-object : (o : Object) → lacks_trimmed (object_text o) ≡ scan 1 start (object_text o)
unfolding lacks_trimmed
lacks_trimmed-object o = ground (
  arith,
  length-append (members_text o.members) (o.space ++ b'}' ∷ []),
  length-append o.space (b'}' ∷ []),
)

trim_space-object :
    (f : Frame) (o : Object)
    → IsBlankFrame f
    → trim_space (around f (object_text o)) ≡ object_text o
trim_space-object f o h =
    ap (λ t. trim_space (around f (b'{' ∷ t)))
      (sym (append_assoc (members_text o.members) o.space (b'}' ∷ [])))
    ∙ trim_space-around f b'{' (members_text o.members ++ o.space) b'}' h (omega arith)
        (omega arith)
    ∙ ap (◌∷◌ b'{') (append_assoc (members_text o.members) o.space (b'}' ∷ []))

-- A single request, with any white space in it and around it, is left unanswered exactly if no key
-- at its top level is spelled `id` or has an escape sequence, whatever keys its values hold. A key
-- with an escape sequence keeps the reply, whether or not it decodes to `id`.
pub lacks_response_id-object :
    (f : Frame) (o : Object)
    → IsBlankFrame f
    → IsObject o
    → lacks_response_id (around f (object_text o)) ≡ not (may_have_id o)
unfolding lacks_response_id
lacks_response_id-object f o b h =
    ap lacks_trimmed (trim_space-object f o b) ∙ lacks_trimmed-object o ∙ scan_object o h

-- In a batch the brace of an object leads back to the depth of the elements.
element_end :
    (r : Bool) (rest : Bytes)
    → ((key_pos : Bool) → Answers true 2 r 1 key_pos rest)
    → (key_pos : Bool) → Answers true 2 r 2 key_pos (b'}' ∷ rest)
unfolding scan
element_end r rest h key_pos esc key = h key_pos esc key

-- The brace that begins an object of a batch.
element_begin :
    (saw r key_pos : Bool) (rest : Bytes)
    → Answers true 2 r 2 true rest
    → Answers saw 2 r 1 key_pos (b'{' ∷ rest)
unfolding scan
element_begin saw r key_pos rest h esc key = h esc key

item_text :
    (i : Item) (rest : Bytes)
    → padded_text (padded i) ++ rest
      ≡ i.before
        ++ b'{' ∷ (members_text i.object.members ++ (i.object.space ++ b'}' ∷ (i.after ++ rest)))
item_text i rest = simp append_assoc refl

-- One object of a batch, with the white space on both of its sides.
element_scan :
    (saw : Bool) (r : Bool) (i : Item) (rest : Bytes)
    → IsItem i
    → ((key_pos : Bool) → Answers true 2 r 1 key_pos rest)
    → (key_pos : Bool)
    → Answers saw 2
        (if may_have_id i.object then false else r)
        1
        key_pos
        (padded_text (padded i) ++ rest)
element_scan saw r i rest h k key_pos = rw (item_text i rest) (
    Blank-scan saw 2 _ 1 key_pos i.before _ h.blank_before (
      element_begin saw _ key_pos _ (
        object_scan true 2 r i.object (i.after ++ rest) h.is_object (omega arith) (
          element_end r (i.after ++ rest)
            (λ kp. Blank-scan true 2 r 1 kp i.after rest h.blank_after (k kp))))))

array_end : (key_pos : Bool) → Answers true 2 true 1 key_pos (b']' ∷ [])
unfolding scan
array_end key_pos esc key = refl

array_comma :
    (saw r key_pos : Bool) (rest : Bytes)
    → Answers saw 2 r 1 key_pos rest
    → Answers saw 2 r 1 key_pos (b',' ∷ rest)
unfolding scan
array_comma saw r key_pos rest h esc key = h esc key

not-or : (a b : Bool) → (if a then false else not b) ≡ not (a || b)
not-or a b = ground arith

elements_scan :
    (saw key_pos : Bool) (i : Item) (is : List Item)
    → All IsItem (i ∷ is)
    → Answers saw 2
        (not (some_may_have_id (i ∷ is)))
        1
        key_pos
        (join [] (map padded (i ∷ is)) ++ b']' ∷ [])
elements_scan saw key_pos i [] h esc key =
    element_scan saw true i (b']' ∷ []) h.0 array_end key_pos esc key ∙ ground arith
elements_scan saw key_pos i (j ∷ is) h esc key =
    rw (append_assoc (padded_text (padded i)) (b',' ∷ join [] (map padded (j ∷ is))) (b']' ∷ [])) (
      element_scan saw (not (some_may_have_id (j ∷ is))) i _ h.0
        (λ kp. array_comma true _ kp _ (elements_scan true kp j is h.1)) key_pos esc key
      ∙ not-or (may_have_id i.object) (some_may_have_id (j ∷ is)))

lacks_trimmed-array :
    (s : Bytes)
    → lacks_trimmed (b'[' ∷ (s ++ b']' ∷ []))
      ≡ scan 2 (outside false 1 false false []) (s ++ b']' ∷ [])
unfolding lacks_trimmed
lacks_trimmed-array s = ground (arith, length-append s (b']' ∷ []))

-- A batch of request objects, with any white space in it and around it, is left unanswered exactly
-- if no key at the top level of an object is spelled `id` or has an escape sequence.
pub lacks_response_id-array :
    (f : Frame) (i : Item) (is : List Item)
    → IsBlankFrame f
    → All IsItem (i ∷ is)
    → lacks_response_id (around f (array [] (map padded (i ∷ is))))
      ≡ not (some_may_have_id (i ∷ is))
unfolding lacks_response_id
lacks_response_id-array f i is b h =
    ap lacks_trimmed
      (trim_space-around f b'[' (join [] (map padded (i ∷ is))) b']' b (omega arith) (omega arith))
    ∙ lacks_trimmed-array (join [] (map padded (i ∷ is)))
    ∙ elements_scan false false i is h false []
