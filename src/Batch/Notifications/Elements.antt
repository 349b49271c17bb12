-- ===== src/Batch/Notifications/Elements.antt =====
-- The text of a request object is an element of a batch, for the scans that count and that split.
use golang_jsonrpc.Prelude.{
  ◌≡◌, refl, sym, Bool, true, false, List, [], ◌∷◌, ◌++◌, append_assoc, append-nil, Bytes, All, map,
  subst, ℕ, arith,
}
use golang_jsonrpc.Batch.Length.{is_blank}
use golang_jsonrpc.Batch.Text.{
  Balanced, byte, comma, quoted, group, Blank, Padded, IsPadded, is_special, quoted-append,
  group-append,
}
use golang_jsonrpc.Batch.Notifications.Members.{
  Member, IsMember, key_text, member_text, members_text, Object, IsObject, object_text,
}

blank_plain : (c : ℕ) → is_blank c ≡ true → is_special c ≡ false
blank_plain c h = ground arith

Balanced-append :
    {commas : Bool} {s : Bytes} (t : Bytes)
    → Balanced commas s
    → Balanced true t
    → Balanced true (s ++ t)
Balanced-append t Balanced.done k = k
Balanced-append t (byte c n b) k = byte c n (Balanced-append t b k)
Balanced-append t (comma b) k = comma (Balanced-append t b k)
Balanced-append t (quoted q s n b e) k =
    quoted q (s ++ t) n (Balanced-append t b k) (quoted-append q s t e)
Balanced-append t (group o c u s ho b hc b' e) k =
    group o c u (s ++ t) ho b hc (Balanced-append t b' k) (group-append o c u s t e)

Blank-Balanced :
    {commas : Bool} (s t : Bytes) → Blank s → Balanced commas t → Balanced commas (s ++ t)
Blank-Balanced [] t h b = b
Blank-Balanced (c ∷ s) t h b = byte c (blank_plain c h.0) (Blank-Balanced s t h.1 b)

Balanced-true : {commas : Bool} {s : Bytes} → Balanced commas s → Balanced true s
Balanced-true {s} b = subst (Balanced true) (append-nil s) (Balanced-append [] b Balanced.done)

key_text-Balanced : (m : Member) → IsMember m → Balanced true (key_text m)
key_text-Balanced m h =
    quoted m.key (m.between ++ b':' ∷ m.value) h.quoted_key
      (Blank-Balanced m.between _ h.blank_between (byte b':' refl (Balanced-true h.balanced))) refl

member-append-Balanced :
    (m : Member) (t : Bytes) → IsMember m → Balanced true t → Balanced true (member_text m ++ t)
member-append-Balanced m t h k =
    Balanced-append t (Blank-Balanced m.before _ h.blank_before (key_text-Balanced m h)) k

members-append-Balanced :
    (ms : List Member) (t : Bytes)
    → All IsMember ms
    → Balanced true t
    → Balanced true (members_text ms ++ t)
members-append-Balanced [] t h k = k
members-append-Balanced (m ∷ []) t h k = member-append-Balanced m t h.0 k
members-append-Balanced (m ∷ n ∷ ms) t h k =
    subst (Balanced true) (sym (append_assoc (member_text m) (b',' ∷ members_text (n ∷ ms)) t))
      (member-append-Balanced m _ h.0 (comma (members-append-Balanced (n ∷ ms) t h.1 k)))

object_text-append :
    (o : Object) (t : Bytes)
    → object_text o ++ t ≡ b'{' ∷ ((members_text o.members ++ o.space) ++ b'}' ∷ t)
object_text-append o t = simp append_assoc refl

-- A request in a batch, with white space on both of its sides.
pub record Item : Type 0 where
  pub before : Bytes
  pub object : Object
  pub after : Bytes

pub record IsItem (i : Item) : Type 0 where
  pub blank_before : Blank i.before
  pub is_object : IsObject i.object
  pub blank_after : Blank i.after

abbrev pub padded : Item → Padded
padded i = record { space = i.before; element = object_text i.object ++ i.after }

item-IsPadded : (i : Item) → IsItem i → IsPadded (padded i)
item-IsPadded i h = record {
  blank = h.blank_before;
  is_element = record {
    balanced =
        group b'{' b'}' (members_text i.object.members ++ i.object.space) i.after refl
          (members-append-Balanced i.object.members i.object.space h.is_object.are_members (
            subst (Balanced true) (append-nil i.object.space)
              (Blank-Balanced i.object.space [] h.is_object.blank Balanced.done)))
          refl
          (subst (Balanced false) (append-nil i.after)
            (Blank-Balanced i.after [] h.blank_after Balanced.done))
          (object_text-append i.object i.after);
    visible = refl;
  };
}

pub items-IsPadded : (is : List Item) → All IsItem is → All IsPadded (map padded is)
items-IsPadded [] h = tt
items-IsPadded (i ∷ is) h = (item-IsPadded i h.0, items-IsPadded is h.1)
