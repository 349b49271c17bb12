-- ===== src/Batch/Notifications/Members.antt =====
-- The text of request objects, as `lacksResponseID` of handle.go reads them: members with white space
-- at every place where JSON allows it, and keys that may have escape sequences.
use golang_jsonrpc.Prelude.{
  Bool, false, ◌||◌, List, [], ◌∷◌, ◌++◌, Bytes, ◌==◌, All, codes, bytes_eq,
}
use golang_jsonrpc.Batch.Text.{Quoted, Balanced, Blank}

-- A member of an object: the white space in front of its key, the text between the key's quotation
-- marks, the white space in front of the colon, and the text behind the colon.
pub record Member : Type 0 where
  pub before : Bytes
  pub key : Bytes
  pub between : Bytes
  pub value : Bytes

pub record IsMember (m : Member) : Type 0 where
  pub blank_before : Blank m.before
  pub quoted_key : Quoted m.key
  pub blank_between : Blank m.between
  pub balanced : Balanced false m.value

abbrev pub key_text : Member → Bytes
key_text m = b'"' ∷ (m.key ++ b'"' ∷ (m.between ++ b':' ∷ m.value))

abbrev pub member_text : Member → Bytes
member_text m = m.before ++ key_text m

abbrev pub members_text : List Member → Bytes
members_text [] = []
members_text (m ∷ []) = member_text m
members_text (m ∷ n ∷ ms) = member_text m ++ b',' ∷ members_text (n ∷ ms)

-- An object: its members, and the white space in front of its closing brace.
pub record Object : Type 0 where
  pub members : List Member
  pub space : Bytes

pub record IsObject (o : Object) : Type 0 where
  pub are_members : All IsMember o.members
  pub blank : Blank o.space

abbrev pub object_text : Object → Bytes
object_text o = b'{' ∷ (members_text o.members ++ (o.space ++ b'}' ∷ []))

abbrev pub has_escape : Bytes → Bool
has_escape [] = false
has_escape (c ∷ q) = c == b'\\' || has_escape q

-- A key that is spelled `id`, or could be `id` once decoded since an escape sequence is in it.
abbrev pub could_be_id : Bytes → Bool
could_be_id key = has_escape key || bytes_eq key (codes "id")

abbrev pub some_could_be_id : List Member → Bool
some_could_be_id [] = false
some_could_be_id (m ∷ ms) = could_be_id m.key || some_could_be_id ms
