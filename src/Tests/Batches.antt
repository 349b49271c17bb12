-- ===== src/Tests/Batches.antt =====
-- The scans of raw batches, on text with white space and with an escaped key.
use golang_jsonrpc.Prelude.{
  ◌+◌, ◌≡◌, refl, not, List, [], ◌∷◌, map, some, codes, All, length, leb, if◌then◌else◌, arith,
}
use golang_jsonrpc.Batch.Text.{
  Quoted, plain, escape, Balanced, byte, comma, quoted, group, Padded, IsPadded, element_of, array,
  Frame, IsBlankFrame, around,
}
use golang_jsonrpc.Batch.Length.{approx_batch_len}
use golang_jsonrpc.Batch.Length.Exact.{approx_batch_len-array}
use golang_jsonrpc.Batch.Split.{split_batch_elements}
use golang_jsonrpc.Batch.Split.RoundTrip.{split_batch_elements-array}
use golang_jsonrpc.Batch.Notifications.{lacks_response_id}
use golang_jsonrpc.Batch.Notifications.Members.{Object, IsObject, object_text}
use golang_jsonrpc.Batch.Notifications.Elements.{Item, IsItem, padded}
use golang_jsonrpc.Batch.Notifications.Replies.{
  may_have_id, some_may_have_id, lacks_response_id-object, lacks_response_id-array,
}

-- `[1,2]` with a blank behind it, and the string of a comma with a blank in front of it.
abbrev pub elements : List Padded
elements =
    record { space = []; element = codes "[1,2] " }
    ∷ record { space = codes " "; element = codes "\",\"" }
    ∷ []

pub elements-IsPadded : All IsPadded elements
elements-IsPadded = (
  record {
    blank = tt;
    is_element = record {
      balanced =
          group b'[' b']' (codes "1,2") (codes " ") refl
            (byte b'1' refl (comma (byte b'2' refl Balanced.done))) refl
            (byte b' ' refl Balanced.done) refl;
      visible = refl;
    };
  },
  (
    record {
      blank = (refl, tt);
      is_element = record {
        balanced =
            quoted (codes ",") [] (plain b',' (λ e. omega arith) (λ e. omega arith) Quoted.done)
              Balanced.done refl;
        visible = refl;
      };
    },
    tt,
  ),
)

-- The text `[[1,2] , ","]`.
elements_text : array [] elements ≡ codes "[[1,2] , \",\"]"
elements_text = refl

approx_batch_len-array_example :
    approx_batch_len (array [] elements) 1
    ≡ (if leb (length elements) 1 then length elements else 1 + 1)
approx_batch_len-array_example =
    approx_batch_len-array 1 [] elements tt elements-IsPadded (omega arith)

split_batch_elements-array_example :
    split_batch_elements (array [] elements) ≡ some (map element_of elements)
split_batch_elements-array_example = split_batch_elements-array [] elements tt elements-IsPadded

-- An array with only a blank in it.
blank_array : split_batch_elements (array (codes " ") []) ≡ some []
blank_array = split_batch_elements-array (codes " ") [] (refl, tt) tt

-- A line feed behind the text.
abbrev pub frame : Frame
frame = record { before = codes " "; after = codes "\n" }

pub frame-IsBlankFrame : IsBlankFrame frame
frame-IsBlankFrame = record { blank_before = (refl, tt); blank_after = (refl, tt) }

-- `{ "id" : 1 }`
abbrev pub one_call : Object
one_call = record {
  members =
      record { before = codes " "; key = codes "id"; between = codes " "; value = codes " 1 " }
      ∷ [];
  space = [];
}

pub one_call-IsObject : IsObject one_call
one_call-IsObject = record {
  are_members = (
    record {
      blank_before = (refl, tt);
      quoted_key =
          plain b'i' (λ e. omega arith) (λ e. omega arith)
            (plain b'd' (λ e. omega arith) (λ e. omega arith) Quoted.done);
      blank_between = (refl, tt);
      balanced = byte b' ' refl (byte b'1' refl (byte b' ' refl Balanced.done));
    },
    tt,
  );
  blank = tt;
}

-- `{"\n":1}`
abbrev pub escaped : Object
escaped = record {
  members = record { before = []; key = b'\\' ∷ b'n' ∷ []; between = []; value = codes "1" } ∷ [];
  space = [];
}

pub escaped-IsObject : IsObject escaped
escaped-IsObject = record {
  are_members = (
    record {
      blank_before = tt;
      quoted_key = escape b'n' Quoted.done;
      blank_between = tt;
      balanced = byte b'1' refl Balanced.done;
    },
    tt,
  );
  blank = tt;
}

-- An object with no member, and with a blank in it.
abbrev pub empty : Object
empty = record { members = []; space = codes " " }

pub empty-IsObject : IsObject empty
empty-IsObject = record { are_members = tt; blank = (refl, tt) }

-- An object as an element of a batch, with a blank in front of it.
abbrev pub item : Object → Item
item o = record { before = codes " "; object = o; after = [] }

pub item-IsItem : (o : Object) → IsObject o → IsItem (item o)
item-IsItem o h = record { blank_before = (refl, tt); is_object = h; blank_after = tt }

escaped_answer : lacks_response_id (around frame (object_text escaped)) ≡ not (may_have_id escaped)
escaped_answer = lacks_response_id-object frame escaped frame-IsBlankFrame escaped-IsObject

lacks_response_id-object_example :
    lacks_response_id (around frame (object_text one_call)) ≡ not (may_have_id one_call)
lacks_response_id-object_example =
    lacks_response_id-object frame one_call frame-IsBlankFrame one_call-IsObject

lacks_response_id-array_example :
    lacks_response_id (around frame (array [] (map padded (item one_call ∷ item empty ∷ []))))
    ≡ not (some_may_have_id (item one_call ∷ item empty ∷ []))
lacks_response_id-array_example =
    lacks_response_id-array frame (item one_call) (item empty ∷ []) frame-IsBlankFrame
      (item-IsItem one_call one_call-IsObject, (item-IsItem empty empty-IsObject, tt))
