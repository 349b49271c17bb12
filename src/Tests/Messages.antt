-- ===== src/Tests/Messages.antt =====
-- Messages as bytes: over the limits, and within them.
use golang_jsonrpc.Prelude.{
  ℕ, ◌≡◌, ◌≢◌, refl, List, [], ◌∷◌, All, map, none, some, codes, pos, if◌then◌else◌,
}
use golang_jsonrpc.Batch.Text.{array, around}
use golang_jsonrpc.Batch.Notifications.Members.{object_text}
use golang_jsonrpc.Batch.Notifications.Elements.{Item, IsItem, padded}
use golang_jsonrpc.Batch.Notifications.Replies.{may_have_id, some_may_have_id}
use golang_jsonrpc.Rpc.Types.{Response, unencodable, internal_error_code}
use golang_jsonrpc.Rpc.Config.{Config, new, set_max_message_size}
use golang_jsonrpc.Rpc.Config.Consistent.{apply_all, apply}
use golang_jsonrpc.Rpc.Wire.{marshal_batch}
use golang_jsonrpc.Rpc.Raw.{
  resp_request_too_large, resp_batch_too_large, handle_raw, repair, batch_reply, exceeds,
}
use golang_jsonrpc.Rpc.Raw.Limits.{handle_raw-oversize, handle_raw-over_batch_limit}
use golang_jsonrpc.Rpc.Raw.Repair.{batch_reply-repaired}
use golang_jsonrpc.Tests.Fixtures.{codec, world, server}
use golang_jsonrpc.Tests.Batches.{
  frame, frame-IsBlankFrame, one_call, one_call-IsObject, escaped, escaped-IsObject, empty,
  empty-IsObject, item, item-IsItem,
}

abbrev narrow : Config ℕ
narrow = record server { max_message_size = pos 3 }

handle_raw-oversize_example :
    (handle_raw codec narrow world 0 (around frame (object_text one_call))).0
    ≡ (if may_have_id one_call then some resp_request_too_large else none)
unfolding exceeds
handle_raw-oversize_example =
    handle_raw-oversize codec narrow world 0 frame one_call frame-IsBlankFrame one_call-IsObject
      refl

abbrev items : List Item
items = item empty ∷ item one_call ∷ item escaped ∷ []

items-IsItem : All IsItem items
items-IsItem = (
  item-IsItem empty empty-IsObject,
  (item-IsItem one_call one_call-IsObject, (item-IsItem escaped escaped-IsObject, tt)),
)

handle_raw-over_batch_limit_example :
    (handle_raw codec server world 0 (around frame (array [] (map padded items)))).0
    ≡ (if some_may_have_id items then some resp_batch_too_large else none)
unfolding exceeds apply_all apply new set_max_message_size golang_jsonrpc.Rpc.Config.update
    golang_jsonrpc.Rpc.Config.set_max_batch_size
handle_raw-over_batch_limit_example =
    handle_raw-over_batch_limit codec server world 0 frame (item empty)
      (item one_call ∷ item escaped ∷ []) frame-IsBlankFrame items-IsItem refl refl

-- An error whose data has no JSON.
abbrev broken : Response
broken = record {
  version = codes "2.0";
  result = none;
  error = some (record { code = internal_error_code; message = []; payload = some unencodable });
  id = some (codes "1");
}

batch_reply-repaired_example :
    ((batch_reply codec server (broken ∷ [])).0
      ≡ marshal_batch codec (map (repair codec server) (broken ∷ [])))
    × (marshal_batch codec (map (repair codec server) (broken ∷ [])) ≢ none)
batch_reply-repaired_example = batch_reply-repaired codec server broken []
