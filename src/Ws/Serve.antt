-- ===== src/Ws/Serve.antt =====
-- jsonrpcws/handler.go, with the writer of jsonrpcws/push.go: `ServeHTTP` behind the handshake, as a
-- step relation. The messages that the connection will read are given; the goroutines, the writes that
-- fail, pushes and the end of the request's context are steps that interleave with the read loop.
pub mod Handled
use golang_jsonrpc.Prelude.{
  ℕ, zero, suc, ◌*◌, ◌<◌, ◌≡◌, Bool, true, false, List, [], ◌∷◌, ◌++◌, Option, none, some, Bytes, ℤ,
  pos, negsuc, if◌then◌else◌, length,
}

pub record WsServer : Type 0 where
  pub max_message_size : ℕ
  pub max_calls : ℕ
  pub write_timeout : ℕ
  pub origin_patterns : List Bytes

abbrev pub WsOption : Type 0
WsOption = WsServer → WsServer

-- A number that is not positive changes nothing.
abbrev if_positive : ℤ → ℕ → ℕ
if_positive (pos zero) d = d
if_positive (pos (suc n)) d = suc n
if_positive (negsuc n) d = d

abbrev pub ws_max_message_size : ℤ → WsOption
ws_max_message_size n h = record h { max_message_size = if_positive n h.max_message_size }

abbrev pub ws_max_concurrent_calls : ℤ → WsOption
ws_max_concurrent_calls n h = record h { max_calls = if_positive n h.max_calls }

abbrev pub ws_write_timeout : ℤ → WsOption
ws_write_timeout d h = record h { write_timeout = if_positive d h.write_timeout }

abbrev pub ws_origin_patterns : List Bytes → WsOption
ws_origin_patterns patterns h = record h { origin_patterns = h.origin_patterns ++ patterns }

ws_options : List WsOption → WsServer → WsServer
ws_options [] h = h
ws_options (opt ∷ opts) h = ws_options opts (opt h)

-- `Handler`
unfoldable pub ws_handler : List WsOption → WsServer
unfolding ws_options
ws_handler opts = ws_options opts (record {
  max_message_size = 1_048_576;
  max_calls = 16;
  write_timeout = 10 * 1_000_000_000;
  origin_patterns = [];
})

-- The read loop reads, holds a message until there is a slot, waits for the calls, or has returned.
pub data Pc : Type 0 where
  reading draining returned : Pc
  holding : Bytes → Pc

pub record WsConn : Type 0 where
  pub inbound : List Bytes
  pub in_flight : List Bytes
  -- the messages whose call has ended, in that order
  pub handled : List Bytes
  pub wire : List Bytes
  pub canceled : Bool

abbrev pub connected : List Bytes → WsConn
connected inbound = record {
  inbound = inbound;
  in_flight = [];
  handled = [];
  wire = [];
  canceled = false;
}

-- `connWriter.write`: a write that fails cancels the connection.
unfoldable pub ws_write : Bool → Bytes → WsConn → WsConn
ws_write true b c = record c { wire = c.wire ++ b ∷ [] }
ws_write false b c = record c { canceled = true }

-- Behind the call: a notification writes nothing.
unfoldable pub ws_respond : Bool → Option Bytes → WsConn → WsConn
unfolding ws_write
ws_respond written none c = c
ws_respond written (some []) c = c
ws_respond written (some (b ∷ resp)) c = ws_write written (b ∷ resp) c

unfoldable pub call_ended : Bytes → List Bytes → WsConn → WsConn
call_ended b rest c = record c { in_flight = rest; handled = c.handled ++ b ∷ [] }

-- `rpc` is the dispatcher.
module _ (h : WsServer) (rpc : Bytes → Option Bytes) where
  pub data Step : Pc → WsConn → Pc → WsConn → Type 0 where
    reads :
        (c : WsConn) (b : Bytes) (rest : List Bytes)
        → c.inbound ≡ b ∷ rest
        → Step reading c (holding b) (record c { inbound = rest })
    -- the peer closes, a message is too long, or the context has ended
    read_fails : (c : WsConn) → Step reading c draining (record c { canceled = true })
    spawns :
        (c : WsConn) (b : Bytes)
        → length c.in_flight < h.max_calls
        → Step (holding b) c reading (record c { in_flight = b ∷ c.in_flight })
    answers :
        (p : Pc) (c : WsConn) (xs : List Bytes) (b : Bytes) (ys : List Bytes) (written : Bool)
        → c.in_flight ≡ xs ++ b ∷ ys
        → Step p c p (call_ended b (xs ++ ys) (ws_respond written (rpc b) c))
    pushes : (p : Pc) (c : WsConn) (b : Bytes) (written : Bool) → Step p c p (ws_write written b c)
    cancels : (p : Pc) (c : WsConn) → Step p c p (record c { canceled = true })
    returns : (c : WsConn) → c.in_flight ≡ [] → Step draining c returned c

  pub data Run : Pc → WsConn → Pc → WsConn → Type 0 where
    here : (p : Pc) (c : WsConn) → Run p c p c
    next : {p q r : Pc} {c d e : WsConn} → Run p c q d → Step q d r e → Run p c r e
