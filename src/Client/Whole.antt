-- ===== src/Client/Whole.antt =====
-- send.go against handler.go: an upload from Send to a route's callback.
use coap.Base.{ℕ, ◌*◌, ◌^◌, ◌≤◌, ◌<◌, ◌≡◌, ◌≢◌, refl, List, Option, none, some, length, ok}
use coap.Base.Maps.{string_key}
use coap.Options.{Bytes, Value}
use coap.Message.{Message, options, assert_strings, join, slash}
use coap.Block.Codec.{IsBlockSize}
use coap.Route.{Routes, match_routes}
use coap.Dispatch.{Callbacks, Tables}
use coap.Transfer.{Config}
use coap.Transfer.Reply.{requires_blockwise-large}
use coap.Client.{SendOptions, addressed, send_message}
use coap.Observe.{Sender}
use coap.Client.Upload.{send_blocks_complete, send_message-upload}
use coap.Client.Server.{serve}
use coap.Client.Answered.{Served, collector}
use coap.Client.Stage

module _ {C O : Type 0} (to_string_array : List Value → List Bytes) (callbacks : Callbacks C O)
    (cfg : Config) (addr : Bytes) (sz code : ℕ) (paths queries : List Value) (parts : List Bytes)
    (strings : assert_strings paths ≡ some parts) (routes : Routes C) (cb : C)
    (vars : Option (List (Bytes × Bytes)))
    (found : match_routes (join slash parts) routes none ≡ (some cb, vars))
    (c : Served callbacks cb) (is_code : code ≢ 0) (request_code : code < 10)
    (format : IsBlockSize sz) where
  abbrev peer : Sender (Tables C O)
  peer = serve to_string_array callbacks cfg addr

  -- A confirmable request for this resource that asks for no block of the response.
  abbrev pub IsFor : Message → Type 0
  IsFor =
      Stage.IsFor to_string_array callbacks cfg addr sz code paths queries parts strings routes
        is_code request_code format

  addressed_is_for : (so : SendOptions) (m : Message) → IsFor m → IsFor (addressed peer so addr m)
  unfolding options
  addressed_is_for so m h = h

  -- Send, of a confirmable request for a route of this server with a payload that is larger than the
  -- block size of the options, which is one of the format, and without a limit on the message size.
  -- The blocks are no more than a block number can count, the request asks for no block of the
  -- response, and the callback always answers, within one message and without an option Block2. Then
  -- Send needs as many rounds as there are blocks and returns a response: it has the code and the
  -- payload of the callback's answer to a request with the whole payload and the variables of the
  -- route. What the cache held before does not matter.
  pub send_message-served :
      (rounds : ℕ) (so : SendOptions) (t : Tables C O) (m : Message)
      → t.routes ≡ routes
      → IsFor m
      → 0 < sz
      → sz < length m.payload
      → length m.payload ≤ rounds * sz
      → rounds ≤ 2 ^ 20
      → let so' = record so { block_size = sz; max_message_size = 0 } in
        (t' : Tables C O) × (m' : Message) × (rsp : Message) × (req : Message) × (send_message peer
            rounds so' addr t m
          ≡ (t', m', ok (some rsp)))
        × (req.payload ≡ m.payload)
        × (req.path_vars ≡ vars)
        × (rsp.code ≡ (c.result req).code)
        × (rsp.payload ≡ (c.result req).payload)
  send_message-served rounds so t m hr hf h0 lo hi hn =
      let so' : SendOptions = record so { block_size = sz; max_message_size = 0 } in
      let msg = addressed peer so' addr m in
      let (t', m', rsp, es, (req, ep, ev, ec, er, e2), hf') =
        send_blocks_complete peer sz
          (collector to_string_array callbacks cfg addr sz code paths queries parts strings routes
            cb vars found c is_code request_code format)
          m.payload format rounds t msg hr (addressed_is_for so' m hf) lo hi hn in
      let large = requires_blockwise-large to_string_array callbacks cfg msg refl h0 lo in
      (t', m', rsp, req, send_message-upload peer rounds so' addr t m large es e2, ep, ev, ec, er)
