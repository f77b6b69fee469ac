-- ===== src/Client/Retrieval.antt =====
-- send.go against handler.go: Send collects a response that comes in blocks.
use coap.Base.{
  ℕ, ◌+◌, ◌*◌, ◌^◌, ◌≤◌, ◌<◌, ◌≡◌, ◌≢◌, refl, ap₂, drop, ◌∙◌, List, [], ◌∷◌, Option, none, some,
  length, take, ok, arith,
}
use coap.Base.Maps.{string_key}
use coap.Options.{Bytes, Value, opt_block2}
use coap.Message.{Message, options, assert_strings, join, slash}
use coap.Block.Codec.{IsBlockSize}
use coap.Cache.Responses.{block_payload-take}
use coap.Route.{match_routes}
use coap.Dispatch.{Callbacks, Tables}
use coap.Transfer.{Config}
use coap.Handler.Answer.{requires_blockwise-small}
use coap.Client.{SendOptions, addressed, send_message}
use coap.Client.Fetch.{fetch_rest_complete}
use coap.Client.Server.{arrive, serve}
use coap.Client.Fetch.{send_message-fetch}
use coap.Client.Download

module _ {C O : Type 0} (to_string_array : List Value → List Bytes) (callbacks : Callbacks C O)
    (cfg : Config) (addr : Bytes) (sz code : ℕ) (paths queries : List Value) (parts : List Bytes)
    (strings : assert_strings paths ≡ some parts) (is_code : code ≢ 0) (request_code : code < 10)
    (format : IsBlockSize sz) where
  -- A confirmable request for the resource that carries no part of an upload.
  abbrev pub IsFor : Message → Type 0
  IsFor =
      Download.IsFor to_string_array callbacks cfg addr sz code paths queries parts strings is_code
        request_code format

  addressed_is_for :
      (so : SendOptions) (m : Message)
      → IsFor m
      → IsFor (addressed (serve to_string_array callbacks cfg addr) so addr m)
  unfolding options
  addressed_is_for so m h = h

  -- Send, of a confirmable request for a route of this server, from an address that is not empty,
  -- with a payload that fits into one block and without a limit on the message size. The callback
  -- answers it with a payload that is larger than the answer's block size, which is one of the
  -- format, and that has no more blocks than a block number can count. Then Send needs as many rounds
  -- as there are further blocks, and the response that it returns has all of the answer's payload.
  -- What the cache held before does not matter.
  pub send_message-downloaded :
      (rounds : ℕ) (so : SendOptions) (t : Tables C O) (m answer : Message) (a : ℕ) (others : Bytes)
      (cb : C) (vars : Option (List (Bytes × Bytes)))
      → addr ≡ a ∷ others
      → IsFor m
      → options m opt_block2 ≡ []
      → length m.payload ≤ so.block_size
      → match_routes (join slash parts) t.routes none ≡ (some cb, vars)
      → callbacks.call cb
          (record (arrive to_string_array callbacks cfg addr m) { path_vars = vars })
        ≡ some answer
      → answer.meta.max_message_size ≡ 0
      → answer.meta.block_size ≡ sz
      → 0 < sz
      → sz < length answer.payload
      → length answer.payload ≤ sz + rounds * sz
      → 1 + rounds ≤ 2 ^ 20
      → let so' = record so { max_message_size = 0 } in
        (t' : Tables C O) × (m' : Message) × (rsp : Message) × (send_message
            (serve to_string_array callbacks cfg addr)
            rounds
            so'
            addr
            t
            m
          ≡ (t', m', ok (some rsp)))
        × (rsp.payload ≡ answer.payload)
  unfolding arrive options
  send_message-downloaded rounds so t m answer a others cb vars ea hf e2 small em er hm es h0 lo hi
        hn =
      let peer = serve to_string_array callbacks cfg addr in
      let so' : SendOptions = record so { max_message_size = 0 } in
      let msg = addressed peer so' addr m in
      let (t1, first, sent, ep, eb, serves) =
        Download.serve-first to_string_array callbacks cfg addr sz code paths queries parts strings
          is_code request_code format t msg answer a others cb vars ea (addressed_is_for so' m hf)
          e2 em er hm es h0 lo in
      let one : sz ≡ 1 * sz = omega arith in
      let none_before : 0 * sz ≡ 0 = omega arith in
      let taken : first.payload ≡ take (1 * sz) answer.payload =
        ep
        ∙ block_payload-take answer.payload 0 sz
        ∙ ap₂ (λ (j k : ℕ). take j (drop k answer.payload)) one none_before in
      let (t2, m2, rsp, fetched, whole) =
        fetch_rest_complete peer sz answer.payload
          (Download.provider to_string_array callbacks cfg addr sz code paths queries parts strings
            is_code request_code format answer.payload)
          format rounds 1 t1
          (Download.further to_string_array callbacks cfg addr sz code paths queries parts strings
            is_code request_code format msg)
          first.payload serves
          (Download.IsFor-further to_string_array callbacks cfg addr sz code paths queries parts
            strings is_code request_code format msg (addressed_is_for so' m hf))
          taken (omega arith) (omega arith) hn in
      (
        t2,
        m2,
        rsp,
        send_message-fetch peer rounds so' addr t m sz
            (requires_blockwise-small to_string_array callbacks cfg msg refl small) sent eb fetched,
        whole,
      )
