-- ===== src/Client/Answered.antt =====
-- send.go against handler.go: the last block of an upload runs the route's callback, and its answer is
-- the response.
use coap.Observe.{no_links}
use coap.Base.{
  ℕ, suc, ◌^◌, ◌≤◌, ◌<◌, ◌≡◌, ◌≢◌, refl, ap₂, ◌∙◌, false, ◌++◌, List, Option, none, some, length,
  ok, arith,
}
use coap.Base.Maps.{store, string_key}
use coap.Options.{Bytes, Value}
use coap.Message.{Message, assert_strings, join, slash, with_option}
use coap.Block.{BlockMetadata, block_init, get_block1, get_block2, with_block1, with_block}
use coap.Block.Codec.{IsBlockSize, on_wire}
use coap.Block.Travel.{get_block-with_block, get_block2-none}
use coap.Cache.{touch}
use coap.Route.{Routes, match_routes}
use coap.Dispatch.{Callbacks, Tables}
use coap.Transfer.{Config}
use coap.Transfer.Upload.{collect_block1-last}
use coap.Handler.Answer.{sized, handle_new-answer}
use coap.Observe.{Sender}
use coap.Client.Peer.{Collector}
use coap.Client.Server.{
  code-with_block1, arrive, serve, serve-answer, path_string-arrive, get_block1-opts,
  get_block2-opts, get_block2-with_block1, get_block1-arrive, payload-arrive,
}
use coap.Client.Stage

-- A route's callback on the server: what it answers, always with a payload that its block size
-- holds, and without a block option of the response.
pub record Served {C O : Type 0} (callbacks : Callbacks C O) (cb : C) : Type 0 where
  pub result : Message → Message
  pub answers : (req : Message) → callbacks.call cb req ≡ some (result req)
  pub unlimited : (req : Message) → (result req).meta.max_message_size ≡ 0
  pub small : (req : Message) → length (result req).payload ≤ (result req).meta.block_size
  pub plain : (req : Message) → get_block2 (result req) ≡ none

module _ {C O : Type 0} (to_string_array : List Value → List Bytes) (callbacks : Callbacks C O)
    (cfg : Config) (addr : Bytes) (sz code : ℕ) (paths queries : List Value) (parts : List Bytes)
    (strings : assert_strings paths ≡ some parts) (routes : Routes C) (cb : C)
    (vars : Option (List (Bytes × Bytes)))
    (found : match_routes (join slash parts) routes none ≡ (some cb, vars))
    (c : Served callbacks cb) (is_code : code ≢ 0) (request_code : code < 10)
    (format : IsBlockSize sz) where
  abbrev peer : Sender (Tables C O)
  peer = serve to_string_array callbacks cfg addr

  abbrev IsFor : Message → Type 0
  IsFor =
      Stage.IsFor to_string_array callbacks cfg addr sz code paths queries parts strings routes
        is_code request_code format

  abbrev Has : Tables C O → ℕ → Bytes → Type 0
  Has =
      Stage.Has to_string_array callbacks cfg addr sz code paths queries parts strings routes
        is_code request_code format

  -- The response has the code and the payload of the callback's answer to a request with all of `b`
  -- and the variables of the route.
  abbrev pub Done : Tables C O → Bytes → Message → Type 0
  Done t b rsp =
      (req : Message) × (req.payload ≡ b)
      × (req.path_vars ≡ vars)
      × (rsp.code ≡ (c.result req).code)
      × (rsp.payload ≡ (c.result req).payload)
      × (get_block2 rsp ≡ none)

  pub take_last :
      (t : Tables C O) (m : Message) (n : ℕ) (b : Bytes)
      → suc n < 2 ^ 20
      → Has t n b
      → IsFor m
      → get_block1 m ≡ some (block_init (suc n) false sz)
      → (t' : Tables C O) × (m' : Message) × (rsp : Message) × (block1 : BlockMetadata) × (peer t m
          ≡ (t', m', ok (some rsp)))
        × (get_block1 rsp ≡ some block1)
        × IsFor m'
        × Done t' (b ++ m.payload) rsp
  unfolding arrive with_block1 with_block with_option block_init
  take_last t m n b hn (bce, el, en, ep, hr) ((et, ec, euri, eq), e2) eb =
      let hf : IsFor m = ((et, ec, euri, eq), e2) in
      let bm = block_init (suc n) false sz in
      let req = arrive to_string_array callbacks cfg addr m in
      let t1 = record t {
        block_cache =
            store
              (Stage.key to_string_array callbacks cfg addr sz code paths queries parts strings
                routes is_code request_code format)
              (touch cfg.clock bce) t.block_cache;
      } in
      let req1 = record req { payload = bce.rsp.payload ++ req.payload } in
      let seen = record (sized to_string_array callbacks cfg req1 bm) { path_vars = vars } in
      let r = c.result seen in
      let rsp = record (with_block1 r (some bm)) {
        meta = record (sized to_string_array callbacks cfg req1 bm).meta {
          received_at = cfg.clock.now;
        };
      } in
      let stage =
        collect_block1-last to_string_array callbacks cfg sz
          (Stage.key to_string_array callbacks cfg addr sz code paths queries parts strings routes
            is_code request_code format)
          t req bce (suc n) (omega arith)
          (Stage.IsPart-arrive to_string_array callbacks cfg addr sz code paths queries parts
            strings routes is_code request_code format m bm hf eb)
          el in
      let handled =
        handle_new-answer to_string_array callbacks cfg no_links t t1 req req1 r bm
          (join slash parts) cb vars (get_block1-arrive to_string_array callbacks cfg addr m ∙ eb)
          stage et (rw ec is_code) (rw ec request_code)
          (get_block2-none req1 (
            Stage.options-at_server to_string_array callbacks cfg addr sz code paths queries parts
              strings routes is_code request_code format m (bce.rsp.payload ++ req.payload)
            ∙ e2))
          (Stage.path_string-at_server to_string_array callbacks cfg addr sz code paths queries
              parts strings routes is_code request_code format m (bce.rsp.payload ++ req.payload)
            ∙ path_string-arrive to_string_array callbacks cfg addr code paths queries parts strings
                m (et, ec, euri, eq))
          (rw hr found) (c.answers seen) (c.unlimited seen) (c.small seen) in
      (
        t1,
        m,
        rsp,
        on_wire bm,
        serve-answer to_string_array callbacks cfg addr t t1 m rsp handled,
        get_block1-opts rsp (with_block1 r (some bm)) refl ∙ (get_block-with_block r (some bm)).0,
        hf,
        (
          seen,
          ap₂ (λ x y. x ++ y) ep (payload-arrive to_string_array callbacks cfg addr m),
          refl,
          code-with_block1 r (some bm),
          refl,
          get_block2-opts rsp (with_block1 r (some bm)) refl
              ∙ get_block2-with_block1 r (some bm)
              ∙ c.plain seen,
        ),
      )

  -- The server takes the parts of an upload and answers the last one with the callback's response.
  abbrev pub collector : Collector peer sz
  collector = record {
    IsFor = IsFor;
    Ready =
        Stage.Ready to_string_array callbacks cfg addr sz code paths queries parts strings routes
          is_code request_code format;
    Has = Has;
    Done = Done;
    part_is_for =
        Stage.IsFor-part to_string_array callbacks cfg addr sz code paths queries parts strings
          routes is_code request_code format;
    first =
        Stage.take_first to_string_array callbacks cfg addr sz code paths queries parts strings
          routes is_code request_code format;
    next =
        Stage.take_next to_string_array callbacks cfg addr sz code paths queries parts strings
          routes is_code request_code format;
    last = take_last;
  }
