-- ===== src/Client/Server.antt =====
-- send.go against handler.go: the server of this package as the peer of Send.
-- The messages of one call are taken to the server as they are, with the metadata that the listener
-- gives them, each as a new message that is no duplicate; the reply comes back as it is.
use coap.Observe.{no_links}
use coap.Base.{
  ℕ, ◌≡◌, ◌≢◌, refl, ◌∙◌, Bool, true, ◌++◌, List, Option, none, some, length, Result, ok, err,
  panic, stuck, arith, Bool-cases, inl, inr, ◌==◌,
}
use coap.Base.Int.{pos}
use coap.Options.{
  Bytes, Value, octets, int, opt_uri_path, opt_uri_query, opt_block1, opt_block2, opt_size1,
}
use coap.Message.{
  Message, no_meta, option, options, path_string, path, option_strings, assert_strings, join, slash,
  with_size1, with_option, remove_option,
}
use coap.Message.Values.{options-with_option}
use coap.Block.Travel.{get_block-with_block}
use coap.Names.{code_name}
use coap.Block.{
  block_init, get_block, BlockMetadata, get_block1, get_block2, with_block1, with_block2,
  with_block, encode,
}
use coap.Cache.{get_block_key, query_string}
use coap.Dispatch.{Callbacks, Tables}
use coap.Transfer.{Config, replied, collect_block1}
use coap.Handler.{handle_new}
use coap.Client.{part}
use coap.Observe.{Sender}

options-with_option_other :
    (k j : ℕ) (m : Message) (v : Value) → k ≢ j → options (with_option m j v true) k ≡ options m k
options-with_option_other k j m v ne = options-with_option m k j v true ∙ ground arith

options_payload :
    (k : ℕ) (m : Message) (chunk : Bytes) → options (record m { payload = chunk }) k ≡ options m k
unfolding options
options_payload k m chunk = refl

-- A block or a size option leaves the options of other numbers as they are.
pub options-part :
    (k : ℕ) (m : Message) (whole chunk : Bytes) (more : Bool) (sz num : ℕ)
    → k ≢ opt_block1
    → k ≢ opt_size1
    → options (part m whole chunk more sz num) k ≡ options m k
unfolding part with_block1 with_block with_size1
options-part k m whole chunk more sz num nb ns =
    let m1 = record m { payload = chunk } in
    let coded = octets (encode (block_init num more sz)) in
    let m2 = with_option m1 opt_block1 coded true in
    let e1 = options-with_option_other k opt_block1 m1 coded nb ∙ options_payload k m chunk in
    elim (Bool-cases (num == 0)) [
      | inl z ↦ rw z (options-with_option_other k opt_size1 m2 (int (pos (length whole))) ns ∙ e1)
      | inr z ↦ rw z e1
    ]

pub type-part :
    (m : Message) (whole chunk : Bytes) (more : Bool) (sz num : ℕ)
    → (part m whole chunk more sz num).type ≡ m.type
unfolding part with_block1 with_block with_size1 with_option
type-part m whole chunk more sz num = ground arith

pub code-part :
    (m : Message) (whole chunk : Bytes) (more : Bool) (sz num : ℕ)
    → (part m whole chunk more sz num).code ≡ m.code
unfolding part with_block1 with_block with_size1 with_option
code-part m whole chunk more sz num = ground arith

pub code-with_block1 : (m : Message) (bm : Option BlockMetadata) → (with_block1 m bm).code ≡ m.code
unfolding with_block1 with_block with_option remove_option
code-with_block1 m none = refl
code-with_block1 m (some bm) = refl

pub get_block1-opts : (m n : Message) → m.opts ≡ n.opts → get_block1 m ≡ get_block1 n
unfolding get_block1 get_block option
get_block1-opts m n e = rw e refl

pub get_block2-opts : (m n : Message) → m.opts ≡ n.opts → get_block2 m ≡ get_block2 n
unfolding get_block2 get_block option
get_block2-opts m n e = rw e refl

pub get_block2-with_block1 :
    (m : Message) (bm : Option BlockMetadata) → get_block2 (with_block1 m bm) ≡ get_block2 m
get_block2-with_block1 m bm = let (_, _, kept, _) = get_block-with_block m bm in kept

pub options-with_block2 :
    (k : ℕ) (m : Message) (bm : BlockMetadata)
    → k ≢ opt_block2
    → options (with_block2 m (some bm)) k ≡ options m k
unfolding with_block2 with_block
options-with_block2 k m bm = options-with_option_other k opt_block2 m (octets (encode bm))

module _ {C O : Type 0} (to_string_array : List Value → List Bytes) (callbacks : Callbacks C O)
    (cfg : Config) (addr : Bytes) where
  unfoldable pub arrive : Message → Message
  arrive m = record m {
    path_vars = none;
    meta = record no_meta { remote_addr = addr; received_at = cfg.clock.now };
  }

  pub payload-arrive : (m : Message) → (arrive m).payload ≡ m.payload
  unfolding arrive
  payload-arrive m = refl

  pub get_block1-arrive : (m : Message) → get_block1 (arrive m) ≡ get_block1 m
  unfolding arrive
  get_block1-arrive m = get_block1-opts (arrive m) m refl

  pub get_block2-arrive : (m : Message) → get_block2 (arrive m) ≡ get_block2 m
  unfolding arrive
  get_block2-arrive m = get_block2-opts (arrive m) m refl

  pub options-arrive : (m : Message) (k : ℕ) → options (arrive m) k ≡ options m k
  unfolding arrive options
  options-arrive m k = refl

  code-arrive : (m : Message) → (arrive m).code ≡ m.code
  unfolding arrive
  code-arrive m = refl

  addr-arrive : (m : Message) → (arrive m).meta.remote_addr ≡ addr
  unfolding arrive
  addr-arrive m = refl

  abbrev replied_with :
      Tables C O
      → Message
      → Result (Tables C O × Option Message)
      → Tables C O × Message × Result (Option Message)
  replied_with t m (ok (t', rsp)) = (t', m, ok rsp)
  replied_with t m (err e) = (t, m, err e)
  replied_with t m panic = (t, m, panic)
  replied_with t m stuck = (t, m, stuck)

  -- What `send` gives against this server.
  unfoldable pub serve : Sender (Tables C O)
  unfolding handle_new
  serve t m = replied_with t m (handle_new to_string_array callbacks cfg no_links t (arrive m))

  pub serve-answer :
      (t t' : Tables C O) (m rsp : Message)
      → handle_new to_string_array callbacks cfg no_links t (arrive m) ≡ ok (t', some rsp)
      → serve t m ≡ (t', m, ok (some rsp))
  unfolding serve
  serve-answer t t' m rsp e = rw (e, serve) refl

  pub serve-replied :
      (t t' : Tables C O) (m rsp : Message)
      → collect_block1 to_string_array callbacks cfg t (arrive m) (get_block1 (arrive m))
        ≡ ok (replied t' (some rsp))
      → (rsp' : Message) × (serve t m ≡ (t', m, ok (some rsp')))
        × (rsp'.code ≡ rsp.code)
        × (rsp'.payload ≡ rsp.payload)
        × (rsp'.opts ≡ rsp.opts)
  unfolding serve handle_new
  serve-replied t t' m rsp e = (
    record rsp { meta = record (arrive m).meta { received_at = cfg.clock.now } },
    rw (e, handle_new) refl,
    refl,
    refl,
    refl,
  )

  module _ (code : ℕ) (paths queries : List Value) (parts : List Bytes)
      (strings : assert_strings paths ≡ some parts) where
    -- A confirmable request for this resource.
    abbrev pub IsAddressed : Message → Type 0
    IsAddressed m =
        (m.type ≡ 0)
        × (m.code ≡ code)
        × (options m opt_uri_path ≡ paths)
        × (options m opt_uri_query ≡ queries)

    abbrev pub resource_key : Bytes
    resource_key =
        addr ++ (code_name code ++ (join slash parts ++ join b'&' (to_string_array queries)))

    pub path_string-arrive :
        (m : Message) → IsAddressed m → path_string (arrive m) ≡ some (join slash parts)
    unfolding path_string path option_strings
    path_string-arrive m (et, ec, ep, eq) =
        rw (options-arrive m opt_uri_path ∙ ep, strings, path_string, path, option_strings) refl

    pub get_block_key-arrive :
        (m : Message) → IsAddressed m → get_block_key to_string_array (arrive m) ≡ some resource_key
    unfolding get_block_key query_string
    get_block_key-arrive m (et, ec, ep, eq) =
        rw
          (
            path_string-arrive m (et, ec, ep, eq),
            options-arrive m opt_uri_query ∙ eq,
            code-arrive m ∙ ec,
            addr-arrive m,
            get_block_key,
            query_string,
          )
          refl
