-- ===== src/Dispatch.antt =====
-- handler_confirmable.go, handler_notify.go and blockRetreive of send.go: how a message that is
-- neither a duplicate nor a part of a block transfer reaches a callback.
-- What the embedding program supplies is a parameter: the callbacks of routes and observations, and
-- the strings that the library makes of option values.
use coap.Base.{
  Bool, true, false, List, [], ◌∷◌, Option, none, some, ◌==◌, if◌then◌else◌, ltb, Result, ok, err,
  panic, stuck, ◌>>=◌, or_panic, expected_observation, expected_block2,
}
use coap.Options.{Bytes, Value, null, opt_observe}
use coap.Message.{
  Message, new_message, make_reply, make_reset, accept, path_string, option, is_request,
  type_confirmable, type_acknowledgement, type_non_confirmable,
}
use coap.Base.Int.{ℤ}
use coap.Block.{BlockMetadata, get_block2}
use coap.Cache.{BlockCache}
use coap.Pending.{Pending, handle_acknowledgement}
use coap.Route.{Routes, match_routes}
use coap.Observe.{Observation, ObserveMap, NotFound, Links, get_observe, retrieve}

-- The callbacks: of a route, which may return nil; of an observation, which returns nil for `true`
-- and an error for `false`; and for a token that is not found.
pub record Callbacks (C O : Type 0) : Type 0 where
  pub call : C → Message → Option Message
  pub notify : O → Message → Bool
  pub not_found : Option (NotFound O)

-- The server's tables without the one of message ids.
pub record Tables (C O : Type 0) : Type 0 where
  pub block_cache : BlockCache
  pub pending : Pending
  pub observations : ObserveMap O
  pub routes : Routes C

abbrev pub empty_ack : Message → Message
empty_ack req = record new_message { type = type_acknowledgement; message_id = req.message_id }

-- `== nil`
abbrev pub is_null : Value → Bool
is_null null = true
is_null _ = false

-- The path of `~keepalive`.
abbrev pub keepalive : Bytes
keepalive = b'~' ∷ b'k' ∷ b'e' ∷ b'e' ∷ b'p' ∷ b'a' ∷ b'l' ∷ b'i' ∷ b'v' ∷ b'e' ∷ []

module _ {C O : Type 0} (callbacks : Callbacks C O) where
  abbrev pub acknowledge : Tables C O → Message → Tables C O × Bool
  acknowledge t req =
      let (p, found) = handle_acknowledgement t.pending req in (record t { pending = p }, found)

  abbrev pub run_route : Message → Option C × Option (List (Bytes × Bytes)) → Option Message
  run_route req (none, vars) = some (make_reply req 132 [])
  run_route req (some c, vars) = callbacks.call c (record req { path_vars = vars })

  -- `handleConfirmable`; a nil response is `none` inside. What the callback of `~keepalive` returns
  -- is not used.
  unfoldable pub handle_confirmable : Tables C O → Message → Result (Tables C O × Option Message)
  handle_confirmable t req =
      if req.code == 0
      then ok (t, some (make_reset req 0))
      else if ltb 10 req.code
      then (let (t', found) = acknowledge t req in
          ok (t', some (make_reply req (if found then 0 else 132) [])))
      else (do
        path ← or_panic (path_string req)
        ok (t, run_route req (match_routes path t.routes req.path_vars)))

  abbrev pub notified : Message → Bool → Option Message
  notified req true = if req.type == type_confirmable then some (empty_ack req) else none
  notified req false = some (make_reset req req.code)

  -- A notification without an observation may be the response that a sender waits for.
  abbrev pub unobserved : Message → Tables C O × Bool → Tables C O × Option Message
  unobserved req (t, true) =
      (t, if req.type == type_confirmable then some (empty_ack req) else none)
  unobserved req (t, false) = (t, some (make_reset req req.code))

  abbrev pub notify_found :
      Tables C O → Message → ObserveMap O × Option (Observation O) → Tables C O × Option Message
  notify_found t req (m, none) = unobserved req (acknowledge (record t { observations = m }) req)
  notify_found t req (m, some o) =
      (record t { observations = m }, notified req (callbacks.notify o.callback req))

  -- `handleNotify`
  unfoldable pub handle_notify : Tables C O → Message → Tables C O × Option Message
  handle_notify t req = notify_found t req (get_observe callbacks.not_found t.observations req)

  -- The request with all of its payload, of which the type is changed in place.
  abbrev pub completed : Message → Tables C O × Result Bytes → Tables C O × Result Message
  completed req (t, ok payload) =
      (t, ok (record req { payload = payload; type = type_acknowledgement }))
  completed req (t, err e) = (t, err e)
  completed req (t, panic) = (t, panic)
  completed req (t, stuck) = (t, stuck)

  abbrev pub retrieve_for :
      Tables C O
      → Message
      → Links (Tables C O)
      → Bytes
      → BlockMetadata
      → Option ℤ
      → Tables C O × Result Message
  retrieve_for t req links path block2 none = (t, panic)
  retrieve_for t req links path block2 (some af) = completed req (
      retrieve (links.send_to req.meta.remote_addr) path af links.rounds 1 block2.size t
        req.payload)

  -- `blockRetreive`
  unfoldable pub block_retreive :
      Tables C O → Message → Links (Tables C O) → Tables C O × Result Message
  block_retreive t req links =
      let (m, found) = get_observe callbacks.not_found t.observations req in
      let t' = record t { observations = m } in
      elim found [
        | none ↦ (t', err expected_observation)
        | some o ↦ elim (get_block2 req) [
          | none ↦ (t', err expected_block2)
          | some block2 ↦ retrieve_for t' req links o.path block2 (accept req)
        ]
      ]

  abbrev pub non_confirmable : Option Message → Result (Option Message)
  non_confirmable none = panic
  non_confirmable (some rsp) = ok (
      some (
        if rsp.type == type_acknowledgement
        then record rsp { type = type_non_confirmable }
        else rsp))

  -- An acknowledged response: an empty acknowledgement goes back.
  abbrev pub respond_empty :
      Message → Option Message → Tables C O × Bool → Tables C O × Option Message
  respond_empty req rsp (t, false) = (t, rsp)
  respond_empty req rsp (t, true) =
      (t, some (record (make_reply req 0 []) { token = []; meta = new_message.meta }))

  -- The `switch` on the type. `rsp` is what the blocks before it have left in the variable.
  unfoldable pub dispatch :
      Tables C O → Message → Option Message → Result (Tables C O × Option Message)
  unfolding handle_confirmable handle_notify
  dispatch t req rsp =
      if req.type == type_confirmable
      then (if is_request req
          then handle_confirmable t req
          else if is_null (option req opt_observe)
          then ok (respond_empty req rsp (acknowledge t req))
          else ok (handle_notify t req))
      else if req.type == type_non_confirmable
      then (if is_request req
          then (do (t', r) ← handle_confirmable t req; r' ← non_confirmable r; ok (t', r'))
          else ok (handle_notify t req))
      else if req.type == type_acknowledgement
      then ok (handle_notify t req)
      else ok (t, some (make_reset req req.code))
