-- ===== src/Handler/Calm.antt =====
-- handler_confirmable.go, handler_notify.go and the switch of handler.go: no message that was read from
-- a datagram makes them panic.
pub mod Stages
pub mod Reply
pub mod Whole
use coap.Base.{
  ℕ, ◌≡◌, refl, Bool, true, false, List, Option, none, some, ◌==◌, ltb, Result, ok, err, panic,
  stuck, or_panic, ◌>>=◌, NoPanic, >>=-NoPanic, if-NoPanic, if◌then◌else◌, Bool-cases, inl, inr,
}
use coap.Options.{Bytes, Value, null, opt_observe}
use coap.Message.{Message, make_reply, make_reset, is_request, option, path_string}
use coap.Message.Sendable.{IsSendable}
use coap.Message.Read.{IsRead, path_string-IsRead}
use coap.Cache.Sendable.{IsSendableCache}
use coap.Dedup.Sendable.{IsSendableReply}
use coap.Observe.{Observation, ObserveMap, get_observe}
use coap.Route.{match_routes}
use coap.Dispatch.{
  Callbacks, Tables, acknowledge, run_route, handle_confirmable, notified, unobserved, notify_found,
  handle_notify, non_confirmable, respond_empty, is_null, dispatch,
}

-- A route's callback gives a response, and one that can be written.
pub record Answers {C O : Type 0} (callbacks : Callbacks C O) : Type 0 where
  pub response : C → Message → Message
  pub responds : (c : C) (m : Message) → callbacks.call c m ≡ some (response c m)
  pub sendable : (c : C) (m : Message) → IsSendable (response c m)

abbrev pub Keeps : {C O : Type 0} → Tables C O → Type 0
Keeps t = IsSendableCache t.block_cache

abbrev pub IsCalmReply : {C O : Type 0} → Tables C O × Option Message → Type 0
IsCalmReply (t, rsp) = Keeps t × IsSendableReply rsp

module _ {C O : Type 0} (callbacks : Callbacks C O) (answers : Answers callbacks) where
  -- A response that is not nil.
  abbrev IsAnswered : Tables C O × Option Message → Type 0
  IsAnswered (t, none) = ⊥
  IsAnswered (t, some m) = Keeps t × IsSendable m

  run_route-IsAnswered :
      (t : Tables C O) (req : Message) (found : Option C × Option (List (Bytes × Bytes)))
      → Keeps t
      → IsAnswered (t, run_route callbacks req found)
  unfolding make_reply
  run_route-IsAnswered t req (none, vars) h = (h, tt)
  run_route-IsAnswered t req (some c, vars) h =
      let seen = record req { path_vars = vars } in
      rw (answers.responds c seen) (h, answers.sendable c seen)

  handle_confirmable-NoPanic :
      (t : Tables C O) (req : Message)
      → Keeps t
      → IsRead req
      → NoPanic IsAnswered (handle_confirmable callbacks t req)
  unfolding handle_confirmable make_reply
  handle_confirmable-NoPanic t req h hr = elim (Bool-cases (req.code == 0)) [
    | inl z ↦ rw z (h, tt)
    | inr z ↦ rw z (elim (Bool-cases (ltb 10 req.code)) [
      | inl y ↦ rw y (h, tt)
      | inr y ↦
          let (p, e) = path_string-IsRead req hr in
          rw y (rw e (run_route-IsAnswered t req (match_routes p t.routes req.path_vars) h))
    ])
  ]

  notified-IsSendable : (req : Message) (b : Bool) → IsSendableReply (notified callbacks req b)
  notified-IsSendable req true = elim (Bool-cases (req.type == 0)) [
    | inl z ↦ rw z tt
    | inr z ↦ rw z tt
  ]
  notified-IsSendable req false = tt

  unobserved-IsCalm :
      (req : Message) (t : Tables C O) (found : Bool)
      → Keeps t
      → IsCalmReply (unobserved callbacks req (t, found))
  unobserved-IsCalm req t true h = (h, notified-IsSendable req true)
  unobserved-IsCalm req t false h = (h, tt)

  notify_found-IsCalm :
      (t : Tables C O) (req : Message) (r : ObserveMap O × Option (Observation O))
      → Keeps t
      → IsCalmReply (notify_found callbacks t req r)
  notify_found-IsCalm t req (m, none) h =
      let (t', found) = acknowledge callbacks (record t { observations = m }) req in
      unobserved-IsCalm req t' found h
  notify_found-IsCalm t req (m, some o) h =
      (h, notified-IsSendable req (callbacks.notify o.callback req))

  handle_notify-IsCalm :
      (t : Tables C O) (req : Message) → Keeps t → IsCalmReply (handle_notify callbacks t req)
  unfolding handle_notify
  handle_notify-IsCalm t req h =
      notify_found-IsCalm t req (get_observe callbacks.not_found t.observations req) h

  respond_empty-IsCalm :
      (req : Message) (rsp : Option Message) (t : Tables C O) (found : Bool)
      → Keeps t
      → IsSendableReply rsp
      → IsCalmReply (respond_empty callbacks req rsp (t, found))
  unfolding make_reply
  respond_empty-IsCalm req rsp t true h hr = (h, tt)
  respond_empty-IsCalm req rsp t false h hr = (h, hr)

  answered-IsCalm : (r : Tables C O × Option Message) → IsAnswered r → IsCalmReply r
  answered-IsCalm (t, none) h = absurd h
  answered-IsCalm (t, some m) h = h

  weaken : (m : Result (Tables C O × Option Message)) → NoPanic IsAnswered m → NoPanic IsCalmReply m
  weaken (ok r) h = answered-IsCalm r h
  weaken (err e) h = tt
  weaken panic h = absurd h
  weaken stuck h = tt

  non_confirmable-IsCalm :
      (r : Tables C O × Option Message)
      → IsAnswered r
      → NoPanic IsCalmReply (non_confirmable callbacks r.1 >>= λ r'. ok (r.0, r'))
  non_confirmable-IsCalm (t, none) h = absurd h
  non_confirmable-IsCalm (t, some m) (h, hm) = elim (Bool-cases (m.type == 2)) [
    | inl z ↦ rw z (h, hm)
    | inr z ↦ rw z (h, hm)
  ]

  pub dispatch-NoPanic :
      (t : Tables C O) (req : Message) (rsp : Option Message)
      → Keeps t
      → IsRead req
      → IsSendableReply rsp
      → NoPanic IsCalmReply (dispatch callbacks t req rsp)
  unfolding dispatch
  dispatch-NoPanic t req rsp h hr hs =
      let answered = handle_confirmable-NoPanic t req h hr in
      let notified = handle_notify-IsCalm t req h in
      let (t', found) = acknowledge callbacks t req in
      if-NoPanic IsCalmReply (req.type == 0) _ _
        (if-NoPanic IsCalmReply (is_request req) _ _
          (weaken (handle_confirmable callbacks t req) answered)
          (if-NoPanic IsCalmReply (is_null (option req opt_observe)) _ _
            (respond_empty-IsCalm req rsp t' found h hs) notified))
        (if-NoPanic IsCalmReply (req.type == 1) _ _
          (if-NoPanic IsCalmReply (is_request req) _ _
            (>>=-NoPanic IsAnswered IsCalmReply (handle_confirmable callbacks t req) _ answered
              non_confirmable-IsCalm)
            notified)
          (if-NoPanic IsCalmReply (req.type == 2) _ _ notified (h, tt)))
