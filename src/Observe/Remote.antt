-- ===== src/Observe/Remote.antt =====
-- observe.go: Observe and ObserveCancel, which Send a request and keep the table of observations.
-- Send works on any state that has the table; the callback's first call, whose error is dropped, is
-- the caller's, with the response that is returned with the token.
use coap.Base.{
  ℕ, ◌≡◌, refl, ap, sym, ◌∙◌, Option, none, some, Result, ok, err, panic, stuck, if◌then◌else◌,
  true,
}
use coap.Base.Int.{ℤ, pos}
use coap.Base.Maps.{load, store, delete, string_key, load-store_self, load-delete_self}
use coap.Options.{Bytes, media, int, opt_observe, opt_accept, opt_content_format}
use coap.Message.{Message, new_message, with_option, with_path_string, is_no_media}
use coap.Client.{SendOptions, send_message}
use coap.Observe.{Sender}
use coap.Errors.{rsp_code_to_error}
use coap.Observe.{ObserveMap, Observation, NotFound, observe_register, observe_forget, get_observe}

abbrev accepted : ℤ → Message → Message
accepted encoding m =
    if is_no_media encoding then m else with_option m opt_accept (media encoding) true

abbrev carrying : ℤ → Option Bytes → Message → Message
carrying encoding none m = m
carrying encoding (some payload) m =
    record (with_option m opt_content_format (media encoding) true) { payload = payload }

-- The request of `Observe`; `none` is a nil payload.
unfoldable pub observe_request : ℕ → Bytes → Option Bytes → ℤ → Message
observe_request code path payload encoding =
    let m = with_option (record new_message { code = code }) opt_observe (int (pos 0)) true in
    carrying encoding payload (accepted encoding (with_path_string m path))

-- The request of `ObserveCancel`.
unfoldable pub cancel_request : Bytes → Bytes → Message
cancel_request path token =
    let m = with_option (record new_message { code = 1 }) opt_observe (int (pos 1)) true in
    record (with_path_string m path) { token = token }

-- The response, unless its code is an error's.
unfoldable pub check_response : Result (Option Message) → Result Message
check_response (ok none) = panic
check_response (ok (some rsp)) = elim (rsp_code_to_error rsp.code) [
  | none ↦ ok rsp
  | some e ↦ err e
]
check_response (err e) = err e
check_response panic = panic
check_response stuck = stuck

-- A state that has the table of observations.
pub record HasTable (S O : Type 0) : Type 0 where
  pub table : S → ObserveMap O
  pub set : S → ObserveMap O → S
  pub table-set : (s : S) (m : ObserveMap O) → table (set s m) ≡ m

module _ {S O : Type 0} (has : HasTable S O) (send : Sender S) where
  open has use {table, set}

  abbrev registered : Bytes → O → S × Message → Result Message → S × Result (Bytes × Message)
  registered path callback (s, req) (ok rsp) =
      (set s (observe_register (table s) req.token path callback), ok (req.token, rsp))
  registered path callback (s, req) (err e) = (s, err e)
  registered path callback (s, req) panic = (s, panic)
  registered path callback (s, req) stuck = (s, stuck)

  -- `Observe`
  unfoldable pub observe :
      ℕ → SendOptions → Bytes → ℕ → Bytes → Option Bytes → ℤ → O → S → S × Result (Bytes × Message)
  unfolding check_response
  observe fuel options addr code path payload encoding callback s =
      let (s', req, r) =
        send_message send fuel options addr s (observe_request code path payload encoding) in
      registered path callback (s', req) (check_response r)

  -- `ObserveCancel`
  unfoldable pub observe_cancel : ℕ → SendOptions → Bytes → Bytes → Bytes → S → S × Result Message
  unfolding check_response
  observe_cancel fuel options addr path token s =
      let forgotten = set s (observe_forget (table s) token) in
      let (s', _, r) = send_message send fuel options addr forgotten (cancel_request path token) in
      (s', check_response r)

  registered-loads :
      (path : Bytes) (callback : O) (s s' : S) (req : Message) (r : Result Message) (token : Bytes)
      (rsp : Message)
      → registered path callback (s, req) r ≡ (s', ok (token, rsp))
      → load token (table s') ≡ some (record { path = path; callback = callback })
  unfolding observe_register
  registered-loads path callback s s' req (ok rsp') token rsp e =
      let same_token : req.token ≡ token = cc in
      let same_state : set s (observe_register (table s) req.token path callback) ≡ s' = cc in
      let o : Observation O = record { path = path; callback = callback } in
      ap (load token) (ap table (sym same_state) ∙ has.table-set s (store req.token o (table s)))
      ∙ ap (λ k. load k (store req.token o (table s))) (sym same_token)
      ∙ load-store_self req.token o (table s)
  registered-loads path callback s s' req (err x) token rsp e = cc
  registered-loads path callback s s' req panic token rsp e = cc
  registered-loads path callback s s' req stuck token rsp e = cc

  -- An Observe that returns a token has entered its callback: a message with this token finds it, and
  -- the callback for unknown tokens is not asked.
  pub observe-get_observe :
      (fuel : ℕ) (options : SendOptions) (addr : Bytes) (code : ℕ) (path : Bytes)
      (payload : Option Bytes) (encoding : ℤ) (callback : O) (s s' : S) (token : Bytes)
      (rsp msg : Message) (not_found : Option (NotFound O))
      → observe fuel options addr code path payload encoding callback s ≡ (s', ok (token, rsp))
      → msg.token ≡ token
      → get_observe not_found (table s') msg
        ≡ (table s', some (record { path = path; callback = callback }))
  unfolding observe get_observe
  observe-get_observe fuel options addr code path payload encoding callback s s' token rsp msg
        not_found e et =
      let sent =
        send_message send fuel options addr s (observe_request code path payload encoding) in
      let loads =
        registered-loads path callback sent.0 s' sent.1 (check_response sent.2) token rsp e in
      rw (et, loads, get_observe) refl

  -- Where Send leaves the table as it is: after an ObserveCancel, also one that fails, nothing is
  -- found for the token by a server without a callback for unknown tokens.
  pub observe_cancel-get_observe :
      (fuel : ℕ) (options : SendOptions) (addr path token : Bytes) (s : S) (msg : Message)
      → ((s1 : S) (m : Message) → table (send_message send fuel options addr s1 m).0 ≡ table s1)
      → msg.token ≡ token
      → let s' = (observe_cancel fuel options addr path token s).0 in
        get_observe none (table s') msg ≡ (table s', none)
  unfolding observe_cancel get_observe observe_forget
  observe_cancel-get_observe fuel options addr path token s msg keeps et =
      let forgotten = set s (delete token (table s)) in
      let m = cancel_request path token in
      let empty : load token (table (send_message send fuel options addr forgotten m).0) ≡ none =
        ap (load token) (keeps forgotten m ∙ has.table-set s (delete token (table s)))
        ∙ load-delete_self token (table s) in
      rw (et, empty, get_observe) refl
