-- ===== src/Tests/Sending.antt =====
-- send of send.go at concrete events.
use coap.Base.{
  ℕ, ◌≤◌, ◌≡◌, ◌++◌, refl, List, [], ◌∷◌, none, some, true, false, arith, replicate, ok, err,
  timeout, IsSafe, bytes_eq,
}
use coap.Base.Int.{pos, negsuc}
use coap.Base.Maps.{load, store, delete, string_key}
use coap.Options.{Bytes}
use coap.Message.{Message, new_message, no_meta, is_confirmable}
use coap.Nstart.{NstartMap, nstart_inc}
use coap.Pending.{Pending}
use coap.Send.{Event, received, elapsed, await, await_response, is_delayed, Network, Endpoint, send}
use coap.Send.Await.{await-le, await-delivered, await-acknowledged_late}
use coap.Send.Counted.{send-restores, send-uncounted}
use coap.Send.Total.{IsAnswered, wait_of, send-IsSafe}
use coap.Message.{is_request}
use coap.Send.Limit.{count_or_zero}

abbrev content : Message
content = record new_message { code = 69; message_id = 7 }

abbrev empty : Message
empty = record new_message { type = 2 }

abbrev after_two : List Event
after_two = elapsed (ok tt) ∷ elapsed (ok tt) ∷ received content ∷ []

await-le_example : (await true 4 after_two).1 ≤ 3
await-le_example = await-le true 3 after_two

content_answers : is_delayed true content ≡ false
unfolding is_delayed
content_answers = refl

await-delivered_example :
    await true 5 (replicate 2 (elapsed (ok tt)) ++ (received content ∷ [])) ≡ (ok content, 2)
await-delivered_example = await-delivered true 2 4 content [] (omega arith) content_answers

await-acknowledged_late_example :
    await true 3 (replicate 2 (elapsed (ok tt)) ++ (received empty ∷ (received content ∷ [])))
    ≡ (err timeout, 2)
await-acknowledged_late_example = await-acknowledged_late 2 empty (received content ∷ []) refl

-- Without retransmissions the empty acknowledgement of a request is returned as its response.
no_retransmits :
    await_response (negsuc 0) true (received empty ∷ received content ∷ []) ≡ (ok empty, 0)
unfolding await_response
no_retransmits = refl

abbrev host : Bytes
host = b'h' ∷ []

abbrev get : Message
get = record new_message { code = 1; meta = record no_meta { remote_addr = host } }

abbrev one_open : NstartMap
one_open = (host, pos 1) ∷ []

abbrev nothing_pending : Pending
nothing_pending = record {
  pending_map = [];
  pending_mid_map = [];
  pending_msg_id = 40;
  channels = [];
  next_entry = 0;
}

abbrev fresh_token : Bytes
fresh_token = 1 ∷ 2 ∷ []

get_confirmable : is_confirmable get ≡ true
unfolding is_confirmable
get_confirmable = refl

-- A network that loses everything, and a listener that takes every message.
abbrev lost : Network ℕ
lost = record {
  random_token = λ w. fresh_token;
  dtls_name = λ w addr. none;
  udp_name = λ w. none;
  written = λ e m. (e, ok tt, []);
}

abbrev endpoint : Endpoint ℕ
endpoint = record { nstart = one_open; pending = nothing_pending; world = 0 }

get_enters : nstart_inc one_open host (pos 2) ≡ some ((host, pos 2) ∷ [])
unfolding nstart_inc load store delete bytes_eq
get_enters = refl

send-restores_example :
    load host (send lost (pos 3) (pos 2) endpoint get).0.nstart
    ≡ some (count_or_zero (load host one_open))
send-restores_example =
    send-restores lost (pos 3) 1 endpoint get ((host, pos 2) ∷ []) get_confirmable get_enters
      (λ e m. refl)

-- A network that gives two timers and then the response.
abbrev slow : Network ℕ
slow = record {
  random_token = λ w. fresh_token;
  dtls_name = λ w addr. none;
  udp_name = λ w. none;
  written = λ e m. (e, ok tt, after_two);
}

send-IsSafe_example :
    IsSafe
      (IsAnswered (is_request get) (wait_of slow 2 (pos 2) endpoint ((host, pos 2) ∷ []) get))
      (send slow (pos 2) (pos 2) endpoint get).2
send-IsSafe_example =
    send-IsSafe slow 2 (pos 2) endpoint get ((host, pos 2) ∷ []) get_confirmable get_enters tt tt
      (tt, (tt, (tt, tt))) (omega arith)

one_open_count : load host one_open ≡ some (pos 1)
unfolding load bytes_eq
one_open_count = refl

send-uncounted_example : load host (send lost (pos 3) (pos 0) endpoint get).0.nstart ≡ some (pos 0)
send-uncounted_example =
    send-uncounted lost (pos 3) endpoint get 0 get_confirmable one_open_count (λ e m. refl)
