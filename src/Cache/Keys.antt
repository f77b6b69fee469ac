-- ===== src/Cache/Keys.antt =====
-- getBlockKey of message.go: the parts of a key are joined with nothing between them.
use coap.Base.{◌≡◌, List, ◌++◌, some, append_assoc, arith}
use coap.Options.{Bytes, Value}
use coap.Message.{Message, path_string}
use coap.Cache.{query_string, get_block_key}

-- Two requests of one endpoint and method have the same key wherever path and query joined are the
-- same text: where the path ends and the query begins does not count.
pub get_block_key-collides :
    (to_string_array : List Value → List Bytes) (m n : Message) (p q r : Bytes)
    → m.meta.remote_addr ≡ n.meta.remote_addr
    → m.code ≡ n.code
    → path_string m ≡ some (p ++ q)
    → query_string to_string_array m ≡ r
    → path_string n ≡ some p
    → query_string to_string_array n ≡ q ++ r
    → get_block_key to_string_array m ≡ get_block_key to_string_array n
unfolding get_block_key
get_block_key-collides to_string_array m n p q r ea ec em eq en er =
    ground (arith, append_assoc p q r)
