-- ===== src/Send/Address.antt =====
-- extractProxyName of send.go: whether an address is one of a proxy.
use coap.Base.{ℕ, Bool, false, ◌||◌, [], ◌∷◌, Option, none, some, ◌==◌, if◌then◌else◌}
use coap.Options.{Bytes}

-- `strings.SplitN(s, sep, 2)` at a byte: the part before the first one, and the part behind it.
unfoldable pub split_two : ℕ → Bytes → Bytes × Option Bytes
split_two sep [] = ([], none)
split_two sep (c ∷ s) =
    let (before, behind) = split_two sep s in
    if c == sep then ([], some s) else (c ∷ before, behind)

-- `strings.Contains` of a byte.
unfoldable pub contains : ℕ → Bytes → Bool
contains c [] = false
contains c (d ∷ s) = (d == c) || contains c s

abbrev pub name_before : Bytes × Option Bytes → Bytes
name_before (before, none) = before
name_before (before, some _) = if contains b'.' before then [] else before

-- `extractProxyName`
unfoldable pub extract_proxy_name : Bytes → Bytes
unfolding split_two contains
extract_proxy_name addr = name_before (split_two b':' addr)
