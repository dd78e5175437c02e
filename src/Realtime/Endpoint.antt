-- ===== src/Realtime/Endpoint.antt =====
-- packages/core/realtime-js/src/lib/transformers.ts: httpEndpointURL. Parsing and printing a URL are
-- the runtime's; of a URL this keeps the members that are assigned.
use securesupabase_js.Prelude.{
  ℕ, ◌≡◌, refl, ◌&&◌, ◌||◌, ◌==◌, ◌+◌, leb, [], ◌∷◌, ◌++◌, map, if◌then◌else◌,
}
use securesupabase_js.Js.Text.{Str, codes, str_eq}

pub record Url : Type 0 where
  pub protocol : Str
  pub pathname : Str

-- The letters A to Z in lower case: the comparison of the flag `i` on ASCII.
abbrev lower : ℕ → ℕ
lower c = if leb b'A' c && leb c b'Z' then c + 32 else c

-- protocol.replace(/^ws/i, 'http')
unfoldable pub http_protocol : Str → Str
http_protocol (c ∷ d ∷ s) =
    if lower c == b'w' && lower d == b's' then codes "http" ++ s else c ∷ d ∷ s
http_protocol s = s

-- .replace(/\/+$/, '')
unfoldable pub strip_slashes : Str → Str
strip_slashes [] = []
strip_slashes (c ∷ s) = elim (strip_slashes s) [
  | [] ↦ if c == b'/' then [] else c ∷ []
  | d ∷ rest ↦ c ∷ d ∷ rest
]

-- .replace(/…$/i, '') for a suffix in lower case
unfoldable pub strip_suffix : Str → Str → Str
unfolding str_eq
strip_suffix suffix [] = []
strip_suffix suffix (c ∷ s) =
    let rest = strip_suffix suffix s in if str_eq (map lower (c ∷ s)) suffix then [] else c ∷ rest

unfoldable pub base_path : Str → Str
unfolding strip_slashes strip_suffix
base_path pathname = strip_suffix (codes "/websocket") (
    strip_suffix (codes "/socket")
      (strip_suffix (codes "/socket/websocket") (strip_slashes pathname)))

unfoldable pub http_endpoint : Url → Url
unfolding http_protocol base_path str_eq
http_endpoint url =
    let base : Str = base_path url.pathname in
    record {
      protocol = http_protocol url.protocol;
      pathname =
          if str_eq base [] || str_eq base (codes "/")
          then codes "/api/broadcast"
          else base ++ codes "/api/broadcast";
    }

strip_slashes-slash : (s : Str) → strip_slashes (s ++ b'/' ∷ []) ≡ strip_slashes s
unfolding strip_slashes
strip_slashes-slash [] = refl
strip_slashes-slash (c ∷ s) = rw (strip_slashes-slash s) refl

-- A slash at the end of the socket's path makes no difference to the endpoint.
http_endpoint-slash :
    (protocol pathname : Str)
    → http_endpoint (record { protocol = protocol; pathname = pathname ++ b'/' ∷ [] })
      ≡ http_endpoint (record { protocol = protocol; pathname = pathname })
unfolding http_endpoint base_path
http_endpoint-slash protocol pathname = rw (strip_slashes-slash pathname) refl

-- The paths that the socket uses lead to the same endpoint.
endpoints :
    (map
      (λ s. (http_endpoint (record { protocol = codes "wss:"; pathname = s })).pathname)
      (codes "/realtime/v1/websocket"
        ∷ codes "/realtime/v1/Socket/WebSocket/"
        ∷ codes "/realtime/v1"
        ∷ codes "/"
        ∷ []))
    ≡ codes "/realtime/v1/api/broadcast"
      ∷ codes "/realtime/v1/api/broadcast"
      ∷ codes "/realtime/v1/api/broadcast"
      ∷ codes "/api/broadcast"
      ∷ []
unfolding http_endpoint base_path strip_slashes strip_suffix str_eq
endpoints = refl
