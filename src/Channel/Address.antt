-- ===== src/Channel/Address.antt =====
-- websocketURL of channel.go, of a server URL that the configuration has accepted.
use robine_ci.Prelude.{◌≡◌, refl, true, false, Option, none, some, ◌⊎◌, inl, inr}
use robine_ci.Prelude.Bytes.{Bytes, codes, bytes_eq, bytes_eq_refl}
use robine_ci.Config.{Url, Config, validate}
use robine_ci.Config.Valid.{IsSecure, validate-IsValid}
use robine_ci.Channel.{SocketUrl, socket_of, socket_url, websocket_url}

-- Over TLS, or to the loopback interface.
abbrev pub IsProtected : SocketUrl → Type 0
IsProtected socket =
    (socket.scheme ≡ codes "wss")
    ⊎ ((socket.scheme ≡ codes "ws")
        × ((socket.server.hostname ≡ codes "localhost")
            ⊎ (socket.server.hostname ≡ codes "127.0.0.1")
            ⊎ (socket.server.hostname ≡ codes "::1")))

socket_url-IsProtected :
    (u : Url)
    → IsSecure u
    → (socket : SocketUrl) × (socket_url (some u) ≡ some socket) × IsProtected socket
unfolding socket_url socket_of
socket_url-IsProtected u (inl https) =
    let yes : bytes_eq u.scheme (codes "https") ≡ true = rw https (bytes_eq_refl (codes "https")) in
    (socket_of u (codes "wss"), rw yes refl, inl refl)
socket_url-IsProtected u (inr (http, loopback)) =
    let no : bytes_eq u.scheme (codes "https") ≡ false = rw http (unfold bytes_eq in refl) in
    let yes : bytes_eq u.scheme (codes "http") ≡ true = rw http (bytes_eq_refl (codes "http")) in
    (socket_of u (codes "ws"), rw (no, yes) refl, inr (refl, loopback))

-- With a valid configuration the channel has an address, which is reached over TLS or on the loopback
-- interface.
pub websocket_url-IsProtected :
    (parse_url : Bytes → Option Url) (variable : Bytes) (cfg : Config)
    → validate parse_url variable cfg ≡ none
    → (socket : SocketUrl) × (websocket_url parse_url cfg.server_url ≡ some socket)
      × IsProtected socket
unfolding websocket_url
websocket_url-IsProtected parse_url variable cfg e =
    let (u, parsed, _, secure) = (validate-IsValid parse_url variable cfg e).secure in
    rw parsed (socket_url-IsProtected u secure)
