-- ===== src/Sse/Tests.antt =====
-- A request that names a channel and leaves a name empty, to a hub that runs.
use go_stream.Prelude.{
  ◌≡◌, refl, List, [], ◌∷◌, none, true, codes, Text, All, ℕ, nat_beq, if◌then◌else◌, ◌++◌,
}
use go_stream.Peer.{Peer, new_peer, peer_send, send_to, offer, receive, receive_from}
use go_stream.Wire.{Frame}
use go_stream.Config.{default_hub_config, normalize_hub_config}
use go_stream.Auth.{Request, AuthResult}
use go_stream.Hub.{World, new_hub_with_config}
use go_stream.Hub.Members.{can_subscribe_peer, is_denied, subscribe_peer, add_peer}
use go_stream.Sse.{
  serve, authenticated, with_request_peer, after_checks, check_channels, after_subscribing,
  subscribe_channels,
}
use go_stream.Sse.Stream.{
  newline, StreamCase, another_sends, ticks, drains, ends, stream_case, stream_loop, drained,
}
use go_stream.Sse.Stream.Read.{join, read_events, stream_loop-events}
use go_stream.Sse.Admission.{IsAdmitted, serve-admission}

abbrev live : World
live = record {
  hub = record (new_hub_with_config default_hub_config) { running = true };
  heap = λ p. new_peer (p ∷ []) (codes "ws");
  late_broadcasts = [];
  late_publishes = [];
  leaving = [];
  trace = [];
}

abbrev asks : Request
asks = record { authorization = []; query_token = [] }

abbrev channels : List Text
channels = codes "block" ∷ [] ∷ []

abbrev anyone : AuthResult
anyone = authenticated none asks

serve-admission_example :
    (anyone.valid ≡ true)
    × (live.running ≡ true)
    × All (IsAdmitted (with_request_peer live 1 (codes "u") anyone 3) 1) channels
unfolding serve after_checks check_channels after_subscribing subscribe_channels can_subscribe_peer
    subscribe_peer is_denied add_peer new_hub_with_config normalize_hub_config
serve-admission_example = serve-admission live none asks true channels 1 (codes "u") 3 refl

abbrev glue : ℕ → List Text → List Text
glue c [] = (c ∷ []) ∷ []
glue c (line ∷ lines) = (c ∷ line) ∷ lines

abbrev split_lines : Text → List Text
split_lines [] = [] ∷ []
split_lines (c ∷ text) =
    let rest = split_lines text in if nat_beq c newline then [] ∷ rest else glue c rest

abbrev two_lines : Frame
two_lines = codes "a" ++ newline ∷ codes "b"

abbrev listener : Peer
listener = new_peer (codes "u") (codes "sse")

abbrev happens : List StreamCase
happens = another_sends two_lines ∷ another_sends [] ∷ ticks ∷ drains ∷ ticks ∷ drains ∷ ends ∷ []

stream_loop-events_example :
    read_events (stream_loop split_lines listener happens) ≡ drained listener happens
unfolding join drained stream_case peer_send send_to offer receive receive_from
stream_loop-events_example = stream_loop-events split_lines listener happens (
  (
    record {
      first = codes "a";
      more = codes "b" ∷ [];
      parts_are = refl;
      joined = refl;
      no_newline = (refl, (refl, tt));
    },
    refl,
  ),
  (
    (
      record { first = []; more = []; parts_are = refl; joined = refl; no_newline = (refl, tt) },
      refl,
    ),
    tt,
  ),
)
