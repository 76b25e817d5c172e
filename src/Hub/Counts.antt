-- ===== src/Hub/Counts.antt =====
-- The statistics of go/hub.go: `Stats`, `PeerCount`, `ChannelCount`, `ChannelSubscriberCount`,
-- `AllPeers` and `AllChannels`; `HubStats` is in go/stats.go.
pub mod Agree
pub mod Totals
use go_stream.Prelude.{
  ℕ, ◌+◌, Bool, true, false, not, ◌&&◌, ◌||◌, List, [], ◌∷◌, Option, none, some, Text, is_empty,
  length, ◌==◌, text_eq, nat_eq, nat_beq, if◌then◌else◌,
}
use go_stream.Prelude.GoMap.{Map, insert, lookup, keys}
use go_stream.Prelude.GoMap.Nested.{inner}
use go_stream.Prelude.Sort.{sort_by, sort_texts}
use go_stream.Peer.{Func}
use go_stream.Hub.{Hub, World, star}

pub record HubStats : Type 0 where
  pub peers : ℕ
  pub channels : ℕ
  pub subscriber_count : Map Text ℕ

-- The first loop of `Stats`.
pub count_peers : Map Text (Map ℕ Func) → Map Text (Map ℕ Bool) → Map Text ℕ → Map Text ℕ
count_peers handlers [] counts = counts
count_peers handlers ((channel, peers) ∷ rest) counts = count_peers handlers rest (
    if channel == star
    then counts
    else insert channel (length peers + length (inner channel handlers)) counts)

abbrev pub is_some : Option ℕ → Bool
is_some none = false
is_some (some n) = true

-- The second loop of `Stats`.
pub count_handlers : Map Text (Map ℕ Func) → Map Text ℕ → Map Text ℕ
count_handlers [] counts = counts
count_handlers ((channel, handlers) ∷ rest) counts = count_handlers rest (
    if channel == star || is_some (lookup channel counts)
    then counts
    else insert channel (length handlers) counts)

abbrev subscriber_counts : Hub → Map Text ℕ
subscriber_counts hub =
    count_handlers hub.channel_handlers (count_peers hub.channel_handlers hub.channels [])

-- `Stats`.
pub stats : Hub → HubStats
stats hub = record {
  peers = length hub.peers;
  channels = length (subscriber_counts hub);
  subscriber_count = subscriber_counts hub;
}

-- `PeerCount`.
abbrev peer_count : Hub → ℕ
peer_count hub = length hub.peers

-- The two loops of `ChannelCount`.
pub peer_channels : Map Text (Map ℕ Func) → Map Text (Map ℕ Bool) → ℕ
peer_channels handlers [] = 0
peer_channels handlers ((channel, peers) ∷ rest) =
    (if channel == star || nat_beq (length peers + length (inner channel handlers)) 0 then 0 else 1)
    + peer_channels handlers rest

pub handler_channels : Map Text (Map ℕ Bool) → Map Text (Map ℕ Func) → ℕ
handler_channels channels [] = 0
handler_channels channels ((channel, handlers) ∷ rest) =
    (if channel == star || is_empty handlers || not (is_empty (inner channel channels))
      then 0
      else 1)
    + handler_channels channels rest

-- `ChannelCount`.
pub channel_count : Hub → ℕ
channel_count hub =
    peer_channels hub.channel_handlers hub.channels
    + handler_channels hub.channels hub.channel_handlers

-- `ChannelSubscriberCount`.
pub channel_subscriber_count : Hub → Text → ℕ
channel_subscriber_count hub channel =
    length (inner channel hub.channels) + length (inner channel hub.channel_handlers)

-- What the iterator of `AllPeers` yields.
abbrev all_peers : World → List ℕ
all_peers w = sort_by (λ peer. (w.heap peer).id) (keys w.peers)

-- The two loops of `AllChannels`.
abbrev collect_channels :
    Map Text (Map ℕ Func) → Map Text (Map ℕ Bool) → Map Text Bool → Map Text Bool
collect_channels handlers [] found = found
collect_channels handlers ((channel, peers) ∷ rest) found = collect_channels handlers rest (
    if channel == star || nat_beq (length peers + length (inner channel handlers)) 0
    then found
    else insert channel true found)

abbrev collect_handled : Map Text (Map ℕ Func) → Map Text Bool → Map Text Bool
collect_handled [] found = found
collect_handled ((channel, handlers) ∷ rest) found =
    collect_handled rest
      (if channel == star || is_empty handlers then found else insert channel true found)

-- What the iterator of `AllChannels` yields.
abbrev all_channels : Hub → List Text
all_channels hub = sort_texts (
    keys (
      collect_handled hub.channel_handlers (collect_channels hub.channel_handlers hub.channels [])))
