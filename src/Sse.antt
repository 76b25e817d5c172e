-- ===== src/Sse.antt =====
-- go/adapter/sse/sse.go: `serve` up to the streaming loop, and the end of a request. The hub is mounted;
-- the authenticator is an argument, and so is whether the response writer can flush. What is written to
-- the response is the status.
pub mod Admission
pub mod Stream
pub mod Tests
use go_stream.Prelude.{
  ℕ, Bool, true, false, not, List, [], ◌∷◌, Option, none, some, Text, codes, is_empty,
  if◌then◌else◌,
}
use go_stream.Errors.{Error, Result, ok, err}
use go_stream.Peer.{Peer, Func, new_peer}
use go_stream.Auth.{Request, AuthResult}
use go_stream.Hub.{World, update}
use go_stream.Hub.Members.{Done, add_peer, remove_peer, can_subscribe_peer, subscribe_peer}
use go_stream.Tcp.{claims_or}

pub data Status : Type 0 where
  unauthorised unsupported forbidden not_running not_added streaming : Status

-- The peer of a request.
abbrev request_peer : Text → AuthResult → Func → Peer
request_peer uuid result hook =
    let peer = new_peer uuid (codes "sse") in
    record peer {
      user_id = result.user_id;
      claims = claims_or result.claims peer.claims;
      close_hook = some hook;
    }

abbrev pub then_check : Done → Done → Done
then_check (ok _) further = further
then_check (err e) further = err e

-- The loop of `CanSubscribePeer` calls; an empty name is passed over.
pub check_channels : World → ℕ → List Text → Done
check_channels w peer [] = ok tt
check_channels w peer (channel ∷ channels) =
    let further = check_channels w peer channels in
    if is_empty channel
    then further
    else then_check (can_subscribe_peer w (some peer) channel) further

abbrev pub then_subscribe : World × Done → (World → World × Done) → World × Done
then_subscribe (w, ok _) further = further w
then_subscribe (w, err e) further = (w, err e)

-- The loop of `SubscribePeer` calls.
unfoldable pub subscribe_channels : World → ℕ → List Text → World × Done
subscribe_channels w peer [] = (w, ok tt)
subscribe_channels w peer (channel ∷ channels) =
    if is_empty channel
    then subscribe_channels w peer channels
    else then_subscribe (subscribe_peer w (some peer) channel)
        (λ u. subscribe_channels u peer channels)

abbrev added : World × Done → World × Status
added (w, ok _) = (w, streaming)
added (w, err e) = (w, not_added)

-- `AddPeer`, where the subscriptions have been made.
pub after_subscribing : ℕ → World × Done → World × Status
after_subscribing peer (w, err e) = (w, not_running)
after_subscribing peer (w, ok _) = added (add_peer w (some peer))

-- From the test of `Running` on, where the channels have been checked.
pub after_checks : World → ℕ → List Text → Done → World × Status
after_checks w peer channels (err e) = (w, forbidden)
after_checks w peer channels (ok _) =
    if not w.running
    then (w, not_running)
    else after_subscribing peer (subscribe_channels w peer channels)

abbrev pub authenticated : Option (Request → AuthResult) → Request → AuthResult
authenticated none request = record { valid = true; user_id = []; claims = none; error = none }
authenticated (some authenticate) request = authenticate request

abbrev pub with_request_peer : World → ℕ → Text → AuthResult → Func → World
with_request_peer w peer uuid result hook = record w {
  heap = update w.heap peer (request_peer uuid result hook);
}

-- `serve`: `peer` is the pointer and `uuid` the identifier that `NewPeer` makes, `hook` ends the stream.
pub serve :
    World
    → Option (Request → AuthResult)
    → Request
    → Bool
    → List Text
    → ℕ
    → Text
    → Func
    → World × Status
serve w authenticator request flushes channels peer uuid hook =
    let result = authenticated authenticator request in
    let made = with_request_peer w peer uuid result hook in
    if not result.valid
    then (w, unauthorised)
    else if not flushes
    then (w, unsupported)
    else after_checks made peer channels (check_channels made peer channels)
