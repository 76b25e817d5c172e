-- ===== src/Ws/Admission.antt =====
-- Which requests `serveHTTP` of go/adapter/ws/ws.go lets change the hub.
use go_stream.Prelude.{
  ℕ, Bool, true, not, List, Option, Text, if_cases, All, ◌≡◌, ◌⊎◌, inl, inr, refl, arith,
}
use go_stream.Errors.{ok, err}
use go_stream.Wire.{Frame}
use go_stream.Peer.{Func}
use go_stream.Auth.{Request, AuthResult}
use go_stream.Hub.{World}
use go_stream.Hub.Members.{Done}
use go_stream.Message.{Message}
use go_stream.Sse.{check_channels, authenticated}
use go_stream.Sse.Admission.{IsAdmitted, check_channels-All}
use go_stream.Ws.{Adapter, Incoming, WsStatus, admit, with_ws_peer, serve_http}

module _ (encode : Message → Frame) (decode : Frame → Option Message) where
  -- The hub runs, the upgrade succeeds, and the peer may have each of the channels.
  abbrev IsLetIn : World → World → ℕ → List Text → Bool → Type 0
  IsLetIn w made peer channels upgrades =
      (w.running ≡ true) × (upgrades ≡ true) × All (IsAdmitted made peer) channels

  admit-IsLetIn :
      (w made : World) (peer : ℕ) (channels : List Text) (hook : Func) (upgrades deadline_ok : Bool)
      (reads : List Incoming) (checks : Done)
      → check_channels made peer channels ≡ checks
      → ((admit encode decode w made peer channels hook upgrades deadline_ok reads checks).0 ≡ w)
        ⊎ IsLetIn w made peer channels upgrades
  admit-IsLetIn w made peer channels hook upgrades deadline_ok reads (err e) k = inl refl
  admit-IsLetIn w made peer channels hook upgrades deadline_ok reads (ok tt) k =
      if_cases P (not w.running) (λ _. inl refl)
        (λ runs.
          if_cases P (not upgrades) (λ _. inl refl)
            (λ upgraded. inr (ground arith, ground arith, check_channels-All made peer channels k)))
    where
      P : World × WsStatus → Type 0
      P r = (r.0 ≡ w) ⊎ IsLetIn w made peer channels upgrades

  -- A request leaves the hub and its peers as they were, unless the adapter is mounted, the authenticator
  -- has accepted the request, the hub runs and admits the new peer to every channel that is asked for, and
  -- the connection is upgraded.
  pub serve_http-admission :
      (w : World) (adapter : Adapter) (request : Request) (channels : List Text) (peer : ℕ)
      (uuid : Text) (hook : Func) (upgrades deadline_ok : Bool) (reads : List Incoming)
      → let result = authenticated adapter.config.authenticator request in
        ((serve_http encode decode w adapter request channels peer uuid hook upgrades deadline_ok
            reads).0
          ≡ w)
        ⊎ ((adapter.mounted ≡ true)
            × (result.valid ≡ true)
            × (w.running ≡ true)
            × (upgrades ≡ true)
            × All (IsAdmitted (with_ws_peer w peer uuid result) peer) channels)
  unfolding serve_http
  serve_http-admission w adapter request channels peer uuid hook upgrades deadline_ok reads =
      if_cases P (not adapter.mounted) (λ _. inl refl)
        (λ m.
          if_cases P (not result.valid) (λ _. inl refl)
            (λ v.
              elim (admit-IsLetIn w made peer channels hook upgrades deadline_ok reads
                (check_channels made peer channels) refl) [
                  | inl kept ↦ inl kept
                  | inr let_in ↦ inr (ground arith, ground arith, let_in.0, let_in.1, let_in.2)
                ]))
    where
      result : AuthResult
      result = authenticated adapter.config.authenticator request

      made : World
      made = with_ws_peer w peer uuid result

      P : World × WsStatus × List Func → Type 0
      P r =
          (r.0 ≡ w)
          ⊎ ((adapter.mounted ≡ true)
              × (result.valid ≡ true)
              × (w.running ≡ true)
              × (upgrades ≡ true)
              × All (IsAdmitted made peer) channels)
