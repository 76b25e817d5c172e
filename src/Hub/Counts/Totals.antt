-- ===== src/Hub/Counts/Totals.antt =====
-- `Stats().Channels` and `ChannelCount()` agree, on tables that are tidy.
use go_stream.Prelude.{
  ℕ, ◌+◌, ◌≡◌, refl, ap, ◌∙◌, Bool, false, not, [], ◌∷◌, Option, none, some, Text, arith, is_empty,
  length, ◌==◌, text_eq, nat_eq, text_beq_iff, nat_beq, inl, inr, Bool-cases,
}
use go_stream.Prelude.GoMap.{Map, lookup, insert, Distinct, lookup-insert, length-insert_new}
use go_stream.Prelude.GoMap.Nested.{inner, or_nil, Filled}
use go_stream.Peer.{Func}
use go_stream.Hub.{Hub, star}
use go_stream.Hub.Counts.{
  count_peers, count_handlers, stats, channel_count, peer_channels, handler_channels, is_some,
}
use go_stream.Hub.Counts.Agree.{
  IsTidy, lookup-count_peers, lookup-Filled, or_else, size_with, length_filled,
}

-- None of the channels of a table has a count yet.
abbrev Uncounted {ℓ} : {V : Type ℓ} → Map Text ℕ → Map Text V → Type 0
Uncounted counts [] = Unit
Uncounted counts ((c, x) ∷ rest) = (lookup c counts ≡ none) × Uncounted counts rest

Uncounted-nil {ℓ} : {V : Type ℓ} (m : Map Text V) → Uncounted [] m
unfolding lookup
Uncounted-nil [] = tt
Uncounted-nil ((c, x) ∷ m) = (refl, Uncounted-nil m)

insert-Uncounted {ℓ} :
    {V : Type ℓ} (channel : Text) (n : ℕ) (counts : Map Text ℕ) (m : Map Text V)
    → lookup channel m ≡ none
    → Uncounted counts m
    → Uncounted (insert channel n counts) m
unfolding lookup
insert-Uncounted channel n counts [] h u = tt
insert-Uncounted channel n counts ((c, x) ∷ m) h u = ground (
  arith,
  lookup-insert channel c n counts,
  text_beq_iff channel c,
  text_beq_iff c channel,
  insert-Uncounted channel n counts m,
)

length-count_peers :
    (handlers : Map Text (Map ℕ Func)) (channels : Map Text (Map ℕ Bool)) (counts : Map Text ℕ)
    → Distinct channels
    → Filled channels
    → Uncounted counts channels
    → length (count_peers handlers channels counts)
      ≡ length counts + peer_channels handlers channels
unfolding count_peers peer_channels
length-count_peers handlers [] counts d f u = omega arith
length-count_peers handlers ((channel, peers) ∷ rest) counts d f u =
    elim (Bool-cases (channel == star)) [
      | inl wild ↦ rw wild (length-count_peers handlers rest counts d.1 f.2 u.1 ∙ omega arith)
      | inr named ↦
          let n = length peers + length (inner channel handlers) in
          rw (named, counted)
            (length-count_peers handlers rest (insert channel n counts) d.1 f.2
                (insert-Uncounted channel n counts rest d.0 u.1)
              ∙ omega (arith, length-insert_new channel n counts u.0))
    ]
  where
    counted : nat_beq (length peers + length (inner channel handlers)) 0 ≡ false
    counted = ground (arith, length_filled peers f.0)

-- The channels with a count are those with peers, as far as the table of handlers goes.
abbrev Covers : Map Text (Map ℕ Bool) → Map Text ℕ → Map Text (Map ℕ Func) → Type 0
Covers channels counts [] = Unit
Covers channels counts ((c, x) ∷ rest) =
    ((c == star) ≡ false → is_some (lookup c counts) ≡ not (is_empty (inner c channels)))
    × Covers channels counts rest

insert-Covers :
    (channels : Map Text (Map ℕ Bool)) (channel : Text) (n : ℕ) (counts : Map Text ℕ)
    (m : Map Text (Map ℕ Func))
    → lookup channel m ≡ none
    → Covers channels counts m
    → Covers channels (insert channel n counts) m
unfolding lookup
insert-Covers channels channel n counts [] h u = tt
insert-Covers channels channel n counts ((c, x) ∷ m) h u = (
  λ named. ground (
    arith,
    lookup-insert channel c n counts,
    text_beq_iff channel c,
    text_beq_iff c channel,
    u.0 named,
  ),
  insert-Covers channels channel n counts m (ground arith) u.1,
)

length-count_handlers :
    (channels : Map Text (Map ℕ Bool)) (handlers : Map Text (Map ℕ Func)) (counts : Map Text ℕ)
    → Distinct handlers
    → Filled handlers
    → Covers channels counts handlers
    → length (count_handlers handlers counts) ≡ length counts + handler_channels channels handlers
unfolding count_handlers handler_channels
length-count_handlers channels [] counts d f u = omega arith
length-count_handlers channels ((channel, x) ∷ rest) counts d f u =
    elim (Bool-cases (channel == star)) [
      | inl wild ↦ rw wild (length-count_handlers channels rest counts d.1 f.2 u.1 ∙ omega arith)
      | inr named ↦ elim (Bool-cases (is_some (lookup channel counts))) [
        | inl old ↦
            rw (named, old, f.0, ← u.0 named, old)
              (length-count_handlers channels rest counts d.1 f.2 u.1 ∙ omega arith)
        | inr new ↦
            rw (named, new, f.0, ← u.0 named, new)
              (length-count_handlers channels rest (insert channel (length x) counts) d.1 f.2
                  (insert-Covers channels channel (length x) counts rest d.0 u.1)
                ∙ omega (arith, length-insert_new channel (length x) counts (absent new)))
      ]
    ]
  where
    absent : is_some (lookup channel counts) ≡ false → lookup channel counts ≡ none
    absent h = ground arith

counts-Covers :
    (handlers : Map Text (Map ℕ Func)) (channels : Map Text (Map ℕ Bool))
    (m : Map Text (Map ℕ Func))
    → Distinct channels
    → Filled channels
    → Covers channels (count_peers handlers channels []) m
counts-Covers handlers channels [] d f = tt
counts-Covers handlers channels ((c, x) ∷ m) d f = (
  λ named. rw (lookup-count_peers handlers channels [] c named d) (
      unfold inner lookup in
      settle (lookup c channels) (λ y e. lookup-Filled c channels {x = y} f e)),
  counts-Covers handlers channels m d f,
)
  where
    settle :
        (o : Option (Map ℕ Bool))
        → ((y : Map ℕ Bool) → o ≡ some y → is_empty y ≡ false)
        → is_some (or_else (size_with (length (inner c handlers)) o) none)
          ≡ not (is_empty (or_nil o))
    settle none h = refl
    settle (some y) h = rw (h y refl)

-- `Stats().Channels` is `ChannelCount()`.
pub stats-channel_count : (h : Hub) → IsTidy h → (stats h).channels ≡ channel_count h
unfolding stats channel_count
stats-channel_count h tidy =
    length-count_handlers h.channels h.channel_handlers _ tidy.handlers_distinct
      tidy.handlers_filled
      (counts-Covers h.channel_handlers h.channels h.channel_handlers tidy.channels_distinct
        tidy.channels_filled)
    ∙ ap (λ (n : ℕ). n + handler_channels h.channels h.channel_handlers)
        (length-count_peers h.channel_handlers h.channels [] tidy.channels_distinct
            tidy.channels_filled (Uncounted-nil h.channels)
          ∙ omega arith)
