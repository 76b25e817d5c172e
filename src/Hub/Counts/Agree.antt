-- ===== src/Hub/Counts/Agree.antt =====
-- `Stats` and `ChannelSubscriberCount` agree, on tables that are tidy.
use go_stream.Prelude.{
  ℕ, ◌+◌, ◌≡◌, ◌≢◌, refl, ◌∙◌, Bool, false, List, [], ◌∷◌, Option, none, some, Text, arith,
  is_empty, length, ◌==◌, text_eq, nat_eq, text_beq_iff, nat_beq, if◌then◌else◌,
}
use go_stream.Prelude.GoMap.{Map, lookup, Distinct, lookup-insert}
use go_stream.Prelude.GoMap.Nested.{inner, or_nil, Filled}
use go_stream.Peer.{Func}
use go_stream.Hub.{Hub, star}
use go_stream.Hub.Counts.{count_peers, count_handlers, stats, channel_subscriber_count}

-- Keys stand once, and no inner map is empty.
pub record IsTidy (h : Hub) : Type 0 where
  pub members_distinct : Distinct h.peers
  pub channels_distinct : Distinct h.channels
  pub channels_filled : Filled h.channels
  pub handlers_distinct : Distinct h.channel_handlers
  pub handlers_filled : Filled h.channel_handlers

abbrev pub or_else : Option ℕ → Option ℕ → Option ℕ
or_else none d = d
or_else (some n) d = some n

abbrev pub size_with : ℕ → Option (Map ℕ Bool) → Option ℕ
size_with n none = none
size_with n (some peers) = some (length peers + n)

abbrev size_of : Option (Map ℕ Func) → Option ℕ
size_of none = none
size_of (some handlers) = some (length handlers)

pub lookup-count_peers :
    (handlers : Map Text (Map ℕ Func)) (channels : Map Text (Map ℕ Bool)) (counts : Map Text ℕ)
    (c : Text)
    → (c == star) ≡ false
    → Distinct channels
    → lookup c (count_peers handlers channels counts)
      ≡ or_else (size_with (length (inner c handlers)) (lookup c channels)) (lookup c counts)
unfolding count_peers lookup
lookup-count_peers handlers [] counts c named d = refl
lookup-count_peers handlers ((channel, peers) ∷ rest) counts c named d =
    lookup-count_peers handlers rest _ c named d.1
    ∙ ground (
      arith,
      text_beq_iff channel c,
      text_beq_iff channel star,
      text_beq_iff c star,
      lookup-insert channel c (length peers + length (inner channel handlers)) counts,
    )

lookup-count_handlers :
    (handlers : Map Text (Map ℕ Func)) (counts : Map Text ℕ) (c : Text)
    → (c == star) ≡ false
    → Distinct handlers
    → lookup c (count_handlers handlers counts)
      ≡ or_else (lookup c counts) (size_of (lookup c handlers))
unfolding count_handlers lookup
lookup-count_handlers [] counts c named d = ground arith
lookup-count_handlers ((channel, x) ∷ rest) counts c named d =
    lookup-count_handlers rest _ c named d.1
    ∙ ground (
      arith,
      text_beq_iff channel c,
      text_beq_iff channel star,
      text_beq_iff c star,
      lookup-insert channel c (length x) counts,
    )

pub lookup-Filled {ℓ} :
    {V : Type ℓ} (c : Text) (m : Map Text (Map ℕ V)) {x : Map ℕ V}
    → Filled m
    → lookup c m ≡ some x
    → is_empty x ≡ false
unfolding lookup
lookup-Filled c [] f e = cc
lookup-Filled c ((d, y) ∷ m) {x} f e = ground (arith, lookup-Filled c m {x = x} f.2)

pub length_filled {ℓ} : {A : Type ℓ} (xs : List A) → is_empty xs ≡ false → length xs ≢ 0
length_filled [] h e = cc
length_filled (x ∷ xs) h e = ground arith

-- One channel's two inner maps, each absent or filled.
settle_counts :
    (o : Option (Map ℕ Bool)) (q : Option (Map ℕ Func))
    → ((x : Map ℕ Bool) → o ≡ some x → is_empty x ≡ false)
    → ((x : Map ℕ Func) → q ≡ some x → is_empty x ≡ false)
    → or_else (or_else (size_with (length (or_nil q)) o) none) (size_of q) ≡ (
        if nat_beq (length (or_nil o) + length (or_nil q)) 0
        then none
        else some (length (or_nil o) + length (or_nil q)))
settle_counts none none f g = refl
settle_counts none (some x) f g = ground (arith, length_filled x (g x refl))
settle_counts (some y) none f g = ground (arith, length_filled y (f y refl))
settle_counts (some y) (some x) f g = ground (arith, length_filled y (f y refl))

-- `Stats` has an entry for a named channel exactly where `ChannelSubscriberCount` is not 0, and then
-- the two give the same number.
pub stats-channel_subscriber_count :
    (h : Hub) (c : Text)
    → IsTidy h
    → c ≢ star
    → lookup c ((stats h).subscriber_count) ≡ (
        if nat_beq (channel_subscriber_count h c) 0
        then none
        else some (channel_subscriber_count h c))
unfolding stats channel_subscriber_count inner
stats-channel_subscriber_count h c tidy named =
    lookup-count_handlers h.channel_handlers _ c plain tidy.handlers_distinct
    ∙ rw (lookup-count_peers h.channel_handlers h.channels [] c plain tidy.channels_distinct) (
        unfold lookup in
        settle_counts (lookup c h.channels) (lookup c h.channel_handlers)
          (λ x e. lookup-Filled c h.channels {x = x} tidy.channels_filled e)
          (λ x e. lookup-Filled c h.channel_handlers {x = x} tidy.handlers_filled e))
  where
    plain : (c == star) ≡ false
    plain = ground (arith, text_beq_iff c star)
