-- ===== src/Hub/Sending/Collect.antt =====
-- Whom a publish reaches: `collectChannelPeersLocked` lists each peer of the channel or of the
-- wildcard channel once, in the order of the identifiers.
use go_stream.Prelude.{
  ℕ, suc, ◌≡◌, refl, ◌∙◌, Bool, true, false, ◌||◌, List, [], ◌∷◌, Option, none, some, Text, arith,
  inl, inr, Bool-cases, nat_beq, nat_beq_iff, ltb, ◌==◌, text_eq, nat_eq, text_beq_iff,
  if◌then◌else◌,
}
use go_stream.Prelude.GoMap.{Map, keys, lookup, insert, Distinct, lookup-insert, insert-Distinct}
use go_stream.Prelude.GoMap.Nested.{inner, at}
use go_stream.Prelude.Sort.{insert_by, sort_by, IsSortedBy, sort_by-IsSortedBy}
use go_stream.Hub.{World, star}
use go_stream.Hub.Sending.{merge_keys, collect_channel_peers}

-- How often a pointer is listed.
abbrev pub count : ℕ → List ℕ → ℕ
count p [] = 0
count p (q ∷ qs) = if nat_beq q p then suc (count p qs) else count p qs

abbrev pub has : Option Bool → Bool
has none = false
has (some b) = true

-- The peer is subscribed to the channel, or to all channels.
unfoldable pub listens : World → Text → ℕ → Bool
listens w channel p = has (at channel p w.channels) || has (at star p w.channels)

module _ (key : ℕ → Text) where
  count-insert_by : (p a : ℕ) (xs : List ℕ) → count p (insert_by key a xs) ≡ count p (a ∷ xs)
  unfolding insert_by
  count-insert_by p a [] = refl
  count-insert_by p a (x ∷ xs) = ground (arith, count-insert_by p a xs)

  count-sort_by : (p : ℕ) (xs : List ℕ) → count p (sort_by key xs) ≡ count p xs
  unfolding sort_by
  count-sort_by p [] = refl
  count-sort_by p (x ∷ xs) =
      ground (arith, count-insert_by p x (sort_by key xs), count-sort_by p xs)

count-keys_none : (p : ℕ) (m : Map ℕ Bool) → lookup p m ≡ none → count p (keys m) ≡ 0
unfolding lookup
count-keys_none p [] h = refl
count-keys_none p ((q, b) ∷ m) h = ground (arith, count-keys_none p m)

count-keys :
    (p : ℕ) (m : Map ℕ Bool) → Distinct m → count p (keys m) ≡ (if has (lookup p m) then 1 else 0)
unfolding lookup
count-keys p [] d = refl
count-keys p ((q, b) ∷ m) d =
    ground (arith, nat_beq_iff q p, count-keys_none p m, count-keys p m d.1)

-- A key is listed exactly where the map has it, also without distinct keys.
listed-keys : (p : ℕ) (m : Map ℕ Bool) → ltb 0 (count p (keys m)) ≡ has (lookup p m)
unfolding lookup
listed-keys p [] = refl
listed-keys p ((q, b) ∷ m) = ground (arith, listed-keys p m)

merge_keys-Distinct : (peers : List ℕ) (m : Map ℕ Bool) → Distinct m → Distinct (merge_keys peers m)
unfolding merge_keys
merge_keys-Distinct [] m d = d
merge_keys-Distinct (q ∷ peers) m d =
    merge_keys-Distinct peers (insert q true m) (insert-Distinct q true m d)

lookup-merge_keys :
    (p : ℕ) (peers : List ℕ) (m : Map ℕ Bool)
    → has (lookup p (merge_keys peers m)) ≡ (ltb 0 (count p peers) || has (lookup p m))
unfolding merge_keys
lookup-merge_keys p [] m = refl
lookup-merge_keys p (q ∷ peers) m =
    ground (arith, lookup-merge_keys p peers (insert q true m), lookup-insert q p true m)

once_each :
    (key : ℕ → Text) (p : ℕ) (xs ys : Map ℕ Bool)
    → count p (sort_by key (keys (merge_keys (keys xs) (merge_keys (keys ys) []))))
      ≡ (if has (lookup p ys) || has (lookup p xs) then 1 else 0)
once_each key p xs ys =
    count-sort_by key p (keys combined)
    ∙ count-keys p combined combined-Distinct
    ∙ unfold lookup in
      ground (
        arith,
        lookup-merge_keys p (keys xs) (merge_keys (keys ys) []),
        lookup-merge_keys p (keys ys) [],
        listed-keys p xs,
        listed-keys p ys,
      )
  where
    combined : Map ℕ Bool
    combined = merge_keys (keys xs) (merge_keys (keys ys) [])

    combined-Distinct : Distinct combined
    combined-Distinct = merge_keys-Distinct (keys xs) _ (merge_keys-Distinct (keys ys) [] tt)

-- Whatever the channel, a publish addresses each peer that listens exactly once, also one subscribed
-- both to the channel and to the wildcard, and no other.
pub collect_channel_peers-count :
    (w : World) (channel : Text) (p : ℕ)
    → count p (collect_channel_peers w channel) ≡ (if listens w channel p then 1 else 0)
unfolding collect_channel_peers listens lookup merge_keys
collect_channel_peers-count w channel p = elim (Bool-cases (channel == star)) [
  | inl wild ↦
      rw (wild, (text_beq_iff channel star).0 wild)
        (once_each _ p (inner star w.channels) [] ∙ twice (has (at star p w.channels)))
  | inr named ↦ rw named (once_each _ p (inner star w.channels) (inner channel w.channels))
]
  where
    twice : (b : Bool) → ◌≡◌ {A = ℕ} (if b then 1 else 0) (if b || b then 1 else 0)
    twice true = refl
    twice false = refl

-- The peers are addressed in the order of their identifiers.
pub collect_channel_peers-IsSortedBy :
    (w : World) (channel : Text)
    → IsSortedBy (λ peer. (w.heap peer).id) (collect_channel_peers w channel)
unfolding collect_channel_peers
collect_channel_peers-IsSortedBy w channel = sort_by-IsSortedBy _ _
