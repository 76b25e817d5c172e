-- ===== src/Hub/Spec.antt =====
-- What go/hub.go promises of its peers and channels, without its queues, its heap, its handlers and the
-- order of its maps: who is a member, who is on which channel, and the four moves that change it.
pub mod Views
use go_stream.Prelude.{
  ℕ, ◌≡◌, refl, ◌∙◌, ap, Bool, true, false, not, ◌&&◌, ◌||◌, List, [], ◌∷◌, ◌++◌, Text, text_eq,
  nat_eq, ◌==◌, if◌then◌else◌,
}

pub record View : Type 0 where
  pub member : ℕ → Bool
  pub on : Text → ℕ → Bool

pub data Move : Type 0 where
  joins leaves : ℕ → Move
  subscribes unsubscribes : Text → ℕ → Move

abbrev without : View → ℕ → View
without view peer = record {
  member = λ p. not (peer == p) && view.member p;
  on = λ c p. not (peer == p) && view.on c p;
}

-- Only a member can leave; it leaves every channel with the hub.
abbrev pub apply : View → Move → View
apply view (joins peer) = record view { member = λ p. (peer == p) || view.member p }
apply view (leaves peer) = if view.member peer then without view peer else view
apply view (subscribes channel peer) = record view {
  on = λ c p. (channel == c && peer == p) || view.on c p;
}
apply view (unsubscribes channel peer) = record view {
  on = λ c p. not (channel == c && peer == p) && view.on c p;
}

abbrev pub apply_all : View → List Move → View
apply_all view [] = view
apply_all view (move ∷ moves) = apply_all (apply view move) moves

-- Nobody is a member or on a channel.
abbrev pub nobody : View
nobody = record { member = λ p. false; on = λ c p. false }

pub apply_all-append :
    (view : View) (xs ys : List Move) → apply_all view (xs ++ ys) ≡ apply_all (apply_all view xs) ys
apply_all-append view [] ys = refl
apply_all-append view (move ∷ xs) ys = apply_all-append (apply view move) xs ys
