-- ===== src/Redis/Alone.antt =====
-- The calls of `Start` and `Stop` on one bridge of go/adapter/redis/redis.go, in any order.
use go_stream.Prelude.{
  ◌≡◌, refl, sym, ◌∙◌, ap, Bool, true, false, not, List, [], ◌∷◌, ◌++◌, none, some, ◌⊎◌, inl, inr,
  if_cases, true_ne_false, subst,
}
use go_stream.Peer.{Func}
use go_stream.Hub.{Hub}
use go_stream.Hub.Members.{Done}
use go_stream.Redis.Lifecycle.{
  Session, Made, at_rest, begin, connect_bridge, finish, stop_bridge, Starting, begun, connected,
  RedisAct, RedisStep, RedisReach, begins, is_refused, connects, finishes, stops, untouched,
  after_step,
}

-- The bridge holds the context, the subscription and the client of this call.
abbrev pub Holds : Made → Session → Type 0
Holds made session =
    (session.cancel ≡ some made.context)
    × (session.pubsub ≡ some made.subscription)
    × (session.client ≡ some made.connection)

abbrev pub HoldsNothing : Session → Type 0
HoldsNothing session = (session.cancel ≡ none) × (session.pubsub ≡ none) × (session.client ≡ none)

-- The bridge is at rest and no call of `Start` is under way, or it runs and exactly one is, whose context,
-- subscription and client it holds as soon as they have been stored.
abbrev pub IsAlone : Session → List Starting → Type 0
IsAlone session calls =
    ((session.running ≡ false) × HoldsNothing session × (calls ≡ []))
    ⊎ ((made : Made) × (session.running ≡ true)
        × (((calls ≡ begun made ∷ []) × HoldsNothing session)
            ⊎ ((calls ≡ connected made ∷ []) × Holds made session)))

abbrev made_by : Starting → Made
made_by (begun made) = made
made_by (connected made) = made

abbrev is_connected : Starting → Bool
is_connected (begun made) = false
is_connected (connected made) = true

abbrev tail_of : List Starting → List Starting
tail_of [] = []
tail_of (call ∷ calls) = calls

abbrev head_or : Starting → List Starting → Starting
head_or other [] = other
head_or other (call ∷ calls) = call

no_call : (front back : List Starting) (call : Starting) → ¬ ([] ≡ front ++ (call ∷ back))
no_call [] back call e = cc
no_call (x ∷ front) back call e = cc

-- A list of one call that has another at some place is the list of that call.
only_call :
    (front back : List Starting) (one call : Starting)
    → one ∷ [] ≡ front ++ (call ∷ back)
    → (front ≡ []) × (back ≡ []) × (one ≡ call)
only_call [] back one call e = (refl, sym (ap tail_of e), ap (head_or one) e)
only_call (x ∷ front) back one call e = absurd (no_call front back call (ap tail_of e))

begin_runs : (session : Session) → session.running ≡ true → begin session ≡ (session, false)
unfolding begin
begin_runs session r = rw r refl

begin_rests :
    (session : Session)
    → session.running ≡ false
    → begin session ≡ (record session { running = true }, true)
unfolding begin
begin_rests session r = rw r refl

begins-IsAlone :
    (session : Session) (calls : List Starting) (made : Made)
    → (begin session).1 ≡ true
    → IsAlone session calls
    → IsAlone ((begin session).0) (begun made ∷ calls)
begins-IsAlone session calls made e (inl (r, n, c)) =
    subst (λ (b : Session × Bool). IsAlone b.0 (begun made ∷ calls)) (sym (begin_rests session r))
      (inr (made, refl, inl (ap (◌∷◌ (begun made)) c, n)))
begins-IsAlone session calls made e (inr (m, r, phase)) =
    absurd (true_ne_false (sym e ∙ ap (λ (b : Session × Bool). b.1) (begin_runs session r)))

refused-IsAlone :
    (session : Session) (calls : List Starting)
    → (begin session).1 ≡ false
    → IsAlone session calls
    → IsAlone ((begin session).0) calls
refused-IsAlone session calls e (inl (r, n, c)) =
    absurd (true_ne_false (sym (ap (λ (b : Session × Bool). b.1) (begin_rests session r)) ∙ e))
refused-IsAlone session calls e (inr (m, r, phase)) =
    subst (λ (b : Session × Bool). IsAlone b.0 calls) (sym (begin_runs session r))
      (inr (m, r, phase))

connects-IsAlone :
    (session : Session) (calls front back : List Starting) (hub : Hub) (made : Made) (f g : Func)
    → calls ≡ front ++ (begun made ∷ back)
    → IsAlone session calls
    → IsAlone ((connect_bridge hub session made f g).1) (front ++ (connected made ∷ back))
unfolding connect_bridge
connects-IsAlone session calls front back hub made f g e (inl (r, n, c)) =
    absurd (no_call front back (begun made) (sym c ∙ e))
connects-IsAlone session calls front back hub made f g e (inr (m, r, inl (c, n))) =
    let (fe, be, same) = only_call front back (begun m) (begun made) (sym c ∙ e) in
    inr (
      made,
      r,
      inr (
        ap (λ xs. xs ++ (connected made ∷ back)) fe ∙ ap (◌∷◌ (connected made)) be,
        (refl, refl, refl),
      ),
    )
connects-IsAlone session calls front back hub made f g e (inr (m, r, inr (c, n))) =
    let (fe, be, same) = only_call front back (connected m) (begun made) (sym c ∙ e) in
    absurd (true_ne_false (ap is_connected same))

finishes-IsAlone :
    (session : Session) (calls front back : List Starting) (hub : Hub) (made : Made) (closed : Done)
    → calls ≡ front ++ (connected made ∷ back)
    → IsAlone session calls
    → IsAlone ((finish hub session made closed).1) (front ++ back)
unfolding finish
finishes-IsAlone session calls front back hub made closed e (inl (r, n, c)) =
    absurd (no_call front back (connected made) (sym c ∙ e))
finishes-IsAlone session calls front back hub made closed e (inr (m, r, inl (c, n))) =
    let (fe, be, same) = only_call front back (begun m) (connected made) (sym c ∙ e) in
    absurd (true_ne_false (sym (ap is_connected same)))
finishes-IsAlone session calls front back hub made closed e (inr (m, r, inr (c, n))) =
    let (fe, be, same) = only_call front back (connected m) (connected made) (sym c ∙ e) in
    inl (refl, (refl, refl, refl), ap (λ xs. xs ++ back) fe ∙ be)

stops-IsAlone :
    (session : Session) (calls : List Starting) (hub : Hub) (p c : Done)
    → IsAlone session calls
    → IsAlone ((stop_bridge hub session p c).1) calls
unfolding stop_bridge
stops-IsAlone session calls hub p c h =
    if_cases (λ (r : Hub × Session × List RedisAct × Done). IsAlone r.1 calls) (not session.running)
      (λ _. h) (λ _. h)

Step-IsAlone :
    {s t : Session} {xs ys : List Starting} → RedisStep s xs t ys → IsAlone s xs → IsAlone t ys
Step-IsAlone (begins made e) h = begins-IsAlone _ _ made e h
Step-IsAlone (is_refused e) h = refused-IsAlone _ _ e h
Step-IsAlone (connects front back hub made f g e) h =
    connects-IsAlone _ _ front back hub made f g e h
Step-IsAlone (finishes front back hub made closed e) h =
    finishes-IsAlone _ _ front back hub made closed e h
Step-IsAlone (stops hub p c) h = stops-IsAlone _ _ hub p c h

-- However the calls of `Start` and `Stop` on a new bridge interleave, it is at rest with no call of `Start`
-- under way, or it runs for exactly one: a call that comes while another is under way is turned away, even
-- after a `Stop`, and the context, the subscription and the client that the bridge holds are none, or all of
-- that one call.
pub at_rest-IsAlone :
    {session : Session} {calls : List Starting}
    → RedisReach at_rest session calls
    → IsAlone session calls
at_rest-IsAlone untouched = inl (refl, (refl, refl, refl), refl)
at_rest-IsAlone (after_step r s) = Step-IsAlone s (at_rest-IsAlone r)
