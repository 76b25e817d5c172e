-- ===== src/Service/Lifecycle.antt =====
-- `OnStartup` and `OnShutdown` of go/service.go in any order and number.
use go_stream.Prelude.{
  ◌≡◌, refl, sym, subst, ◌∙◌, ap, Bool, true, false, ◌&&◌, List, [], ◌∷◌, ◌++◌, if◌then◌else◌,
}
use go_stream.Service.{
  Service, Effect, registers, runs_hub, cancels, Hook, startup, shutdown, new_service, on_startup,
  on_shutdown, register_actions, startup_effects, call_hooks, call_hook,
}

-- The effects but for the ends of contexts.
abbrev pub starts : List Effect → List Effect
starts [] = []
starts (registers name ∷ effects) = registers name ∷ starts effects
starts (runs_hub ∷ effects) = runs_hub ∷ starts effects
starts (cancels ∷ effects) = starts effects

abbrev pub starts_up : List Hook → Bool
starts_up [] = false
starts_up (startup ∷ hooks) = true
starts_up (shutdown ∷ hooks) = starts_up hooks

starts-append : (xs ys : List Effect) → starts (xs ++ ys) ≡ starts xs ++ starts ys
starts-append [] ys = refl
starts-append (registers name ∷ xs) ys = ap (◌∷◌ (registers name)) (starts-append xs ys)
starts-append (runs_hub ∷ xs) ys = ap (◌∷◌ runs_hub) (starts-append xs ys)
starts-append (cancels ∷ xs) ys = starts-append xs ys

startup_registered : (s : Service) → s.registered ≡ true → on_startup s ≡ (s, [])
unfolding on_startup
startup_registered s h = rw h refl

-- Once registered, a service starts nothing any more.
registered_starts :
    (hooks : List Hook) (s : Service) → s.registered ≡ true → starts ((call_hooks hooks s).1) ≡ []
unfolding call_hook on_startup on_shutdown
registered_starts [] s h = refl
registered_starts (startup ∷ hooks) s h =
    subst (λ (r : Service × List Effect). starts (r.1 ++ (call_hooks hooks r.0).1) ≡ [])
      (sym (startup_registered s h)) (registered_starts hooks s h)
registered_starts (shutdown ∷ hooks) s h =
    starts-append (if s.has_cancel then cancels ∷ [] else []) _
    ∙ rw (registered_starts hooks s h) (only s.has_cancel)
  where
    only : (b : Bool) → starts (if b then cancels ∷ [] else []) ++ [] ≡ []
    only true = refl
    only false = refl

-- Whatever the order and the number of the calls of `OnStartup` and `OnShutdown`, a new service with a
-- core registers its six actions and starts the loop of its hub exactly once if `OnStartup` is called at
-- all; a start after a shutdown starts nothing. Without a core it never does.
pub call_hooks-once :
    (hooks : List Hook) (has_core : Bool)
    → starts ((call_hooks hooks (new_service has_core)).1)
      ≡ (if has_core && starts_up hooks then startup_effects else [])
unfolding call_hook on_startup on_shutdown register_actions
call_hooks-once [] true = refl
call_hooks-once [] false = refl
call_hooks-once (startup ∷ hooks) true =
    starts-append startup_effects
      ((call_hooks hooks (record { has_core = true; registered = true; has_cancel = true })).1)
    ∙ rw
        (registered_starts hooks (record { has_core = true; registered = true; has_cancel = true })
          refl)
        refl
call_hooks-once (startup ∷ hooks) false =
    registered_starts hooks (record { has_core = false; registered = true; has_cancel = false })
      refl
call_hooks-once (shutdown ∷ hooks) has_core = call_hooks-once hooks has_core
