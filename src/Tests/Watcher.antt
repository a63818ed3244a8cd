-- ===== src/Tests/Watcher.antt =====
-- Runs and uses of the theorems on the notification watcher.
use herdr_agent_watcher.Prelude.{String, ◌≡◌, refl, Option, none, [], ◌∷◌, false, true, arith}
use herdr_agent_watcher.Prelude.StrSet
use herdr_agent_watcher.Agent.Notification.{
  NotificationProvider, Registration, new_registration, remember_dedupe_key, Sources,
  register_source, remove_source,
}
use herdr_agent_watcher.Agent.Notification.Keys.{
  KeysMatch, remember-KeysMatch, remember_all, remember_window,
}
use herdr_agent_watcher.Agent.Notification.Watches.{
  Watches, register_source-Watches, remove_source-Watches,
}

abbrev codex_registration : Registration
codex_registration = new_registration "p1" 1 NotificationProvider.codex "/rollout" 0

codex_registration-KeysMatch : KeysMatch codex_registration
unfolding StrSet.contains
codex_registration-KeysMatch = record { same = λ k. refl; distinct = tt; few = omega arith }

remember-KeysMatch_example : KeysMatch (remember_dedupe_key codex_registration "turn:1").0
remember-KeysMatch_example =
    remember-KeysMatch codex_registration "turn:1" codex_registration-KeysMatch

accepted : (remember_dedupe_key codex_registration "turn:1").1 ≡ true
unfolding remember_dedupe_key StrSet.contains
accepted = refl

remember_window_example :
    (remember_dedupe_key
      (remember_all (remember_dedupe_key codex_registration "turn:1").0 ("turn:2" ∷ "turn:3" ∷ []))
      "turn:1").1
    ≡ false
remember_window_example =
    remember_window codex_registration "turn:1" ("turn:2" ∷ "turn:3" ∷ [])
      codex_registration-KeysMatch accepted (omega arith)

abbrev no_sources : Sources
no_sources = record {
  registrations = [];
  watched = [];
  stopped_total = 0;
  active_registrations = 0;
  active_by_provider = λ p. 0;
}

no_sources-Watches : Watches no_sources
unfolding StrSet.contains
no_sources-Watches = record { exact = λ path. refl; unique = tt }

abbrev never_fails : String → Option String
never_fails path = none

register_source-Watches_example :
    Watches (register_source never_fails no_sources codex_registration).0
register_source-Watches_example =
    register_source-Watches never_fails no_sources codex_registration no_sources-Watches

remove_source-Watches_example :
    Watches (remove_source (register_source never_fails no_sources codex_registration).0 "p1").0
remove_source-Watches_example =
    remove_source-Watches (register_source never_fails no_sources codex_registration).0 "p1"
      register_source-Watches_example
