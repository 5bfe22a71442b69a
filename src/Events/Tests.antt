-- ===== src/Events/Tests.antt =====
-- Listeners on a plug-in object: runs, and the theorems at it.
use toolbox.Base.{◌≡◌, refl, none, some, true, false}
use toolbox.Events.{
  function_handler, event_listener, is_handler, Plugin, new_plugin, open_set, add_event_listener,
  remove_event_listener, remove_handler, dispatched, clear_event_callback,
}
use toolbox.Events.Wired.{IsWired, open_set-IsWired}
use toolbox.Events.Listeners.{
  Changed, added, is_last, add_event_listener-Changed, remove_event_listener-Changed,
}

-- Type 7 has handler 1.
abbrev one_listener : Plugin
one_listener = open_set 7 (function_handler 1) new_plugin

new_plugin-IsWired : IsWired new_plugin
new_plugin-IsWired = record {
  in_use = (λ t s e. cc);
  own = (λ t t' s e e'. cc);
  called = (λ t s e. cc);
  full = (λ t s e. cc);
  silent = (λ t e. refl);
}

one_listener-IsWired : IsWired one_listener
one_listener-IsWired = open_set-IsWired 7 (function_handler 1) new_plugin new_plugin-IsWired refl

not_removed : remove_event_listener 7 (function_handler 1) one_listener ≡ none
unfolding remove_event_listener open_set clear_event_callback
not_removed = refl

add_event_listener-Changed_example :
    (is_handler (event_listener 2) ≡ false
      → add_event_listener 7 (event_listener 2) one_listener ≡ none)
    × (is_handler (event_listener 2) ≡ true
        → (p' : Plugin) × (add_event_listener 7 (event_listener 2) one_listener ≡ some p')
          × Changed 7 (added (event_listener 2) (dispatched 7 one_listener)) one_listener p')
add_event_listener-Changed_example =
    add_event_listener-Changed 7 (event_listener 2) one_listener one_listener-IsWired

remove_event_listener-Changed_example :
    (is_last (dispatched 7 one_listener) (function_handler 1) ≡ true
      → remove_event_listener 7 (function_handler 1) one_listener ≡ none)
    × (is_last (dispatched 7 one_listener) (function_handler 1) ≡ false
        → (p' : Plugin) × (remove_event_listener 7 (function_handler 1) one_listener ≡ some p')
          × Changed 7
              (remove_handler (dispatched 7 one_listener) (function_handler 1))
              one_listener
              p')
remove_event_listener-Changed_example =
    remove_event_listener-Changed 7 (function_handler 1) one_listener one_listener-IsWired
