-- ===== src/Plugins/Examples.antt =====
-- Three plugins, of which the last fails to start.
use xyberos.Prelude.{
  String, ◌≡◌, ◌≢◌, true, List, [], ◌∷◌, refl, string_eq, arith, if◌then◌else◌, ◌==◌, map,
}
use xyberos.Plugins.Registry.{
  PluginState, Entry, Ending, HookCall, add, all_registered, names, stop_all, start_all, reversed,
}
use xyberos.Plugins.Registry.Order.{IsInOrder, add-IsInOrder, no_plugins}
use xyberos.Plugins.Registry.Running.{none_started, running_names}
use xyberos.Plugins.Registry.Lifecycle.{Started, stop_all_stops, start_all-Started}

abbrev plugin : String → List String → Entry
plugin name requires = record { name = name; requires = requires; state = PluginState.registered }

abbrev three : List Entry
three = plugin "log" [] ∷ plugin "store" ("log" ∷ []) ∷ plugin "mail" ("log" ∷ "store" ∷ []) ∷ []

abbrev starts_but_mail : String → Ending
starts_but_mail name = if name == "mail" then Ending.raises else Ending.returns

abbrev fails_to_stop : String → Ending
fails_to_stop name = if name == "log" then Ending.raises else Ending.returns

abbrev running : Entry → Entry
running e = record e { state = PluginState.started }

never_aborts : (name : String) → fails_to_stop name ≢ Ending.aborts
never_aborts name h = ground (arith, h)

none-IsInOrder : IsInOrder []
none-IsInOrder = no_plugins

add-IsInOrder_example : IsInOrder (plugin "log" [] ∷ [])
unfolding add all_registered
add-IsInOrder_example =
    add-IsInOrder "log" [] Ending.returns [] (plugin "log" [] ∷ []) none-IsInOrder refl

start_all-Started_example :
    Started starts_but_mail
      (names three)
      (start_all starts_but_mail fails_to_stop three)
      (start_all starts_but_mail fails_to_stop three).failed_plugin
unfolding none_started
start_all-Started_example = start_all-Started starts_but_mail fails_to_stop never_aborts three refl

stop_all_stops_example :
    ((stop_all starts_but_mail fails_to_stop (map running three)).calls
      ≡ map (λ n. HookCall.stops n) (running_names (reversed (map running three))))
    × (none_started (stop_all starts_but_mail fails_to_stop (map running three)).entries ≡ true)
stop_all_stops_example =
    stop_all_stops starts_but_mail fails_to_stop never_aborts (map running three)
