-- ===== src/Plugins/Registry.antt =====
-- `PluginRegistry` of src/xyberos/plugins/registry.py. The hooks of the plugins are parameters; what a
-- `register` hook does to the registry, and the building of typed options, are not modelled.
pub mod Order
pub mod Running
pub mod Lifecycle
use xyberos.Prelude.{
  String, Bool, true, false, not, ◌&&◌, Option, none, some, List, [], ◌∷◌, ◌++◌, map, if◌then◌else◌,
  string_eq,
}
use xyberos.Execution.Models.{contains}

pub data PluginState : Type 0 where
  registered started stopped failed : PluginState

pub record Entry : Type 0 where
  pub name : String
  pub requires : List String
  pub state : PluginState

-- How a hook ends: it returns, raises an `Exception`, or raises another `BaseException`, such as a
-- cancellation.
pub data Ending : Type 0 where
  returns raises aborts : Ending

pub data Refusal : Type 0 where
  taken_name missing_requirement failed_hook : Refusal

pub data Addition : Type 0 where
  added : List Entry → Addition
  refused : Refusal → Addition

abbrev pub names : List Entry → List String
names entries = map (λ e. e.name) entries

-- `missing` of `_ensure_requirements_registered` is empty.
unfoldable pub all_registered : List String → List String → Bool
all_registered [] known = true
all_registered (required ∷ rest) known = contains required known && all_registered rest known

abbrev registered_as : Ending → List Entry → Entry → Addition
registered_as Ending.returns entries entry = added (entries ++ entry ∷ [])
registered_as Ending.raises entries entry = refused Refusal.failed_hook
registered_as Ending.aborts entries entry = refused Refusal.failed_hook

-- `add`, of a plugin whose metadata is valid; `hook` is how its `register` ends.
unfoldable pub add : String → List String → Ending → List Entry → Addition
unfolding all_registered
add name requires hook entries =
    if contains name (names entries)
    then refused Refusal.taken_name
    else if not (all_registered requires (names entries))
    then refused Refusal.missing_requirement
    else registered_as hook entries
        (record { name = name; requires = requires; state = PluginState.registered })

-- A call of a plugin's hook, in the order of the calls
pub data HookCall : Type 0 where
  starts stops : String → HookCall

abbrev pub is_started : PluginState → Bool
is_started PluginState.registered = false
is_started PluginState.started = true
is_started PluginState.stopped = false
is_started PluginState.failed = false

-- What `_stop_entries` leaves and returns, or raises
pub record Stopping : Type 0 where
  pub entries : List Entry
  pub calls : List HookCall
  pub failures : List String
  pub aborted : Bool

abbrev stop_one : Entry → List Entry → Ending → Stopping → Stopping
stop_one e es Ending.returns rest = record {
  entries = record e { state = PluginState.stopped } ∷ rest.entries;
  calls = HookCall.stops e.name ∷ rest.calls;
  failures = rest.failures;
  aborted = rest.aborted;
}
stop_one e es Ending.raises rest = record {
  entries = record e { state = PluginState.failed } ∷ rest.entries;
  calls = HookCall.stops e.name ∷ rest.calls;
  failures = e.name ∷ rest.failures;
  aborted = rest.aborted;
}
stop_one e es Ending.aborts rest = record {
  entries = record e { state = PluginState.failed } ∷ es;
  calls = HookCall.stops e.name ∷ [];
  failures = [];
  aborted = true;
}

-- What `start_all` leaves, and the plugin whose start hook raised
pub record Starting : Type 0 where
  pub entries : List Entry
  pub calls : List HookCall
  pub failed_plugin : Option String

-- `continue`, of an entry that is not started
abbrev pass_over : Entry → Stopping → Stopping
pass_over e rest = record rest { entries = e ∷ rest.entries }

-- `reversed(xs)`
unfoldable pub reversed : {A : Type 0} → List A → List A
reversed [] = []
reversed (x ∷ xs) = reversed xs ++ x ∷ []

module _ (start stop : String → Ending) where
  -- `_stop_entries`, over the entries in the order given
  unfoldable pub stop_entries : List Entry → Stopping
  stop_entries [] = record { entries = []; calls = []; failures = []; aborted = false }
  stop_entries (e ∷ es) =
      let rest = stop_entries es in
      if is_started e.state then stop_one e es (stop e.name) rest else pass_over e rest

  -- `stop_all`; the entries are given back in the order of the registry.
  unfoldable pub stop_all : List Entry → Stopping
  unfolding stop_entries reversed
  stop_all entries =
      let done = stop_entries (reversed entries) in record done { entries = reversed done.entries }

  -- The cleanup after the start hook of `e` raised
  abbrev pub clean_up : List Entry → Entry → List Entry → List HookCall → Starting
  clean_up running e es calls =
      let done = stop_entries (reversed running) in
      record {
        entries = reversed done.entries ++ e ∷ es;
        calls = calls ++ HookCall.starts e.name ∷ done.calls;
        failed_plugin = some e.name;
      }

  abbrev pub after_start : Ending → Starting → Starting → Starting
  after_start Ending.returns further cleaned = further
  after_start Ending.raises further cleaned = cleaned
  after_start Ending.aborts further cleaned = cleaned

  -- The loop of `start_all`: `running` is `started`, whose entries stand first in the registry.
  unfoldable pub start_loop : List Entry → List HookCall → List Entry → Starting
  unfolding stop_entries reversed
  start_loop running calls [] = record { entries = running; calls = calls; failed_plugin = none }
  start_loop running calls (e ∷ es) =
      after_start (start e.name)
        (start_loop (running ++ record e { state = PluginState.started } ∷ [])
          (calls ++ HookCall.starts e.name ∷ []) es)
        (clean_up running e es calls)

  unfoldable pub start_all : List Entry → Starting
  unfolding start_loop
  start_all entries = start_loop [] [] entries
