-- ===== src/Plugins/Registry/Lifecycle.antt =====
-- What `start_all` and `stop_all` of src/xyberos/plugins/registry.py do to the plugins.
use xyberos.Prelude.{
  String, ◌≡◌, ◌≢◌, Bool, true, false, Option, none, some, List, [], ◌∷◌, ◌++◌, arith, refl, ap,
  sym, ◌∙◌, subst, map, if◌then◌else◌, string_eq,
}
use xyberos.Plugins.Registry.{
  PluginState, Entry, Ending, HookCall, Stopping, Starting, is_started, stop_one, pass_over,
  reversed, stop_entries, stop_all, clean_up, after_start, start_loop, start_all, names,
}
use xyberos.Plugins.Registry.Running.{
  none_started, running_names, none_started-append, none_started-reversed, names-append,
  running_names-append, append_empty, running_names-reversed, starts-append, append_assoc,
}

-- The start hook of each of these plugins returned.
abbrev pub AllReturned : (String → Ending) → List String → Type 0
AllReturned start [] = Unit {0}
AllReturned start (n ∷ ns) = (start n ≡ Ending.returns) × AllReturned start ns

AllReturned-append :
    (start : String → Ending) (ns : List String) (k : String)
    → AllReturned start ns
    → start k ≡ Ending.returns
    → AllReturned start (ns ++ k ∷ [])
AllReturned-append start [] k h e = (e, tt)
AllReturned-append start (n ∷ ns) k (first, rest) e = (first, AllReturned-append start ns k rest e)

-- The start hook of `k` did not return, after those of the plugins before it did: these were
-- started, in their order, and then stopped in the reverse of it; the later ones were left alone,
-- and none is started.
pub record Cleaned (start : String → Ending) (all : List String) (k : String) (r : Starting)
    : Type 0 where
  pub before : List String
  pub after : List String
  pub stands : all ≡ before ++ k ∷ after
  pub returned : AllReturned start before
  pub failed : start k ≢ Ending.returns
  pub called :
      r.calls
      ≡ map (λ n. HookCall.starts n) before
        ++ HookCall.starts k ∷ map (λ n. HookCall.stops n) (reversed before)
  pub idle : none_started r.entries ≡ true

abbrev pub Started : (String → Ending) → List String → Starting → Option String → Type 0
Started start all r none =
    AllReturned start all
    × (r.calls ≡ map (λ n. HookCall.starts n) all)
    × (running_names r.entries ≡ all)
Started start all r (some k) = Cleaned start all k r

grown :
    (running : List Entry) (e : Entry)
    → running_names running ≡ names running
    → running_names (running ++ record e { state = PluginState.started } ∷ [])
      ≡ names (running ++ record e { state = PluginState.started } ∷ [])
unfolding running_names
grown running e h =
    running_names-append running (record e { state = PluginState.started } ∷ [])
    ∙ ap (λ l. l ++ e.name ∷ []) h
    ∙ sym (names-append running (record e { state = PluginState.started } ∷ []))

rest_idle : (e : Entry) (es : List Entry) → none_started (e ∷ es) ≡ true → none_started es ≡ true
unfolding none_started
rest_idle e es h = ground (arith, h)

module _ (start stop : String → Ending)
    (stops_end : (name : String) → stop name ≢ Ending.aborts) where
  -- Each started plugin's stop hook was called, in the order of the list, and none is started.
  pub record AllStopped (es : List Entry) (s : Stopping) : Type 0 where
    pub called : s.calls ≡ map (λ n. HookCall.stops n) (running_names es)
    pub idle : none_started s.entries ≡ true
    pub same : names s.entries ≡ names es
    pub ended : s.aborted ≡ false

  stopped-AllStopped :
      (e : Entry) (es : List Entry) (ending : Ending) (rest : Stopping) (was : Bool)
      → ending ≢ Ending.aborts
      → is_started e.state ≡ was
      → AllStopped es rest
      → AllStopped (e ∷ es) (if was then stop_one e es ending rest else pass_over e rest)
  unfolding running_names none_started
  stopped-AllStopped e es Ending.returns rest true ends was done = record {
    called = ground (arith, was, done.called);
    idle = ground (arith, done.idle);
    same = ap (λ l. e.name ∷ l) done.same;
    ended = done.ended;
  }
  stopped-AllStopped e es Ending.raises rest true ends was done = record {
    called = ground (arith, was, done.called);
    idle = ground (arith, done.idle);
    same = ap (λ l. e.name ∷ l) done.same;
    ended = done.ended;
  }
  stopped-AllStopped e es Ending.aborts rest true ends was done = absurd (ends refl)
  stopped-AllStopped e es ending rest false ends was done = record {
    called = ground (arith, was, done.called);
    idle = ground (arith, was, done.idle);
    same = ap (λ l. e.name ∷ l) done.same;
    ended = done.ended;
  }

  stop_entries-AllStopped : (es : List Entry) → AllStopped es (stop_entries start stop es)
  unfolding stop_entries running_names none_started
  stop_entries-AllStopped [] = record { called = refl; idle = refl; same = refl; ended = refl }
  stop_entries-AllStopped (e ∷ es) =
      stopped-AllStopped e es (stop e.name) (stop_entries start stop es) (is_started e.state)
        (stops_end e.name) refl (stop_entries-AllStopped es)

  -- Where no stop hook is cancelled, `stop_all` calls the stop hook of each started plugin, in the
  -- reverse of the order in which they stand, whichever of them fail, and leaves none started.
  pub stop_all_stops :
      (entries : List Entry)
      → ((stop_all start stop entries).calls
          ≡ map (λ n. HookCall.stops n) (running_names (reversed entries)))
        × (none_started (stop_all start stop entries).entries ≡ true)
  unfolding stop_all
  stop_all_stops entries =
      let done = stop_entries-AllStopped (reversed entries) in
      (
        done.called,
        none_started-reversed (stop_entries start stop (reversed entries)).entries ∙ done.idle,
      )

  clean_up-Cleaned :
      (running : List Entry) (e : Entry) (es : List Entry) (calls : List HookCall)
      → running_names running ≡ names running
      → calls ≡ map (λ n. HookCall.starts n) (names running)
      → none_started (e ∷ es) ≡ true
      → AllReturned start (names running)
      → start e.name ≢ Ending.returns
      → Cleaned start
          (names running ++ names (e ∷ es))
          e.name
          (clean_up start stop running e es calls)
  clean_up-Cleaned running e es calls all_run called idle returned failed =
      let done = stop_entries-AllStopped (reversed running) in
      record {
        before = names running;
        after = names es;
        stands = refl;
        returned = returned;
        failed = failed;
        called =
            ap
              (λ c.
                c ++ HookCall.starts e.name ∷ (stop_entries start stop (reversed running)).calls)
              called
            ∙ ap (λ c. map (λ n. HookCall.starts n) (names running) ++ HookCall.starts e.name ∷ c)
                (done.called
                  ∙ ap (λ l. map (λ n. HookCall.stops n) l)
                      (running_names-reversed running ∙ ap (λ l. reversed l) all_run));
        idle = ground (
          arith,
          none_started-append (reversed (stop_entries start stop (reversed running)).entries)
              (e ∷ es),
          none_started-reversed (stop_entries start stop (reversed running)).entries,
          done.idle,
          idle,
        );
      }

  after_start-Started :
      (all : List String) (ending : Ending) (further : Starting) (running : List Entry) (e : Entry)
      (es : List Entry) (calls : List HookCall)
      → (ending ≡ Ending.returns → Started start all further further.failed_plugin)
      → (ending ≢ Ending.returns
          → Cleaned start all e.name (clean_up start stop running e es calls))
      → Started start all
          (after_start start stop ending further (clean_up start stop running e es calls))
          (after_start start stop ending further
            (clean_up start stop running e es calls)).failed_plugin
  after_start-Started all Ending.returns further running e es calls h c = h refl
  after_start-Started all Ending.raises further running e es calls h c = c (λ x. cc)
  after_start-Started all Ending.aborts further running e es calls h c = c (λ x. cc)

  start_loop-Started :
      (running : List Entry) (calls : List HookCall) (es : List Entry)
      → running_names running ≡ names running
      → calls ≡ map (λ n. HookCall.starts n) (names running)
      → none_started es ≡ true
      → AllReturned start (names running)
      → Started start
          (names running ++ names es)
          (start_loop start stop running calls es)
          (start_loop start stop running calls es).failed_plugin
  unfolding start_loop
  start_loop-Started running calls [] all_run called idle returned =
      subst
        (λ (l : List String).
          AllReturned start l
          × (calls ≡ map (λ n. HookCall.starts n) l)
          × (running_names running ≡ l))
        (sym (append_empty (names running))) (returned, called, all_run)
  start_loop-Started running calls (e ∷ es) all_run called idle returned =
      let now = record e { state = PluginState.started } in
      let further =
        start_loop start stop (running ++ now ∷ []) (calls ++ HookCall.starts e.name ∷ []) es in
      after_start-Started (names running ++ names (e ∷ es)) (start e.name) further running e es
        calls
        (λ ended.
          subst (λ (l : List String). Started start l further further.failed_plugin)
            (ap (λ l. l ++ names es) (names-append running (now ∷ []))
              ∙ append_assoc (names running) e.name (names es))
            (start_loop-Started (running ++ now ∷ []) (calls ++ HookCall.starts e.name ∷ []) es
              (grown running e all_run)
              (ap (λ c. c ++ HookCall.starts e.name ∷ []) called
                ∙ sym (starts-append (names running) e.name)
                ∙ ap (λ l. map (λ n. HookCall.starts n) l) (sym (names-append running (now ∷ []))))
              (rest_idle e es idle)
              (subst (AllReturned start) (sym (names-append running (now ∷ [])))
                (AllReturned-append start (names running) e.name returned ended))))
        (λ failed. clean_up-Cleaned running e es calls all_run called idle returned failed)

  -- Where no stop hook is cancelled and none of the plugins was started, `start_all` either reports
  -- no failure, and then every start hook returned, each was called in the order in which the
  -- plugins stand, and all are started; or it reports the first plugin whose start hook did not
  -- return, and then it called the start hooks up to this one, and after them the stop hooks of the
  -- plugins before it in reverse, and none is started.
  pub start_all-Started :
      (entries : List Entry)
      → none_started entries ≡ true
      → Started start
          (names entries)
          (start_all start stop entries)
          (start_all start stop entries).failed_plugin
  unfolding start_all running_names
  start_all-Started entries idle = start_loop-Started [] [] entries refl refl idle tt
