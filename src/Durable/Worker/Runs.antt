-- ===== src/Durable/Worker/Runs.antt =====
-- What a turn of a worker, `run_once` of src/xyberos/durable/worker.py, reports.
use xyberos.Prelude.{ℕ, String, ◌≡◌, Bool, Option, none, some, subst}
use xyberos.Errors.{Result, ok, err}
use xyberos.Durable.Rows.{Journal}
use xyberos.Durable.Store.Writes.{Payloads}
use xyberos.Durable.Work.{World, Turn}
use xyberos.Durable.Work.Reached.{Moment, Post}
use xyberos.Durable.Recovery.{Python}
use xyberos.Durable.Worker.{WorkOutcome, Settings, run_once}
use xyberos.Durable.Worker.Reports.{reported, Reports, ReportsAny}
use xyberos.Durable.Worker.Reports.Turns.{run_once-Reports}

module _ {V : Type 0} (payloads : Payloads V) (blank : String → Bool) (lease_ttl : ℕ)
    (schedule : ℕ → Turn V) (python : Python V) (settings : Settings V) where
  told :
      (j : Journal) (o : WorkOutcome) (r : Result (Option WorkOutcome) × World)
      → Post payloads blank lease_ttl (ReportsAny payloads blank lease_ttl) j r
      → r.0 ≡ ok (some o)
      → Reports payloads blank lease_ttl o j r.1.journal
  told j o (ok none, w) p e = cc
  told j o (ok (some x), w) (reached, q) e =
      let same : x ≡ o = cc in subst (λ y. Reports payloads blank lease_ttl y j w.journal) same q
  told j o (err x, w) p e = cc

  -- What a turn reports is true: at some moment of the turn the execution had the status that the
  -- outcome stands for, which is completed, failed, cancelled, timed out, waiting where it was
  -- parked, retrying where a retry was scheduled, and pending where a step ran.
  pub run_once-Moment :
      (w : World) (o : WorkOutcome)
      → (run_once payloads blank lease_ttl schedule python settings w).0 ≡ ok (some o)
      → Moment payloads blank lease_ttl o.execution_id
          (reported o.action)
          w.journal
          (run_once payloads blank lease_ttl schedule python settings w).1.journal
  run_once-Moment w o e =
      told w.journal o (run_once payloads blank lease_ttl schedule python settings w)
        ((run_once-Reports payloads blank lease_ttl schedule python settings).at w) e
