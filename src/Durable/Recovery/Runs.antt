-- ===== src/Durable/Recovery/Runs.antt =====
-- A pass of `recover` in src/xyberos/durable/recovery.py: what it says that it decided is in the journal.
use xyberos.Prelude.{
  ℕ, String, ◌≡◌, Bool, true, false, Option, none, some, List, [], ◌∷◌, refl, sym, subst, string_eq,
  ◌==◌, if◌then◌else◌,
}
use xyberos.Errors.{Result, ok, err}
use xyberos.Table.{Table}
use xyberos.Durable.Models.{ActivityPolicy}
use xyberos.Durable.Rows.{Claim, Journal}
use xyberos.Durable.Definitions.{DefinitionLookup}
use xyberos.Durable.Store.Writes.{Payloads}
use xyberos.Durable.Store.Claims.{claim_next}
use xyberos.Durable.Store.Inspection.{expired_leases}
use xyberos.Durable.Work.{World, Turn, pure, ◌>>=◌, write, query}
use xyberos.Durable.Work.Reached.{Reached, Runs, Post, Moment-extend, Moment-last}
use xyberos.Durable.Work.Rules.{Runs-pure, Runs-bind, Runs-write, Runs-query}
use xyberos.Durable.Work.Calls.{claim_next-IsCall}
use xyberos.Durable.Recovery.{Python, Decision, take, examine, recover_each, recover}
use xyberos.Durable.Recovery.Decisions.{Decides, DecidesAll, examine-Runs}

module _ {V : Type 0} (payloads : Payloads V) (blank : String → Bool) (lease_ttl : ℕ)
    (schedule : ℕ → Turn V) (python : Python V)
    (activities : String → Option (ActivityPolicy V)) where
  module _ (lookup : DefinitionLookup V) (owner : String) (ttl : Option ℕ) where
    DecidesAll-extend :
        (t : Table String Decision) (j k l : Journal)
        → Reached payloads blank lease_ttl j k
        → DecidesAll payloads blank lease_ttl t k l
        → DecidesAll payloads blank lease_ttl t j l
    DecidesAll-extend [] j k l before u = tt
    DecidesAll-extend ((i, d) ∷ rest) j k l before (m, ms) =
        (Moment-extend j k l before m, DecidesAll-extend rest j k l before ms)

    claimed-Runs :
        (execution_id : String) (rest : List String) (claim : Claim) (same : Bool)
        → (claim.execution_id == execution_id) ≡ same
        → Runs payloads blank lease_ttl
            (DecidesAll payloads blank lease_ttl)
            (recover_each payloads blank lease_ttl schedule python activities lookup owner ttl rest)
        → Runs payloads blank lease_ttl (DecidesAll payloads blank lease_ttl) (
            if same
            then (examine payloads blank lease_ttl schedule python activities lookup claim
                >>= λ decision.
                    recover_each payloads blank lease_ttl schedule python activities lookup owner
                      ttl rest
                    >>= λ others. pure ((execution_id, decision) ∷ others))
            else pure [])
    claimed-Runs execution_id rest claim false e ih = Runs-pure [] (λ j. tt)
    claimed-Runs execution_id rest claim true e ih =
        Runs-bind
          (λ d all k l.
            (others : Table String Decision) × (all ≡ (execution_id, d) ∷ others)
            × DecidesAll payloads blank lease_ttl others k l)
          (examine payloads blank lease_ttl schedule python activities lookup claim) _
          (examine-Runs payloads blank lease_ttl schedule python activities lookup claim)
          (λ d.
            Runs-bind (λ others all k l. (all ≡ (execution_id, d) ∷ others) × (k ≡ l))
              (recover_each payloads blank lease_ttl schedule python activities lookup owner ttl
                rest)
              (λ others. pure ((execution_id, d) ∷ others)) ih
              (λ others. Runs-pure ((execution_id, d) ∷ others) (λ j. (refl, refl)))
              (λ others all j k l before decides onwards same.
                let (is, stays) = same in
                (
                  others,
                  is,
                  subst (λ (x : Journal). DecidesAll payloads blank lease_ttl others j x) stays
                      decides,
                )))
          (λ d all j k l before decides onwards later.
            let (others, is, rest_decides) = later in
            subst (λ (t : Table String Decision). DecidesAll payloads blank lease_ttl t j l)
              (sym is)
              (
                subst (λ (i : String). Decides payloads blank lease_ttl i d j l)
                    ((string_eq.beq_iff claim.execution_id execution_id).0 e)
                    (Moment-last j k l decides onwards),
                DecidesAll-extend others j k l before rest_decides,
              ))

    after_claim :
        (execution_id : String) (rest : List String) (claimed : Option Claim)
        → Runs payloads blank lease_ttl
            (DecidesAll payloads blank lease_ttl)
            (recover_each payloads blank lease_ttl schedule python activities lookup owner ttl rest)
        → Runs payloads blank lease_ttl (DecidesAll payloads blank lease_ttl) (elim claimed [
          | none ↦ pure []
          | some claim ↦
              if claim.execution_id == execution_id
              then (examine payloads blank lease_ttl schedule python activities lookup claim
                  >>= λ decision.
                      recover_each payloads blank lease_ttl schedule python activities lookup owner
                        ttl rest
                      >>= λ others. pure ((execution_id, decision) ∷ others))
              else pure []
        ])
    after_claim execution_id rest none ih = Runs-pure [] (λ j. tt)
    after_claim execution_id rest (some claim) ih =
        claimed-Runs execution_id rest claim (claim.execution_id == execution_id) refl ih

    recover_each-Runs :
        (expired : List String)
        → Runs payloads blank lease_ttl (DecidesAll payloads blank lease_ttl) (
            recover_each payloads blank lease_ttl schedule python activities lookup owner ttl
              expired)
    unfolding recover_each
    recover_each-Runs [] = Runs-pure [] (λ j. tt)
    recover_each-Runs (execution_id ∷ rest) =
        Runs-bind (λ claimed all k l. DecidesAll payloads blank lease_ttl all k l)
          (write payloads blank lease_ttl schedule
            (λ now later. claim_next blank lease_ttl owner ttl now))
          _
          (Runs-write schedule {P = λ a j k. Unit {0}}
            (λ now later. claim_next blank lease_ttl owner ttl now) (claim_next-IsCall owner ttl)
            (λ now later i j a k e r. tt))
          (λ claimed. after_claim execution_id rest claimed (recover_each-Runs rest))
          (λ claimed all j k l before u onwards decides. DecidesAll-extend all j k l before decides)

    recover-Runs :
        (limit : ℕ)
        → Runs payloads blank lease_ttl
            (DecidesAll payloads blank lease_ttl)
            (recover payloads blank lease_ttl schedule python activities lookup owner ttl limit)
    unfolding recover
    recover-Runs limit =
        Runs-bind (λ expired all k l. DecidesAll payloads blank lease_ttl all k l)
          (query payloads blank lease_ttl schedule (λ now j. ok (expired_leases now j))) _
          (Runs-query schedule {P = λ a j k. Unit {0}} (λ now j. ok (expired_leases now j))
            (λ now i j a r e. tt))
          (λ expired. recover_each-Runs (take limit expired))
          (λ expired all j k l before u onwards decides. DecidesAll-extend all j k l before decides)

    passed :
        (j : Journal) (r : Result (Table String Decision) × World)
        (decisions : Table String Decision)
        → Post payloads blank lease_ttl (DecidesAll payloads blank lease_ttl) j r
        → r.0 ≡ ok decisions
        → Reached payloads blank lease_ttl j r.1.journal
          × DecidesAll payloads blank lease_ttl decisions j r.1.journal
    passed j (ok t, w) decisions (reached, decides) e =
        let same : t ≡ decisions = cc in
        (
          reached,
          subst (λ (x : Table String Decision). DecidesAll payloads blank lease_ttl x j w.journal)
              same decides,
        )
    passed j (err x, w) decisions p e = cc

    -- A pass of recovery that returns has taken the journal only where a history of calls takes it,
    -- whatever others did meanwhile, and each decision that it returns was in the journal at some
    -- moment of the pass: a resumed execution was ready, a parked one waited for a decision, and
    -- the others were cancelled or had failed.
    pub recover-DecidesAll :
        (limit : ℕ) (w : World) (decisions : Table String Decision)
        → (recover payloads blank lease_ttl schedule python activities lookup owner ttl limit w).0
          ≡ ok decisions
        → Reached payloads blank lease_ttl w.journal
            (recover payloads blank lease_ttl schedule python activities lookup owner ttl limit
              w).1.journal
          × DecidesAll payloads blank lease_ttl decisions w.journal
              (recover payloads blank lease_ttl schedule python activities lookup owner ttl limit
                w).1.journal
    recover-DecidesAll limit w decisions e =
        passed w.journal
          (recover payloads blank lease_ttl schedule python activities lookup owner ttl limit w)
          decisions ((recover-Runs limit).at w) e
