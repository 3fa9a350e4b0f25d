-- ===== src/Policy/Accepted.antt =====
-- What a policy that `validate_with_options` of src/policy.rs accepts satisfies, and what the three
-- loaders make of it.
use quinte.Prelude.{
  ◌≤◌, String, ◌≡◌, ap, subst, ◌∙◌, contains, bail_if, ◌>>◌, not, ◌==◌, Bool, true, false, List, [],
  ◌∷◌, map, ok, arith, length, All, Distinct, >>-ok, >>=-ok, ◌↔◌,
}
use quinte.Model.Routes.{Policy, timeout_for_phase}
use quinte.Policy.Checks.{
  Resolver, no_counterpart, no_primary, not_five_parties, legacy_not_runnable, manual_arbiter,
}
use quinte.Policy.Validate.{
  check_roster, check_arbiter, check_attempts, check_rate, check_limits, validate_with_options,
  validate, expected_parties,
}
use quinte.Policy.Distinct.{
  OnSeat, latest_first, schools_latest_first, DistinctCodes, check_roster-RosterFacts,
  RosterFacts-Distinct, RosterFacts-DistinctCodes, RosterFacts-OnSeat, RosterFacts-names,
  check_arbiter-facts,
}
use quinte.Policy.Load.{CompatiblePolicy, read_compatible, load_for_runtime, load_for_observation}

-- The ids of the seven routes, the latest first.
abbrev pub all_route_ids : Policy → List String
all_route_ids p =
    p.primary_arbiter.route_id ∷ p.counterpart_arbiter.route_id ∷ latest_first [] p.roster

pub record IsAccepted (p : Policy) : Type 0 where
  pub names : map (λ r. r.party_id) p.roster ≡ expected_parties
  pub distinct_ids : Distinct (all_route_ids p)
  pub distinct_schools :
      p.legacy_v1_source ≡ false → DistinctCodes (schools_latest_first [] p.roster)
  pub roster_on_seat : All (OnSeat p.seat) p.roster
  pub counterpart_on_seat : OnSeat p.seat p.counterpart_arbiter
  pub primary_on_seat : OnSeat p.seat p.primary_arbiter

-- The parts of an accepted check, with the id sets that the loop and the first arbiter leave.
accepted_parts :
    (resolve : Resolver) (p : Policy) (allow_fake : Bool)
    → validate_with_options resolve p allow_fake ≡ ok tt
    → (ids ids' ids'' : List String) × (length p.roster ≡ 5)
      × (check_roster resolve allow_fake p.legacy_v1_source p.seat expected_parties [] [] p.roster
          ≡ ok ids)
      × (check_arbiter resolve allow_fake p.legacy_v1_source p.seat "Counterpart Arbiter"
            no_counterpart ids p.counterpart_arbiter
          ≡ ok ids')
      × (check_arbiter resolve allow_fake p.legacy_v1_source p.seat "Primary Arbiter" no_primary
            ids' p.primary_arbiter
          ≡ ok ids'')
      × (check_limits allow_fake p ≡ ok tt)
unfolding validate_with_options
accepted_parts resolve p allow_fake h =
    let after_version = (>>-ok _ _ h).1 in
    let after_length = >>-ok _ _ after_version in
    let after_seat = (>>-ok _ _ after_length.1).1 in
    let (ids, roster_ok, after_roster) = >>=-ok _ _ after_seat in
    let (ids', counterpart_ok, after_counterpart) = >>=-ok _ _ after_roster in
    let (ids'', primary_ok, after_primary) = >>=-ok _ _ after_counterpart in
    (
      ids,
      ids',
      ids'',
      length_5 after_length.0,
      roster_ok,
      counterpart_ok,
      primary_ok,
      after_primary,
    )
  where
    length_5 : bail_if (not (length p.roster == 5)) not_five_parties ≡ ok tt → length p.roster ≡ 5
    length_5 e = ground arith

-- A policy that passes the check names Party A to Party E in order; the ids of its seven routes are
-- pairwise distinct; every route runs on the seat's family, provider and models; and, unless it
-- comes from a v1 document, the five schools are pairwise distinct after trimming.
pub validate_with_options-IsAccepted :
    (resolve : Resolver) (p : Policy) (allow_fake : Bool)
    → validate_with_options resolve p allow_fake ≡ ok tt
    → IsAccepted p
validate_with_options-IsAccepted resolve p allow_fake h =
    let (ids, ids', ids'', five, roster_ok, counterpart_ok, primary_ok, _) =
      accepted_parts resolve p allow_fake h in
    let (facts, seen) =
      check_roster-RosterFacts resolve allow_fake p.legacy_v1_source p.seat expected_parties [] []
        p.roster roster_ok in
    let c =
      check_arbiter-facts resolve allow_fake p.legacy_v1_source p.seat "Counterpart Arbiter"
        no_counterpart ids p.counterpart_arbiter counterpart_ok in
    let q =
      check_arbiter-facts resolve allow_fake p.legacy_v1_source p.seat "Primary Arbiter" no_primary
        ids' p.primary_arbiter primary_ok in
    record {
      names =
          RosterFacts-names resolve allow_fake p.legacy_v1_source p.seat expected_parties [] []
            p.roster facts five;
      distinct_ids = (
        subst (λ l. contains l p.primary_arbiter.route_id ≡ false)
            (c.3 ∙ ap (λ l. p.counterpart_arbiter.route_id ∷ l) seen) q.1,
        (
          subst (λ l. contains l p.counterpart_arbiter.route_id ≡ false) seen c.1,
          RosterFacts-Distinct resolve allow_fake p.legacy_v1_source p.seat expected_parties [] []
              p.roster facts tt,
        ),
      );
      distinct_schools = λ modern.
          RosterFacts-DistinctCodes resolve allow_fake p.legacy_v1_source p.seat expected_parties []
            [] p.roster modern facts tt;
      roster_on_seat =
          RosterFacts-OnSeat resolve allow_fake p.legacy_v1_source p.seat expected_parties [] []
            p.roster facts;
      counterpart_on_seat = c.2;
      primary_on_seat = q.2;
    }

-- The limits of an accepted production policy are fixed, and its phase timeouts lie in bounds.
pub record HasProductionLimits (p : Policy) : Type 0 where
  pub attempts : p.max_attempts ≡ 3
  pub backoff : p.retry_backoff_seconds ≡ 15
  pub backoff_max : p.retry_backoff_max_seconds ≡ 120
  pub interval : p.r2_min_interval_seconds ≡ 10
  pub parallel : (p.max_parallel_r1 ≡ 5) × (p.max_parallel_r2 ≡ 1)
  pub output : (4096 ≤ p.max_output_bytes) × (p.max_output_bytes ≤ 16777216)
  pub timeout :
      (phase : String) → (5 ≤ timeout_for_phase p phase) × (timeout_for_phase p phase ≤ 3600)

check_limits-timeouts :
    (allow_fake : Bool) (p : Policy)
    → check_limits allow_fake p ≡ ok tt
    → (phase : String) → (5 ≤ timeout_for_phase p phase) × (timeout_for_phase p phase ≤ 3600)
unfolding check_limits timeout_for_phase
check_limits-timeouts allow_fake p h phase = ground arith

-- What `load` accepts has the production limits: three attempts, a backoff of 15 s capped at 120 s,
-- pacing of 10 s, five lanes in R1 and one in R2, an output cap from 4 KiB to 16 MiB, and, for every
-- phase name, an effective timeout from 5 to 3600 seconds.
pub validate-HasProductionLimits :
    (resolve : Resolver) (p : Policy) → validate resolve p ≡ ok tt → HasProductionLimits p
unfolding validate check_limits check_attempts check_rate
validate-HasProductionLimits resolve p h =
    let (_, _, _, _, _, _, _, limits) = accepted_parts resolve p false h in
    record {
      attempts = ground (arith, limits);
      backoff = ground (arith, limits);
      backoff_max = ground (arith, limits);
      interval = ground (arith, limits);
      parallel = (ground (arith, limits), ground (arith, limits));
      output = (ground (arith, limits), ground (arith, limits));
      timeout = check_limits-timeouts false p limits;
    }

-- The tests of `load_for_runtime` on the policy that it has read.
runtime_tests :
    (resolve : Resolver) (allow_fake : Bool) (p' : Policy) {p : Policy}
    → (do
      bail_if p'.legacy_v1_source legacy_not_runnable
      bail_if (not p'.auto_primary_arbiter) manual_arbiter
      validate_with_options resolve p' allow_fake
      ok p')
      ≡ ok p
    → (p' ≡ p)
      × (p'.legacy_v1_source ≡ false)
      × (p'.auto_primary_arbiter ≡ true)
      × (validate_with_options resolve p' allow_fake ≡ ok tt)
runtime_tests resolve allow_fake p' h = ground arith

-- A run starts only from a document that is no v1 policy, that leaves the primary arbiter automatic
-- and that passes the whole check; the policy that the run gets is the document's.
pub load_for_runtime_sound :
    (resolve : Resolver) (allow_fake : Bool) (c : CompatiblePolicy) {p : Policy}
    → load_for_runtime resolve allow_fake c ≡ ok p
    → (read_compatible c ≡ ok p)
      × (p.legacy_v1_source ≡ false)
      × (p.auto_primary_arbiter ≡ true)
      × IsAccepted p
unfolding load_for_runtime
load_for_runtime_sound resolve allow_fake c {p} h =
    let (p', read, after) = >>=-ok _ _ h in
    let (same, modern, automatic, valid) = runtime_tests resolve allow_fake p' after in
    subst
      (λ q.
        (read_compatible c ≡ ok q)
        × (q.legacy_v1_source ≡ false)
        × (q.auto_primary_arbiter ≡ true)
        × IsAccepted q)
      same (read, modern, automatic, validate_with_options-IsAccepted resolve p' allow_fake valid)

-- A document can start a run with policy `p` exactly when it can be observed as `p`, is no v1
-- document and leaves the primary arbiter automatic.
pub runnable_iff_observable :
    (resolve : Resolver) (allow_fake : Bool) (c : CompatiblePolicy) (p : Policy)
    → (load_for_runtime resolve allow_fake c ≡ ok p) ↔ (
        (load_for_observation resolve allow_fake c ≡ ok p)
        × (p.legacy_v1_source ≡ false)
        × (p.auto_primary_arbiter ≡ true))
unfolding load_for_runtime load_for_observation
runnable_iff_observable resolve allow_fake c p = (λ h. ground arith, λ h. ground arith)
