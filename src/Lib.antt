-- ===== src/Lib.antt =====
-- A verification library for QUINTE, the deterministic scheduler of a review by five model lanes and
-- two arbiters, and for its finance review protocol.
--
-- The program. A policy (src/policy.rs) seats five parties and two arbiters on one model family. A run
-- (src/run.rs) sends the question to the five lanes (R1), decides from their outputs alone which lanes
-- are contested and re-examined (R2), asks the two arbiters (R3), and merges their verdicts into a
-- result without the help of a model. What a lane or an arbiter returns is checked against the
-- snapshot of the evidence before it is accepted, and a failed attempt is retried after a delay. The
-- run's status and its events stand in the store (src/store.rs), which recovers a transition that a
-- crash cut short. The finance protocol (src/finance.rs) preregisters a policy, a profile and claims,
-- reviews the claims in two phases by five schools, folds the phases and decides whether the review
-- may be published; its manifest moves along a transition relation.
--
-- The files. Prelude has the shared types: native numbers with Boolean tests, lists, texts as code
-- points, `Result` for `anyhow::Result` (a constructor stands for each message), and `Keyed` for
-- `BTreeMap<String, _>`, an association list in the order of its keys.
--   Model      src/model.rs: the policy (Routes), the run's states (Status), lanes and verdicts (Lanes)
--   Policy     src/policy.rs: Checks (validate_seat_binding to validate_route_id), Validate
--              (validate_with_options), Defaults (default_policy), Load (read_compatible, load,
--              load_for_runtime, load_for_observation); Distinct and Accepted have the proofs
--   Run.Retry  src/run.rs: RetryClass, retry_allowed, retry_schedule
--   Run.Attempts  src/run.rs: next_attempt, persist_retry_deadline, wait_for_retry_deadline,
--              run_retry_attempt, accept_or_retry_lane, await_arbiter_output; Freshness, Deadline
--              and Budget have the proofs
--   Run.Phase  src/run.rs: phase_complete, load_phase, load_existing_phase_outputs, run_phase with its
--              two loops; Work, Gate, Calm and Modes have the proofs
--   Run.Scheduler  src/run.rs: advance, whose stages stand in Advance, over a RunState with the
--              status and the files that decide what comes next; Consistent says which statuses the
--              files support, Requests, Stages, SecondPhase and Arbiters follow the stages, Resume
--              has the results, and Refines relates a request to transition of src/store.rs
--   Run.Arbiter  src/run.rs: create_primary_arbiter_challenge to
--              recover_primary_arbiter_submission, and submit_primary_arbiter_response in Submit;
--              Binding, Once and Retried have the proofs
--   Run.Packet  src/run.rs: r2_identity_replacements to build_r2_packet; Scrubbed and Participants have
--              the proofs
--   Run.Contest   src/run.rs: r1_contestation; Range, Skip, Reasons, Stances, Reports
--              and Unanimous have the proofs
--   Run.Evidence  src/run.rs: validate_unique_ids to validate_evidence_refs; Distance, Repair and
--              Resolve have the proofs
--   Run.Merge  src/run.rs: residual_fields_conflict to merge_verdicts, whose envelope is in Envelope;
--              Entries, Preserved, Guarantees and Relation have the proofs
--   Adapters   src/adapters.rs: escape_raw_control_chars_in_strings; Repaired has the proof
--   Store      src/store.rs: transition_allowed, transition, event_at for transitions, load_manifest and
--              recover_pending_transition, on a Disk that holds the files of a run; Statuses,
--              Outcomes, Recovery and Cancellation have the proofs
--   Finance    src/finance.rs: Types (the records), Transition (legal_transition and the checks on a
--              manifest), Profile (validate_finance_policy, validate_profile,
--              validate_claim_manifest), Lanes (validate_lane_claims_and_evidence), Fold
--              (validate_school_output_set, conservative_fold), Posture (publication_posture); their
--              children have the proofs
--   Examples   the theorems at concrete inputs, and runs of the definitions
--
-- How the code is read. A loop over a slice is structural recursion. Three definitions run on fuel: the
-- search for an identity token, whose fuel is the length of the text, which every round shortens; the
-- loops over the attempts of a lane, whose fuel is the policy's budget of attempts (`out_of_fuel` is
-- an error of its own, and Attempts.Budget shows that it never comes up), and the printing of an
-- attempt's number, which has the twenty digits of a u64. A set that a loop fills is
-- the list of what was inserted, the latest first. A function that changes its argument returns the
-- changed value; one that writes files returns the states of the directory after each write, which
-- are the states that a crash can leave. An early return of `advance` is the error of a `Result`.
-- Numbers are natural numbers; where the source saturates, the limit is written out. A
-- confidence is a dyadic rational, since a JSON number is finite. Messages of errors and of dissent
-- are constructors. The order of texts is that of their code points, which is that of their bytes.
-- A panic is `none`: merge_verdicts reads the R1 output of each roster route without a default.
--
-- Parameters. SHA-256 in the jitter of a retry and of a response, the file system's answer about a
-- test executable, the snapshot's set of references, the UUID test of a run id, the clock, the reading
-- of times, the rotation of the R2 labels, serde_json's view of a lane output, a new transition's id and the schemas' checks of lane outputs and responses are
-- arguments of the definitions that use them. What the attempts of a route return and where a
-- cancellation cuts a wait short is a LaneWorld; what the checks that `advance` calls answer is a
-- World. Nothing is assumed of them but what a theorem says.
--
-- Not modelled: child processes, threads and signals, the pacing state of R2, the content of task packets
-- and reports, the snapshot, the store's locks and torn writes, the rest of the adapters,
-- the host and A2A boundaries, the command line and the Pi agent, which are mostly I/O; the packets
-- and the event ledger of the finance protocol, which rest on digests of canonical JSON; and the
-- reading and the schemas of JSON documents, which are libraries' work. A failed write of a file
-- ends a call like a crash and is not an outcome of its own. In Run.Arbiter every save of the manifest
-- reaches the disk, as it does while the run is not being cancelled: save_manifest drops a save once it is.
pub mod Prelude
pub mod Model
pub mod Policy
pub mod Run
pub mod Adapters
pub mod Store
pub mod Finance
pub mod Examples
