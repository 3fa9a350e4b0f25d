-- ===== src/Run/Merge.antt =====
-- The deterministic merge of the arbiters' verdicts (`residual_fields_conflict` to `merge_verdicts`
-- of src/run.rs). The texts of the dissent notes are constructors; `contested_rate` is the fraction
-- before its division.
pub mod Envelope
pub mod Entries
pub mod Preserved
pub mod Guarantees
pub mod Relation
use quinte.Prelude.{
  distinct_count, ℕ, zero, suc, ◌+◌, max, String, Bool, true, false, not, ◌&&◌, ◌||◌, List, [], ◌∷◌,
  ◌++◌, map, Option, none, some, ◌==◌, str_eq, str_ne, if◌then◌else◌, contains, list_eq, length,
  find, is_empty, is_some, trim, codes_eq, codes_lt,
}
use quinte.Prelude.Keyed
use quinte.Prelude.Keyed.{Keyed}
use quinte.Model.Routes.{SeatBinding, RouteBinding, RoutePolicy, Policy}
use quinte.Model.Lanes.{
  Severity, high, critical, p0, Disposition, unresolved, ClosureState, open_closure, severity_eq,
  disposition_eq, closure_eq, Residual, LaneOutput, LaneAccepted, ArbiterVerdict, TrialPerspective,
}
use quinte.Model.Status.{RunStatus, completed}
use quinte.Run.Contest.{r1_contestation}

-- The derived `==` on two vectors of texts.
abbrev pub strs_eq : List String → List String → Bool
strs_eq = list_eq str_eq

unfoldable pub residual_fields_conflict : Residual → Residual → Bool
residual_fields_conflict left right =
    not (disposition_eq left.disposition right.disposition)
    || not (closure_eq left.closure_state right.closure_state)
    || str_ne left.finding right.finding
    || not (severity_eq left.severity right.severity)
    || str_ne left.residual_type right.residual_type
    || str_ne left.source right.source
    || not (strs_eq left.evidence_refs right.evidence_refs)
    || str_ne left.required_closure right.required_closure
    || str_ne left.scope right.scope
    || not (strs_eq left.closure_evidence right.closure_evidence)

unfoldable pub is_high_risk_severity : Severity → Bool
is_high_risk_severity high = true
is_high_risk_severity critical = true
is_high_risk_severity p0 = true
is_high_risk_severity _ = false

unfoldable pub conservative_unresolved : Residual → Residual
conservative_unresolved r = record r {
  disposition = unresolved;
  closure_state = open_closure;
  closure_evidence = [];
}

pub data DissentNote : Type 0 where
  arbiters_differ : String → DissentNote
  variants_conflict : String → DissentNote
  omitted_by_arbiters : String → DissentNote
  recommendations_differ : String → String → DissentNote

abbrev pub Merged : Type 0
Merged = Keyed Residual × List DissentNote

-- One round of the loops over the arbiters' and over the lanes' residuals, with what the map holds
-- under the residual's id.
abbrev pub merge_found : (String → DissentNote) → Residual → Option Residual → Merged → Merged
merge_found note r none (m, dissent) = (Keyed.insert r.id r m, dissent)
merge_found note r (some existing) (m, dissent) =
    if residual_fields_conflict existing r
    then (Keyed.insert r.id (conservative_unresolved existing) m, dissent ++ note r.id ∷ [])
    else (m, dissent)

unfoldable pub merge_residuals : (String → DissentNote) → List Residual → Merged → Merged
merge_residuals note [] state = state
merge_residuals note (r ∷ rs) state =
    merge_residuals note rs (merge_found note r (Keyed.get r.id state.0) state)

-- The high-risk residuals of the lanes, in order.
abbrev pub high_risk : List Residual → List Residual
high_risk [] = []
high_risk (r ∷ rs) = if is_high_risk_severity r.severity then r ∷ high_risk rs else high_risk rs

abbrev pub lane_residuals : List LaneAccepted → List Residual
lane_residuals [] = []
lane_residuals (lane ∷ lanes) = lane.output.residuals ++ lane_residuals lanes

-- The loop that puts the omitted high-risk residuals back.
abbrev pub preserve_one : String → Residual → Option Residual → Merged → Merged
preserve_one id r (some _) state = state
preserve_one id r none (m, dissent) =
    (Keyed.insert id (conservative_unresolved r) m, dissent ++ omitted_by_arbiters id ∷ [])

unfoldable pub preserve_omitted : Keyed Residual → Merged → Merged
preserve_omitted [] state = state
preserve_omitted ((id, r) ∷ earlier) state =
    preserve_omitted earlier (preserve_one id r (Keyed.get id state.0) state)

-- The residuals and the dissent of the result, up to the recommendations.
unfoldable pub merge_all :
    List LaneAccepted → List LaneAccepted → ArbiterVerdict → ArbiterVerdict → Merged
merge_all r1 r2 primary counterpart =
    let arbiters =
      merge_residuals arbiters_differ (primary.residuals ++ counterpart.residuals) ([], []) in
    let earlier =
      merge_residuals variants_conflict (high_risk (lane_residuals (r1 ++ r2))) ([], arbiters.1) in
    preserve_omitted earlier.0 (arbiters.0, earlier.1)

abbrev pub values : Keyed Residual → List Residual
values [] = []
values ((k, r) ∷ m) = r ∷ values m

-- Roster, counterpart and primary arbiter, in this order.
abbrev pub all_routes : Policy → List RoutePolicy
all_routes p = p.roster ++ p.counterpart_arbiter ∷ p.primary_arbiter ∷ []

unfoldable pub base_model_relation : Policy → String
base_model_relation p =
    if distinct_count (map (λ (r : RoutePolicy). r.text_model) (all_routes p)) == 1
    then "same_model"
    else if distinct_count (map (λ (r : RoutePolicy). r.family) (all_routes p)) == 1
    then "same_family"
    else "different_family"

unfoldable pub correlation_risk : Policy → String
correlation_risk p =
    if distinct_count (map (λ (r : RoutePolicy). r.text_model) (all_routes p)) == 1
    then "same_model_error_correlation"
    else "cross_family_residual_correlation"

-- `observed_contestation`. A verdict is counted under its trimmed code points.
pub record ObservedContestation : Type 0 where
  pub r1_lane_count : ℕ
  pub contested_lane_count : ℕ
  pub contested_rate : ℕ × ℕ
  pub verdict_distribution : List (List ℕ × ℕ)
  pub residual_attestations : Keyed ℕ
  pub r2_skipped : Bool

abbrev pub increment : Option ℕ → ℕ
increment none = 1
increment (some n) = n + 1

-- The counts of the verdicts, in the order of the trimmed texts.
abbrev pub count_verdict : List ℕ → List (List ℕ × ℕ) → List (List ℕ × ℕ)
count_verdict v [] = (v, 1) ∷ []
count_verdict v ((w, n) ∷ m) =
    if codes_eq w v
    then (w, n + 1) ∷ m
    else if codes_lt v w
    then (v, 1) ∷ (w, n) ∷ m
    else (w, n) ∷ count_verdict v m

abbrev count_verdicts : List LaneAccepted → List (List ℕ × ℕ) → List (List ℕ × ℕ)
count_verdicts [] m = m
count_verdicts (lane ∷ lanes) m = count_verdicts lanes (count_verdict (trim lane.output.verdict) m)

abbrev count_residuals : List Residual → Keyed ℕ → Keyed ℕ
count_residuals [] m = m
count_residuals (r ∷ rs) m = count_residuals rs (Keyed.insert r.id (increment (Keyed.get r.id m)) m)

unfoldable pub observed_contestation : List LaneAccepted → List LaneAccepted → ObservedContestation
observed_contestation r1 r2 = record {
  r1_lane_count = length r1;
  contested_lane_count = length (r1_contestation r1);
  contested_rate = (length (r1_contestation r1), max (length r1) 1);
  verdict_distribution = count_verdicts r1 [];
  residual_attestations = count_residuals (lane_residuals r1) [];
  r2_skipped = is_empty r2;
}
