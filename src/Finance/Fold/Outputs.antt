-- ===== src/Finance/Fold/Outputs.antt =====
-- The set of outputs of one phase (`validate_school_output_set` of src/finance.rs).
use quinte.Prelude.{
  ℕ, suc, ◌+◌, String, ◌≡◌, refl, Bool, true, false, not, ◌||◌, List, [], ◌∷◌, ok, ◌>>=◌, bail_if,
  arith, length, All, str_ne, str_ne-false, >>=-ok, bail_if-ok, if◌then◌else◌, ◌==◌,
}
use quinte.Finance.Types.{
  SchoolId, factor_risk_model, event_driven, fundamental_supply_chain, trend_technical_regime,
  market_microstructure, school_eq, school_bindings, FinancePhase, phase_eq, r1, r2,
  SchoolLaneOutput, invalid_output, missing_school, not_five_outputs,
}
use quinte.Finance.Fold.{has_school, check_outputs, lacks_school, validate_school_output_set}

-- An output of the run and the phase, in the version that the code reads.
abbrev pub Belongs : String → FinancePhase → SchoolLaneOutput → Type 0
Belongs run_id phase o =
    (o.school_lane_output_version ≡ "1.0") × (o.run_id ≡ run_id) × (o.phase ≡ phase)

-- How many outputs a school has.
abbrev pub output_count : SchoolId → List SchoolLaneOutput → ℕ
output_count s [] = 0
output_count s (o ∷ os) =
    if school_eq o.school_id s then suc (output_count s os) else output_count s os

abbrev bit : Bool → ℕ
bit true = 1
bit false = 0

phase_eq-≡ : (p q : FinancePhase) → phase_eq p q ≡ true → p ≡ q
phase_eq-≡ r1 r1 h = refl
phase_eq-≡ r2 r2 h = refl
phase_eq-≡ r1 r2 h = cc
phase_eq-≡ r2 r1 h = cc

has_school-eq :
    (seen : List SchoolId) (s t : SchoolId)
    → school_eq s t ≡ true
    → has_school seen s ≡ has_school seen t
has_school-eq [] s t h = refl
has_school-eq (x ∷ seen) s t h = ground (arith, has_school-eq seen s t h)

check_outputs_counts :
    (run_id : String) (phase : FinancePhase) (seen : List SchoolId) (os : List SchoolLaneOutput)
    {all : List SchoolId}
    → check_outputs run_id phase seen os ≡ ok all
    → All (Belongs run_id phase) os
      × ((s : SchoolId) → bit (has_school all s) ≡ bit (has_school seen s) + output_count s os)
unfolding check_outputs
check_outputs_counts run_id phase seen [] h = (tt, λ s. ground (arith, h))
check_outputs_counts run_id phase seen (o ∷ os) {all} h =
    let (guard, rest) =
      bail_if-ok
        (str_ne o.school_lane_output_version "1.0"
          || str_ne o.run_id run_id
          || not (phase_eq o.phase phase)
          || has_school seen o.school_id)
        invalid_output (check_outputs run_id phase (o.school_id ∷ seen) os) h in
    let ih = check_outputs_counts run_id phase (o.school_id ∷ seen) os rest in
    let version : str_ne o.school_lane_output_version "1.0" ≡ false = ground (arith, guard) in
    let run : str_ne o.run_id run_id ≡ false = ground (arith, guard) in
    let same : phase_eq o.phase phase ≡ true = ground (arith, guard) in
    let new : has_school seen o.school_id ≡ false = ground (arith, guard) in
    (
      (
        (
          str_ne-false o.school_lane_output_version "1.0" version,
          str_ne-false o.run_id run_id run,
          phase_eq-≡ o.phase phase same,
        ),
        ih.0,
      ),
      λ s. ground (arith, ih.1 s, new, has_school-eq seen o.school_id s),
    )

-- An accepted set has five outputs, all of the run and the phase, and exactly one of each school.
pub validate_school_output_set_sound :
    (run_id : String) (phase : FinancePhase) (outputs : List SchoolLaneOutput)
    → validate_school_output_set run_id phase outputs ≡ ok tt
    → (length outputs ≡ 5)
      × All (Belongs run_id phase) outputs
      × ((s : SchoolId) → output_count s outputs ≡ 1)
unfolding validate_school_output_set
validate_school_output_set_sound run_id phase outputs h =
    let last =
      λ (schools : List SchoolId). bail_if (lacks_school schools school_bindings) missing_school in
    let (five, k) =
      bail_if-ok (not (length outputs == 5)) not_five_outputs
        (check_outputs run_id phase [] outputs >>= last) h in
    let (schools, checked, lacks) = >>=-ok (check_outputs run_id phase [] outputs) last k in
    let counts = check_outputs_counts run_id phase [] outputs checked in
    (ground (arith, five), counts.0, λ s. present schools s lacks (counts.1 s))
  where
    present :
        (schools : List SchoolId) (s : SchoolId)
        → bail_if (lacks_school schools school_bindings) missing_school ≡ ok tt
        → bit (has_school schools s) ≡ 0 + output_count s outputs
        → output_count s outputs ≡ 1
    present schools factor_risk_model h e = ground (arith, h, e)
    present schools event_driven h e = ground (arith, h, e)
    present schools fundamental_supply_chain h e = ground (arith, h, e)
    present schools trend_technical_regime h e = ground (arith, h, e)
    present schools market_microstructure h e = ground (arith, h, e)
