-- ===== src/Run/Merge/Guarantees.antt =====
-- What a reader of a merged result may rely on (`merge_verdicts` of src/run.rs).
use quinte.Prelude.{
  String, ◌≡◌, refl, sym, subst, List, [], ◌∷◌, ◌++◌, map, Option, some, arith, Distinct, str_eq,
  find,
}
use quinte.Prelude.Keyed
use quinte.Prelude.Keyed.{Keyed}
use quinte.Prelude.Order.{Ascending, Ascending-Distinct, keys}
use quinte.Model.Lanes.{Residual, LaneAccepted, ArbiterVerdict}
use quinte.Model.Routes.{Policy}
use quinte.Run.Merge.{
  DissentNote, arbiters_differ, variants_conflict, Merged, merge_residuals, high_risk,
  lane_residuals, merge_all, values,
}
use quinte.Run.Merge.Entries.{merge_residuals-Ascending}
use quinte.Run.Merge.Preserved.{SelfKeyed, merge_residuals-SelfKeyed, Keeps, preserve_omitted-Keeps}
use quinte.Run.Merge.Envelope.{RunManifest, Brief, ResultEnvelope, merge_verdicts}

-- The entry of a result under an id.
abbrev pub residual_of : String → List Residual → Option Residual
residual_of id = find (λ (r : Residual). str_eq r.id id)

-- The arbiters' residuals, in the order in which they are merged.
abbrev pub arbiter_residuals : ArbiterVerdict → ArbiterVerdict → List Residual
arbiter_residuals primary counterpart = primary.residuals ++ counterpart.residuals

ids-values : (m : Keyed Residual) → SelfKeyed m → map (λ (r : Residual). r.id) (values m) ≡ keys m
ids-values [] h = refl
ids-values ((k, r) ∷ m) h = cc (h.0, ids-values m h.1)

-- The arbiters' map, after the whole loop.
module _ (primary counterpart : ArbiterVerdict) where
  arbiters_map : Merged
  arbiters_map = merge_residuals arbiters_differ (arbiter_residuals primary counterpart) ([], [])

  arbiters_map-SelfKeyed : SelfKeyed arbiters_map.0
  unfolding arbiters_map
  arbiters_map-SelfKeyed =
      merge_residuals-SelfKeyed arbiters_differ (arbiter_residuals primary counterpart) ([], []) tt

  arbiters_map-Ascending : Ascending (keys arbiters_map.0)
  unfolding arbiters_map
  arbiters_map-Ascending =
      merge_residuals-Ascending arbiters_differ (arbiter_residuals primary counterpart) ([], []) tt

-- The map of the lanes' high-risk residuals.
module _ (lanes : List LaneAccepted) (dissent : List DissentNote) where
  earlier_map : Merged
  earlier_map = merge_residuals variants_conflict (high_risk (lane_residuals lanes)) ([], dissent)

  earlier_map-SelfKeyed : SelfKeyed earlier_map.0
  unfolding earlier_map
  earlier_map-SelfKeyed =
      merge_residuals-SelfKeyed variants_conflict (high_risk (lane_residuals lanes)) ([], dissent)
        tt

module _ (r1 r2 : List LaneAccepted) (primary counterpart : ArbiterVerdict) where
  merge_all-Keeps :
      Keeps (arbiters_map primary counterpart).0 (merge_all r1 r2 primary counterpart).0
  unfolding merge_all arbiters_map earlier_map
  merge_all-Keeps =
      preserve_omitted-Keeps (earlier_map (r1 ++ r2) (arbiters_map primary counterpart).1).0
        (
          (arbiters_map primary counterpart).0,
          (earlier_map (r1 ++ r2) (arbiters_map primary counterpart).1).1,
        )
        (earlier_map-SelfKeyed (r1 ++ r2) (arbiters_map primary counterpart).1)

  merge_all-SelfKeyed : SelfKeyed (merge_all r1 r2 primary counterpart).0
  merge_all-SelfKeyed = merge_all-Keeps.self_keyed (arbiters_map-SelfKeyed primary counterpart)

-- The residuals of a successful merge.
envelope_of :
    (manifest : RunManifest) (brief : Brief) (policy : Policy) (r1 r2 : List LaneAccepted)
    (primary counterpart : ArbiterVerdict) {result : ResultEnvelope}
    → merge_verdicts manifest brief policy r1 r2 primary counterpart ≡ some result
    → values (merge_all r1 r2 primary counterpart).0 ≡ result.residuals
unfolding merge_verdicts
envelope_of manifest brief policy r1 r2 primary counterpart h = ground arith

module _ (manifest : RunManifest) (brief : Brief) (policy : Policy) (r1 r2 : List LaneAccepted)
    (primary counterpart : ArbiterVerdict) {result : ResultEnvelope}
    (merged : merge_verdicts manifest brief policy r1 r2 primary counterpart ≡ some result) where
  -- The residuals of a result stand in strictly ascending order of their ids, so no id occurs twice.
  pub residuals-Ascending :
      Ascending (map (λ (r : Residual). r.id) result.residuals)
      × Distinct (map (λ (r : Residual). r.id) result.residuals)
  residuals-Ascending =
      let m = merge_all r1 r2 primary counterpart in
      let sorted =
        (merge_all-Keeps r1 r2 primary counterpart).ascending
          (arbiters_map-Ascending primary counterpart) in
      let ids = ids-values m.0 (merge_all-SelfKeyed r1 r2 primary counterpart) in
      subst
        (λ (l : List Residual).
          Ascending (map (λ (r : Residual). r.id) l) × Distinct (map (λ (r : Residual). r.id) l))
        (envelope_of manifest brief policy r1 r2 primary counterpart merged)
        (subst (λ l. Ascending l × Distinct l) (sym ids)
          (sorted, Ascending-Distinct (keys m.0) sorted))
