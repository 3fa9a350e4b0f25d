-- ===== src/Run/Merge/Relation.antt =====
-- The model relation that a result declares (`merge_verdicts` of src/run.rs), and what the policy's
-- validation (src/policy.rs) leaves of it.
use quinte.Prelude.{
  ◌≤◌, String, ◌≡◌, refl, sym, ap, subst, ◌∙◌, ◌↔◌, Bool, true, List, [], ◌∷◌, ◌++◌, map, some, ok,
  arith, In, here, All, contains, eq_iff, distinct_count,
}
use quinte.Model.Routes.{RoutePolicy, Policy, SeatBinding}
use quinte.Policy.Checks.{Resolver}
use quinte.Policy.Validate.{validate_with_options}
use quinte.Policy.Distinct.{OnSeat}
use quinte.Policy.Accepted.{IsAccepted, validate_with_options-IsAccepted}
use quinte.Model.Lanes.{LaneAccepted, ArbiterVerdict}
use quinte.Run.Merge.Envelope.{RunManifest, Brief, ResultEnvelope, envelope, merge_verdicts}
use quinte.Run.Merge.{all_routes, base_model_relation, correlation_risk}

abbrev AllEqual : String → List String → Type 0
AllEqual x = All (λ y. y ≡ x)

distinct_count_pos : (x : String) (l : List String) → 1 ≤ distinct_count (l ++ x ∷ [])
distinct_count_pos x [] = omega arith
distinct_count_pos x (y ∷ l) = ground (arith, distinct_count_pos x l)

contains_last : (x : String) (l : List String) → contains (l ++ x ∷ []) x ≡ true
contains_last x [] = ground (arith, eq_iff x x)
contains_last x (y ∷ l) = ground (arith, contains_last x l)

eq_of_contains : (x y : String) (l : List String) → AllEqual x l → contains l y ≡ true → y ≡ x
eq_of_contains x y [] h c = absurd (cc)
eq_of_contains x y (z ∷ l) h c = ground (arith, eq_iff z y, h.0, eq_of_contains x y l h.1)

-- One distinct text: all are the last one.
distinct_count_one :
    (x : String) (l : List String) → (distinct_count (l ++ x ∷ []) ≡ 1) ↔ AllEqual x (l ++ x ∷ [])
distinct_count_one x [] = (λ h. (refl, tt), λ h. refl)
distinct_count_one x (y ∷ l) =
    let ih = distinct_count_one x l in
    (
      λ h.
          let inside : contains (l ++ x ∷ []) y ≡ true =
            ground (arith, distinct_count_pos x l, h) in
          let rest = ih.0 (ground (arith, h, inside)) in
          (eq_of_contains x y (l ++ x ∷ []) rest inside, rest),
      λ h.
          let inside : contains (l ++ x ∷ []) y ≡ true =
            subst (λ z. contains (l ++ x ∷ []) z ≡ true) (sym h.0) (contains_last x l) in
          rw inside (ih.1 h.1),
    )

map-All :
    (f : RoutePolicy → String) (x : String) (l : List RoutePolicy)
    → All (λ r. f r ≡ x) l
    → AllEqual x (map f l)
map-All f x [] h = tt
map-All f x (r ∷ l) h = (h.0, map-All f x l h.1)

-- `all_routes`, with the primary arbiter last.
map-all_routes :
    (f : RoutePolicy → String) (roster : List RoutePolicy) (c p : RoutePolicy)
    → map f (roster ++ c ∷ p ∷ []) ≡ map f (roster ++ c ∷ []) ++ f p ∷ []
map-all_routes f [] c p = refl
map-all_routes f (r ∷ roster) c p = ap (λ l. f r ∷ l) (map-all_routes f roster c p)

OnSeat-model :
    (seat : SeatBinding) (l : List RoutePolicy) (x : String)
    → seat.text_model ≡ x
    → All (OnSeat seat) l
    → All (λ r. r.text_model ≡ x) l
OnSeat-model seat [] x e h = tt
OnSeat-model seat (r ∷ l) x e h = (h.0.text_model ∙ e, OnSeat-model seat l x e h.1)

All-append {ℓ} : {A : Type ℓ} (P : A → Type 0) (l m : List A) → All P l → All P m → All P (l ++ m)
All-append P [] m h k = k
All-append P (x ∷ l) m h k = (h.0, All-append P l m h.1 k)

-- An accepted policy has one text model, over all seven routes.
one_model :
    (p : Policy)
    → IsAccepted p
    → distinct_count (map (λ (r : RoutePolicy). r.text_model) (all_routes p)) ≡ 1
one_model p h =
    let model = λ (r : RoutePolicy). r.text_model in
    let x = p.primary_arbiter.text_model in
    let on_seat : All (OnSeat p.seat) (p.roster ++ p.counterpart_arbiter ∷ []) =
      All-append (OnSeat p.seat) p.roster (p.counterpart_arbiter ∷ []) h.roster_on_seat
        (h.counterpart_on_seat, tt) in
    let all = map-All model x (p.roster ++ p.counterpart_arbiter ∷ []) (
      OnSeat-model p.seat (p.roster ++ p.counterpart_arbiter ∷ []) x
        (sym h.primary_on_seat.text_model) on_seat) in
    ap distinct_count (map-all_routes model p.roster p.counterpart_arbiter p.primary_arbiter)
    ∙ (distinct_count_one x (map model (p.roster ++ p.counterpart_arbiter ∷ []))).1 (
        All-append (λ y. y ≡ x) (map model (p.roster ++ p.counterpart_arbiter ∷ [])) (x ∷ []) all
          (refl, tt))

relation_of_accepted :
    (resolve : Resolver) (allow_fake : Bool) (p : Policy)
    → validate_with_options resolve p allow_fake ≡ ok tt
    → (base_model_relation p ≡ "same_model") × (correlation_risk p ≡ "same_model_error_correlation")
unfolding base_model_relation correlation_risk
relation_of_accepted resolve allow_fake p h =
    let e = one_model p (validate_with_options-IsAccepted resolve p allow_fake h) in (rw e, rw e)

declares :
    (manifest : RunManifest) (brief : Brief) (p : Policy) (r1 r2 : List LaneAccepted)
    (primary counterpart : ArbiterVerdict) {result : ResultEnvelope}
    → merge_verdicts manifest brief p r1 r2 primary counterpart ≡ some result
    → (others : List String) × (result.trial_manifest.base_model_relation ≡ base_model_relation p)
      × (result.trial_manifest.contamination_risks ≡ correlation_risk p ∷ others)
unfolding merge_verdicts envelope
declares manifest brief p r1 r2 primary counterpart merge = (
  "process_isolation_is_not_an_os_sandbox" ∷ "label_rotation_is_not_content_anonymization" ∷ [],
  ground arith,
  ground arith,
)

-- A result that is merged under an accepted policy declares one model and names the risk of its
-- correlated errors among the risks of contamination, whatever the lanes and the arbiters said: the
-- wider labels are for policies that the validation refuses.
pub accepted_same_model :
    (resolve : Resolver) (allow_fake : Bool) (manifest : RunManifest) (brief : Brief) (p : Policy)
    (r1 r2 : List LaneAccepted) (primary counterpart : ArbiterVerdict) {result : ResultEnvelope}
    → validate_with_options resolve p allow_fake ≡ ok tt
    → merge_verdicts manifest brief p r1 r2 primary counterpart ≡ some result
    → (result.trial_manifest.base_model_relation ≡ "same_model")
      × In "same_model_error_correlation" result.trial_manifest.contamination_risks
accepted_same_model resolve allow_fake manifest brief p r1 r2 primary counterpart h merge =
    let relation = relation_of_accepted resolve allow_fake p h in
    let (others, declared, risks) = declares manifest brief p r1 r2 primary counterpart merge in
    (
      declared ∙ relation.0,
      subst (In "same_model_error_correlation") (sym risks)
          (subst (λ x. In "same_model_error_correlation" (x ∷ others)) (sym relation.1) here),
    )
