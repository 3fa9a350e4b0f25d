-- ===== src/Policy/Distinct.antt =====
-- The loop over the roster: what an accepted roster satisfies (src/policy.rs).
use quinte.Prelude.{
  ℕ, String, ◌≡◌, refl, Bool, true, false, ◌&&◌, List, [], ◌∷◌, map, ok, >>-ok, eq_iff, arith,
  length, contains, contains_codes, All, Distinct, is_empty, trim,
}
use quinte.Model.Routes.{SeatBinding, RoutePolicy}
use quinte.Policy.Checks.{
  PolicyError, mixed_family, validate_route_id, valid_route_id, validate_route_binding, Resolver,
}
use quinte.Policy.Validate.{
  check_binding, check_perspective, check_party, check_roster, check_arbiter, fake_party_adapters,
  fake_arbiter_adapters,
}

-- The route agrees with the seat on everything that names a model.
pub record OnSeat (seat : SeatBinding) (route : RoutePolicy) : Type 0 where
  pub family : route.family ≡ seat.family
  pub provider : route.provider ≡ seat.provider
  pub text_model : route.text_model ≡ seat.text_model
  pub multimodal_model : route.multimodal_model ≡ seat.multimodal_model

pub mixed_family-OnSeat :
    (route : RoutePolicy) (seat : SeatBinding) → mixed_family route seat ≡ false → OnSeat seat route
mixed_family-OnSeat route seat h = ground (
  arith,
  eq_iff route.family seat.family,
  eq_iff route.provider seat.provider,
  eq_iff route.text_model seat.text_model,
  eq_iff route.multimodal_model seat.multimodal_model,
)

pub validate_route_binding-OnSeat :
    (route : RoutePolicy) (seat : SeatBinding) (fake legacy : Bool)
    → validate_route_binding route seat fake legacy ≡ ok tt
    → OnSeat seat route
unfolding validate_route_binding
validate_route_binding-OnSeat route seat fake legacy h = ground (
  arith,
  eq_iff route.family seat.family,
  eq_iff route.provider seat.provider,
  eq_iff route.text_model seat.text_model,
  eq_iff route.multimodal_model seat.multimodal_model,
)

module _ (resolve : Resolver) (allow_fake : Bool) (legacy : Bool) (seat : SeatBinding) where
  pub check_binding-OnSeat :
      (fakes : List String) (route : RoutePolicy)
      → check_binding resolve allow_fake legacy seat fakes route ≡ ok tt
      → OnSeat seat route
  unfolding check_binding
  check_binding-OnSeat fakes route h =
      validate_route_binding-OnSeat route seat (allow_fake && contains fakes route.adapter) legacy
        (>>-ok _ _ h).0

  -- What one accepted round establishes.
  pub record PartyFacts (party : String) (ids : List String) (schools : List (List ℕ))
      (route : RoutePolicy) : Type 0 where
    pub party_id : route.party_id ≡ party
    pub required : route.required ≡ true
    pub valid_id : valid_route_id route.route_id ≡ true
    pub fresh_id : contains ids route.route_id ≡ false
    pub declared : legacy ≡ false → is_empty (trim route.perspective) ≡ false
    pub fresh_school : legacy ≡ false → contains_codes schools (trim route.perspective) ≡ false
    pub on_seat : OnSeat seat route

  check_party-PartyFacts :
      (party : String) (ids : List String) (schools : List (List ℕ)) (route : RoutePolicy)
      → check_party resolve allow_fake legacy seat party ids schools route ≡ ok tt
      → PartyFacts party ids schools route
  unfolding check_party validate_route_id check_perspective
  check_party-PartyFacts party ids schools route h =
      ground (arith, eq_iff route.party_id party, check_binding-OnSeat fake_party_adapters route)

  -- What an accepted loop over the roster establishes, from the sets that it starts with.
  abbrev pub RosterFacts : List String → List String → List (List ℕ) → List RoutePolicy → Type 0
  RosterFacts parties ids schools [] = Unit
  RosterFacts [] ids schools (route ∷ roster) = ⊥
  RosterFacts (party ∷ parties) ids schools (route ∷ roster) =
      PartyFacts party ids schools route
      × RosterFacts parties (route.route_id ∷ ids) (trim route.perspective ∷ schools) roster

-- The route ids of a roster in front of earlier ones, the latest first.
abbrev pub latest_first : List String → List RoutePolicy → List String
latest_first ids [] = ids
latest_first ids (route ∷ roster) = latest_first (route.route_id ∷ ids) roster

-- The schools of a roster, the latest first.
abbrev pub schools_latest_first : List (List ℕ) → List RoutePolicy → List (List ℕ)
schools_latest_first schools [] = schools
schools_latest_first schools (route ∷ roster) =
    schools_latest_first (trim route.perspective ∷ schools) roster

abbrev pub DistinctCodes : List (List ℕ) → Type 0
DistinctCodes [] = Unit
DistinctCodes (x ∷ xs) = (contains_codes xs x ≡ false) × DistinctCodes xs

module _ (resolve : Resolver) (allow_fake : Bool) (legacy : Bool) (seat : SeatBinding) where
  pub check_roster-RosterFacts :
      (parties ids : List String) (schools : List (List ℕ)) (roster : List RoutePolicy)
      {ids' : List String}
      → check_roster resolve allow_fake legacy seat parties ids schools roster ≡ ok ids'
      → RosterFacts resolve allow_fake legacy seat parties ids schools roster
        × (ids' ≡ latest_first ids roster)
  unfolding check_roster
  check_roster-RosterFacts parties ids schools [] h = (tt, ground arith)
  check_roster-RosterFacts [] ids schools (route ∷ roster) h = absurd (cc)
  check_roster-RosterFacts (party ∷ parties) ids schools (route ∷ roster) h =
      let first = >>-ok _ _ h in
      let rest =
        check_roster-RosterFacts parties (route.route_id ∷ ids) (trim route.perspective ∷ schools)
          roster first.1 in
      (
        (
          check_party-PartyFacts resolve allow_fake legacy seat party ids schools route first.0,
          rest.0,
        ),
        rest.1,
      )

  pub RosterFacts-Distinct :
      (parties ids : List String) (schools : List (List ℕ)) (roster : List RoutePolicy)
      → RosterFacts resolve allow_fake legacy seat parties ids schools roster
      → Distinct ids
      → Distinct (latest_first ids roster)
  RosterFacts-Distinct parties ids schools [] h d = d
  RosterFacts-Distinct [] ids schools (route ∷ roster) h d = absurd h
  RosterFacts-Distinct (party ∷ parties) ids schools (route ∷ roster) h d =
      RosterFacts-Distinct parties (route.route_id ∷ ids) (trim route.perspective ∷ schools) roster
        h.1 (h.0.fresh_id, d)

  pub RosterFacts-DistinctCodes :
      (parties ids : List String) (schools : List (List ℕ)) (roster : List RoutePolicy)
      → legacy ≡ false
      → RosterFacts resolve allow_fake legacy seat parties ids schools roster
      → DistinctCodes schools
      → DistinctCodes (schools_latest_first schools roster)
  RosterFacts-DistinctCodes parties ids schools [] l h d = d
  RosterFacts-DistinctCodes [] ids schools (route ∷ roster) l h d = absurd h
  RosterFacts-DistinctCodes (party ∷ parties) ids schools (route ∷ roster) l h d =
      RosterFacts-DistinctCodes parties (route.route_id ∷ ids) (trim route.perspective ∷ schools)
        roster l h.1 (h.0.fresh_school l, d)

  pub RosterFacts-OnSeat :
      (parties ids : List String) (schools : List (List ℕ)) (roster : List RoutePolicy)
      → RosterFacts resolve allow_fake legacy seat parties ids schools roster
      → All (OnSeat seat) roster
  RosterFacts-OnSeat parties ids schools [] h = tt
  RosterFacts-OnSeat [] ids schools (route ∷ roster) h = absurd h
  RosterFacts-OnSeat (party ∷ parties) ids schools (route ∷ roster) h = (
    h.0.on_seat,
    RosterFacts-OnSeat parties (route.route_id ∷ ids) (trim route.perspective ∷ schools) roster h.1,
  )

  pub RosterFacts-names :
      (parties ids : List String) (schools : List (List ℕ)) (roster : List RoutePolicy)
      → RosterFacts resolve allow_fake legacy seat parties ids schools roster
      → length roster ≡ length parties
      → map (λ r. r.party_id) roster ≡ parties
  RosterFacts-names [] ids schools [] h e = refl
  RosterFacts-names (party ∷ parties) ids schools [] h e = absurd (omega arith)
  RosterFacts-names [] ids schools (route ∷ roster) h e = absurd h
  RosterFacts-names (party ∷ parties) ids schools (route ∷ roster) h e = cc (
    h.0.party_id,
    RosterFacts-names parties (route.route_id ∷ ids) (trim route.perspective ∷ schools) roster h.1
        (omega arith),
  )

  -- An accepted arbiter adds a fresh id, and sits on the seat.
  pub check_arbiter-facts :
      (party : String) (missing : PolicyError) (ids : List String) (route : RoutePolicy)
      {ids' : List String}
      → check_arbiter resolve allow_fake legacy seat party missing ids route ≡ ok ids'
      → (route.party_id ≡ party)
        × (contains ids route.route_id ≡ false)
        × OnSeat seat route
        × (ids' ≡ route.route_id ∷ ids)
  unfolding check_arbiter validate_route_id
  check_arbiter-facts party missing ids route h = ground (
    arith,
    eq_iff route.party_id party,
    check_binding-OnSeat resolve allow_fake legacy seat fake_arbiter_adapters route,
  )
