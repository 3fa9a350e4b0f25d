-- ===== src/Run/Merge/Entries.antt =====
-- What the maps of residuals hold while verdicts are merged (src/run.rs).
use quinte.Prelude.{
  String, ◌≡◌, refl, subst, ◌⊎◌, inl, inr, Bool, true, false, ◌||◌, List, [], ◌∷◌, ◌++◌, Option,
  none, some, if◌then◌else◌, arith, All, str_eq, str_ne_self, eq_iff, Bool-cases,
}
use quinte.Prelude.Keyed
use quinte.Prelude.Keyed.{Keyed, get-insert}
use quinte.Prelude.Order.{Ascending, keys, insert-Ascending}
use quinte.Model.Lanes.{Residual, unresolved, open_closure}
use quinte.Run.Merge.{
  DissentNote, Merged, strs_eq, residual_fields_conflict, conservative_unresolved, merge_found,
  merge_residuals,
}

-- The residual stands as unresolved and open, with no closure evidence.
pub record IsConservative (r : Residual) : Type 0 where
  pub disposition : r.disposition ≡ unresolved
  pub closure : r.closure_state ≡ open_closure
  pub evidence : r.closure_evidence ≡ []

pub conservative_unresolved-IsConservative :
    (r : Residual) → IsConservative (conservative_unresolved r)
unfolding conservative_unresolved
conservative_unresolved-IsConservative r = record {
  disposition = refl;
  closure = refl;
  evidence = refl;
}

strs_eq_self : (l : List String) → strs_eq l l ≡ true
strs_eq_self [] = refl
strs_eq_self (x ∷ l) = ground (arith, eq_iff x x, strs_eq_self l)

-- A residual does not conflict with itself.
residual_fields_conflict_self : (r : Residual) → residual_fields_conflict r r ≡ false
unfolding residual_fields_conflict
residual_fields_conflict_self r = ground (
  arith,
  str_ne_self r.finding,
  str_ne_self r.residual_type,
  str_ne_self r.source,
  strs_eq_self r.evidence_refs,
  str_ne_self r.required_closure,
  str_ne_self r.scope,
  strs_eq_self r.closure_evidence,
)

-- Every residual of the list that has this id agrees with `e` in all ten fields.
abbrev pub AgreesWith : Residual → String → List Residual → Type 0
AgreesWith e id =
    All (λ (r : Residual). str_eq r.id id ≡ true → residual_fields_conflict e r ≡ false)

abbrev pub has_id : String → List Residual → Bool
has_id id [] = false
has_id id (r ∷ rs) = str_eq r.id id || has_id id rs

-- What the map holds under an id, after the residuals `done`: nothing if none of them has it; else
-- a residual with that id that is conservative, or agrees with all of them.
abbrev pub Holds : List Residual → String → Option Residual → Type 0
Holds done id none = has_id id done ≡ false
Holds done id (some e) =
    (e.id ≡ id) × (IsConservative e ⊎ AgreesWith e id done) × (has_id id done ≡ true)

AgreesWith-vacuous :
    (e : Residual) (id : String) (done : List Residual)
    → has_id id done ≡ false
    → AgreesWith e id done
AgreesWith-vacuous e id [] h = tt
AgreesWith-vacuous e id (r ∷ done) h =
    (λ same. absurd (ground arith), AgreesWith-vacuous e id done (ground arith))

Holds-other :
    (r : Residual) (done : List Residual) (id : String) (o : Option Residual)
    → str_eq r.id id ≡ false
    → Holds done id o
    → Holds (r ∷ done) id o
Holds-other r done id none ne h = ground arith
Holds-other r done id (some e) ne h =
    (h.0, elim (h.1) [ inl c ↦ inl c | inr a ↦ inr (λ same. absurd (cc), a) ], ground arith)

-- What one round leaves under the id of its residual.
abbrev retained : Bool → Residual → Residual
retained true e = conservative_unresolved e
retained false e = e

abbrev kept : Residual → Option Residual → Residual
kept r none = r
kept r (some e) = retained (residual_fields_conflict e r) e

Holds-retained :
    (r e : Residual) (done : List Residual) (b : Bool)
    → residual_fields_conflict e r ≡ b
    → Holds done r.id (some e)
    → Holds (r ∷ done) r.id (some (retained b e))
unfolding conservative_unresolved
Holds-retained r e done true clash h =
    (h.0, inl (conservative_unresolved-IsConservative e), ground (arith, eq_iff r.id r.id))
Holds-retained r e done false agree h = (
  h.0,
  elim (h.1) [ inl c ↦ inl c | inr a ↦ inr (λ same. agree, a) ],
  ground (arith, eq_iff r.id r.id),
)

Holds-kept :
    (r : Residual) (done : List Residual) (o : Option Residual)
    → Holds done r.id o
    → Holds (r ∷ done) r.id (some (kept r o))
Holds-kept r done none h = (
  refl,
  inr (λ same. residual_fields_conflict_self r, AgreesWith-vacuous r r.id done h),
  ground (arith, eq_iff r.id r.id),
)
Holds-kept r done (some e) h = Holds-retained r e done (residual_fields_conflict e r) refl h

-- The state after one round, read at any id.
get-merge_found :
    (note : String → DissentNote) (r : Residual) (o : Option Residual) (m : Keyed Residual)
    (dissent : List DissentNote) (id : String)
    → Keyed.get r.id m ≡ o
    → Keyed.get id (merge_found note r o (m, dissent)).0
      ≡ (if str_eq r.id id then some (kept r o) else Keyed.get id m)
get-merge_found note r none m dissent id e = get-insert r.id id r m
get-merge_found note r (some x) m dissent id e =
    ground (arith, eq_iff r.id id, get-insert r.id id (conservative_unresolved x) m)

merge_found-Holds :
    (note : String → DissentNote) (r : Residual) (done : List Residual) (m : Keyed Residual)
    (dissent : List DissentNote)
    → ((id : String) → Holds done id (Keyed.get id m))
    → (id : String)
    → Holds (r ∷ done) id (Keyed.get id (merge_found note r (Keyed.get r.id m) (m, dissent)).0)
merge_found-Holds note r done m dissent h id =
    rw (get-merge_found note r (Keyed.get r.id m) m dissent id refl)
      (elim (Bool-cases (str_eq r.id id)) [
        | inl same ↦ rw same (
            subst (λ k. Holds (r ∷ done) k (some (kept r (Keyed.get r.id m))))
              ((eq_iff r.id id).0 same) (Holds-kept r done (Keyed.get r.id m) (h r.id)))
        | inr other ↦ rw other (Holds-other r done id (Keyed.get id m) other (h id))
      ])

abbrev pub push_residuals : List Residual → List Residual → List Residual
push_residuals [] done = done
push_residuals (r ∷ rs) done = push_residuals rs (r ∷ done)

-- After the loop the map holds, under every id, what `Holds` says of all residuals it has read.
pub merge_residuals-Holds :
    (note : String → DissentNote) (rs done : List Residual) (state : Merged)
    → ((id : String) → Holds done id (Keyed.get id state.0))
    → (id : String)
    → Holds (push_residuals rs done) id (Keyed.get id (merge_residuals note rs state).0)
unfolding merge_residuals
merge_residuals-Holds note [] done state h = h
merge_residuals-Holds note (r ∷ rs) done state h =
    merge_residuals-Holds note rs (r ∷ done) (merge_found note r (Keyed.get r.id state.0) state)
      (merge_found-Holds note r done state.0 state.1 h)

-- The keys stay in ascending order.
pub merge_residuals-Ascending :
    (note : String → DissentNote) (rs : List Residual) (state : Merged)
    → Ascending (keys state.0)
    → Ascending (keys (merge_residuals note rs state).0)
unfolding merge_residuals
merge_residuals-Ascending note [] state h = h
merge_residuals-Ascending note (r ∷ rs) state h =
    merge_residuals-Ascending note rs (merge_found note r (Keyed.get r.id state.0) state)
      (one (Keyed.get r.id state.0))
  where
    clash :
        (b : Bool) (x : Residual)
        → Ascending (
            keys
              (if b
                then (
                  Keyed.insert r.id (conservative_unresolved x) state.0,
                  state.1 ++ note r.id ∷ [],
                )
                else state).0)
    clash true x = insert-Ascending r.id (conservative_unresolved x) state.0 h
    clash false x = h

    one : (o : Option Residual) → Ascending (keys (merge_found note r o state).0)
    one none = insert-Ascending r.id r state.0 h
    one (some x) = clash (residual_fields_conflict x r) x
