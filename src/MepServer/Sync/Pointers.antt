-- ===== src/MepServer/Sync/Pointers.antt =====
-- mepserver/mm5/task/sync.go: the maps of the rules point into the lists that they were made of, and an
-- operation that has the rules it needs does not panic.
use mep.Prelude.{
  contains, ℕ, suc, String, ◌≡◌, ◌≢◌, ◌⊎◌, ap, sym, ◌∙◌, subst, inl, inr, ◌+◌, ◌≤◌, ◌<◌, Bool, true,
  none, some, List, [], ◌∷◌, ◌==◌, eq_iff, length, Map, empty_map, insert, arith, Bool-cases,
  Option-cases,
}
use mathlib.Core.Option.{some-injective}
use mep.MepServer.Sync.{RuleType, apply_func, Rule, rule_id, World}
use mep.MepServer.Sync.Operations.{
  Place, in_job, in_config, Pointer, rules_at, fill_all, fill_missing, generate_rule_map,
}
use mep.MepServer.Sync.Frame.{ids}

-- a rule of the identifier
abbrev pub has_rule : (k : RuleType) → String → List (Rule k) → Bool
has_rule k id rs = contains (ids k rs) id

module _ {K V : Type 0} where
  -- a pointer into a list, and a map of such pointers
  abbrev pub IsIn : (k : RuleType) → Pointer → World K V → Type 0
  IsIn k q w = (p : Place) × (i : ℕ) × (q ≡ some (p, i)) × (i < length (rules_at k p w))

  abbrev IsMap : (k : RuleType) → Map (Place × ℕ) → World K V → Type 0
  IsMap k m w = (id : String) (p : Place) (i : ℕ) → m id ≡ some (p, i) → i < length (rules_at k p w)

  insert-IsMap :
      (k : RuleType) (m : Map (Place × ℕ)) (w : World K V) (id : String) (p : Place) (i : ℕ)
      → IsMap k m w
      → i < length (rules_at k p w)
      → IsMap k (insert id (p, i) m) w
  insert-IsMap k m w id p i valid bound j q n e = elim (Bool-cases (id == j)) [
    | inl same ↦
        let here : (p, i) ≡ (q, n) = some-injective _ _ (rw same at e) in
        subst (λ x. x.1 < length (rules_at k x.0 w)) here bound
    | inr other ↦ valid j q n (rw other at e)
  ]

  fill_all-IsMap :
      (k : RuleType) (p : Place) (i : ℕ) (rs : List (Rule k)) (m : Map (Place × ℕ)) (w : World K V)
      → IsMap k m w
      → i + length rs ≤ length (rules_at k p w)
      → IsMap k (fill_all k p i rs m) w
  unfolding fill_all
  fill_all-IsMap k p i [] m w valid bound = valid
  fill_all-IsMap k p i (r ∷ rs) m w valid bound =
      fill_all-IsMap k p (suc i) rs (insert (rule_id k r) (p, i) m) w
        (insert-IsMap k m w (rule_id k r) p i valid (omega (arith, bound))) (omega (arith, bound))

  fill_missing-IsMap :
      (k : RuleType) (p : Place) (i : ℕ) (rs : List (Rule k)) (m : Map (Place × ℕ)) (w : World K V)
      → IsMap k m w
      → i + length rs ≤ length (rules_at k p w)
      → IsMap k (fill_missing k p i rs m) w
  unfolding fill_missing
  fill_missing-IsMap k p i [] m w valid bound = valid
  fill_missing-IsMap k p i (r ∷ rs) m w valid bound =
      fill_missing-IsMap k p (suc i) rs _ w
        (elim (Option-cases (m (rule_id k r))) [
          | inl free ↦ rw free (insert-IsMap k m w (rule_id k r) p i valid (omega (arith, bound)))
          | inr (_, taken) ↦ rw taken valid
        ])
        (omega (arith, bound))

insert-has :
    (m : Map (Place × ℕ)) (id j : String) (v : Place × ℕ) → m id ≢ none → insert j v m id ≢ none
insert-has m id j v h e = elim (Bool-cases (j == id)) [
  | inl same ↦ let bad : some v ≡ none = rw same at e in cc
  | inr other ↦ h (rw other at e)
]

insert_here :
    (m : Map (Place × ℕ)) (id j : String) (v : Place × ℕ)
    → (j == id) ≡ true
    → insert j v m id ≢ none
insert_here m id j v same e = let bad : some v ≡ none = rw same at e in cc

fill_all-keeps :
    (k : RuleType) (p : Place) (i : ℕ) (rs : List (Rule k)) (m : Map (Place × ℕ)) (id : String)
    → m id ≢ none
    → fill_all k p i rs m id ≢ none
unfolding fill_all
fill_all-keeps k p i [] m id h = h
fill_all-keeps k p i (r ∷ rs) m id h =
    fill_all-keeps k p (suc i) rs (insert (rule_id k r) (p, i) m) id
      (insert-has m id (rule_id k r) (p, i) h)

-- Every rule of the list is in the map.
fill_all-has :
    (k : RuleType) (p : Place) (i : ℕ) (rs : List (Rule k)) (m : Map (Place × ℕ)) (id : String)
    → has_rule k id rs ≡ true
    → fill_all k p i rs m id ≢ none
unfolding fill_all
fill_all-has k p i [] m id h = cc
fill_all-has k p i (r ∷ rs) m id h = elim (Bool-cases (rule_id k r == id)) [
  | inl here ↦ fill_all-keeps k p (suc i) rs _ id (insert_here m id (rule_id k r) (p, i) here)
  | inr there ↦ fill_all-has k p (suc i) rs _ id (ground arith)
]

fill_missing-keeps :
    (k : RuleType) (p : Place) (i : ℕ) (rs : List (Rule k)) (m : Map (Place × ℕ)) (id : String)
    → m id ≢ none
    → fill_missing k p i rs m id ≢ none
unfolding fill_missing
fill_missing-keeps k p i [] m id h = h
fill_missing-keeps k p i (r ∷ rs) m id h =
    fill_missing-keeps k p (suc i) rs _ id (elim (Option-cases (m (rule_id k r))) [
      | inl free ↦ rw free (insert-has m id (rule_id k r) (p, i) h)
      | inr (_, taken) ↦ rw taken h
    ])

fill_missing-has :
    (k : RuleType) (p : Place) (i : ℕ) (rs : List (Rule k)) (m : Map (Place × ℕ)) (id : String)
    → has_rule k id rs ≡ true
    → fill_missing k p i rs m id ≢ none
unfolding fill_missing
fill_missing-has k p i [] m id h = cc
fill_missing-has k p i (r ∷ rs) m id h = elim (Bool-cases (rule_id k r == id)) [
  | inl here ↦ fill_missing-keeps k p (suc i) rs _ id (elim (Option-cases (m (rule_id k r))) [
    | inl free ↦ rw free (insert_here m id (rule_id k r) (p, i) here)
    | inr (x, taken) ↦
        let same = (eq_iff (rule_id k r) id).0 here in
        rw taken (λ e. let bad : some x ≡ none = sym taken ∙ ap m same ∙ e in cc)
  ])
  | inr there ↦ fill_missing-has k p (suc i) rs _ id (ground arith)
]

module _ {K V : Type 0} where
  IsMap-IsIn :
      (k : RuleType) (m : Map (Place × ℕ)) (w : World K V) (id : String)
      → IsMap k m w
      → m id ≢ none
      → IsIn k (m id) w
  IsMap-IsIn k m w id valid has = elim (Option-cases (m id)) [
    | inl missing ↦ absurd (has missing)
    | inr ((p, i), here) ↦ (p, i, here, valid id p i here)
  ]

  empty-IsMap : (k : RuleType) (w : World K V) → IsMap k empty_map w
  empty-IsMap k w id p i e = cc

  -- The maps of an application of rules: the new rules are those of the job and of the stored
  -- configuration, the old ones those of the stored configuration.
  pub generate_rule_map-new :
      (k : RuleType) (w : World K V) (id : String)
      → (has_rule k id (rules_at k in_job w) ≡ true)
        ⊎ (has_rule k id (rules_at k in_config w) ≡ true)
      → IsIn k ((generate_rule_map k apply_func w).0 id) w
  unfolding generate_rule_map
  generate_rule_map-new k w id h =
      let job = rules_at k in_job w in
      let stored = rules_at k in_config w in
      let all = fill_all k in_job 0 job empty_map in
      IsMap-IsIn k (fill_missing k in_config 0 stored all) w id
        (fill_missing-IsMap k in_config 0 stored all w
          (fill_all-IsMap k in_job 0 job empty_map w (empty-IsMap k w) (omega arith)) (omega arith))
        (elim h [
          | inl new ↦
              fill_missing-keeps k in_config 0 stored all id
                (fill_all-has k in_job 0 job empty_map id new)
          | inr old ↦ fill_missing-has k in_config 0 stored all id old
        ])

  pub generate_rule_map-old :
      (k : RuleType) (w : World K V) (id : String)
      → has_rule k id (rules_at k in_config w) ≡ true
      → IsIn k ((generate_rule_map k apply_func w).1 id) w
  unfolding generate_rule_map
  generate_rule_map-old k w id h =
      let stored = rules_at k in_config w in
      IsMap-IsIn k (fill_all k in_config 0 stored empty_map) w id
        (fill_all-IsMap k in_config 0 stored empty_map w (empty-IsMap k w) (omega arith))
        (fill_all-has k in_config 0 stored empty_map id h)
