-- ===== src/MepServer/Appd/Exact.antt =====
-- mepserver/common/appd/appd.go: which rules an update creates and which it deletes.
use mep.Prelude.{
  ℕ, String, ◌≡◌, refl, ap, sym, ◌∙◌, inl, inr, Bool, true, false, ◌&&◌, ◌||◌, not, List, [], ◌∷◌,
  ◌++◌, ◌==◌, eqb, any, eq_iff, if◌then◌else◌, arith, Bool-cases, Option-cases,
}
use mep.MepServer.Backend.{put_entry}
use mep.MepServer.Sync.{RuleType, Rule, rule_id, RuleStatus, oper_create, oper_modify, oper_delete}
use mep.MepServer.Sync.Pointers.{has_rule}
use mep.MepServer.Appd.Classify.{
  RuleData, RuleMap, deep_equal, find_data, entry_of, store_map, input_maps, created_or_modified,
  deleted, process_rules_from_id_map, update_statuses,
}
use mep.MepServer.Appd.Entries.{
  has_key, unmarked, IsKeyed, has_key-put_entry, IsKeyed-put_entry, unmarked-put_entry,
  unmarked_absent, find_data-some, find_data-none,
}

-- a status asks for the method at the rule
abbrev pub has_status : ℕ → String → List RuleStatus → Bool
has_status method id sts = any (λ st. st.id == id && eqb st.method method) sts

any-++ : {A : Type 0} (p : A → Bool) (xs ys : List A) → any p (xs ++ ys) ≡ (any p xs || any p ys)
any-++ p [] ys = refl
any-++ p (x ∷ xs) ys = ground (arith, any-++ p xs ys)

module _ (k : RuleType) where
  store_map-IsKeyed :
      (rs : List (Rule k)) (m : RuleMap k) → IsKeyed k m → IsKeyed k (store_map k rs m)
  unfolding store_map
  store_map-IsKeyed [] m keyed = keyed
  store_map-IsKeyed (r ∷ rs) m keyed = store_map-IsKeyed rs _ (IsKeyed-put_entry k _ _ m keyed)

  store_map-has_key :
      (id : String) (rs : List (Rule k)) (m : RuleMap k)
      → has_key k id (store_map k rs m) ≡ (has_rule k id rs || has_key k id m)
  unfolding store_map
  store_map-has_key id [] m = refl
  store_map-has_key id (r ∷ rs) m =
      let m' = put_entry (rule_id k r) (entry_of k false r) m in
      ground (
        arith,
        store_map-has_key id rs m',
        has_key-put_entry k id (rule_id k r) (entry_of k false r) m,
      )

  store_map-unmarked :
      (id : String) (rs : List (Rule k)) (m : RuleMap k)
      → IsKeyed k m
      → unmarked k id (store_map k rs m) ≡ (has_rule k id rs || unmarked k id m)
  unfolding store_map
  store_map-unmarked id [] m keyed = refl
  store_map-unmarked id (r ∷ rs) m keyed =
      let m' = put_entry (rule_id k r) (entry_of k false r) m in
      ground (
        arith,
        store_map-unmarked id rs m' (IsKeyed-put_entry k _ _ m keyed),
        unmarked-put_entry k id (rule_id k r) (entry_of k false r) m keyed,
      )

  -- an entry of the input that is not marked is to be created, one of the stored rules deleted
  created_or_modified-has_status :
      (method : ℕ) (id : String) (stored m : RuleMap k)
      → eqb oper_modify method ≡ false
      → has_status method id (created_or_modified k stored m)
        ≡ (eqb oper_create method && unmarked k id m)
  unfolding created_or_modified
  created_or_modified-has_status method id stored [] other = ground arith
  created_or_modified-has_status method id stored ((j, d) ∷ m) other =
      let rest = created_or_modified-has_status method id stored m other in
      elim (Bool-cases d.is_existing_rule) [
        | inl marked ↦ rw marked (elim (Option-cases (find_data k j stored)) [
          | inl missing ↦ rw missing (ground (arith, rest))
          | inr (old, found) ↦ rw found (elim (Bool-cases (deep_equal k d.rule old.rule)) [
            | inl same ↦ rw same (ground (arith, rest))
            | inr differs ↦ rw differs (ground (arith, rest))
          ])
        ])
        | inr new ↦ rw new (ground (arith, rest))
      ]

  deleted-has_status :
      (method : ℕ) (id : String) (m : RuleMap k)
      → has_status method id (deleted k m) ≡ (eqb oper_delete method && unmarked k id m)
  unfolding deleted
  deleted-has_status method id [] = ground arith
  deleted-has_status method id ((j, d) ∷ m) = elim (Bool-cases d.is_existing_rule) [
    | inl marked ↦ rw marked (ground (arith, deleted-has_status method id m))
    | inr new ↦ rw new (ground (arith, deleted-has_status method id m))
  ]

  same_key : (j id : String) (m : RuleMap k) → (j == id) ≡ true → has_key k id m ≡ has_key k j m
  same_key j id m h = ap (λ x. has_key k x m) (sym ((eq_iff j id).0 h))

  -- the marks after the loop over the rules of the input
  input_maps-marked :
      (id : String) (rs : List (Rule k)) (input stored : RuleMap k)
      → IsKeyed k stored
      → unmarked k id (input_maps k rs input stored).1
        ≡ (unmarked k id stored && not (has_rule k id rs))
  unfolding input_maps
  input_maps-marked id [] input stored keyed = ground arith
  input_maps-marked id (r ∷ rs) input stored keyed =
      let j = rule_id k r in
      elim (Option-cases (find_data k j stored)) [
        | inl missing ↦
            let input' = put_entry j (entry_of k false r) input in
            let here = same_key j id stored in
            rw (input_maps, missing)
              (ground (
                arith,
                input_maps-marked id rs input' stored keyed,
                here,
                find_data-none k j stored missing,
                unmarked_absent k id stored,
              ))
        | inr (d, found) ↦
            let d' = record d { is_existing_rule = true } in
            let input' = put_entry j (entry_of k true r) input in
            let stored' = put_entry j d' stored in
            rw (input_maps, found)
              (ground (
                arith,
                input_maps-marked id rs input' stored' (IsKeyed-put_entry k j d' stored keyed),
                unmarked-put_entry k id j d' stored keyed,
              ))
      ]

  input_maps-new :
      (id : String) (rs : List (Rule k)) (input stored : RuleMap k)
      → IsKeyed k input
      → unmarked k id (input_maps k rs input stored).0
        ≡ (if has_rule k id rs then not (has_key k id stored) else unmarked k id input)
  unfolding input_maps
  input_maps-new id [] input stored keyed = refl
  input_maps-new id (r ∷ rs) input stored keyed =
      let j = rule_id k r in
      elim (Option-cases (find_data k j stored)) [
        | inl missing ↦
            let e = entry_of k false r in
            rw (input_maps, missing)
              (ground (
                arith,
                input_maps-new id rs (put_entry j e input) stored
                    (IsKeyed-put_entry k j e input keyed),
                unmarked-put_entry k id j e input keyed,
                same_key j id stored,
                find_data-none k j stored missing,
              ))
        | inr (d, found) ↦
            let e = entry_of k true r in
            let d' = record d { is_existing_rule = true } in
            rw (input_maps, found)
              (ground (
                arith,
                input_maps-new id rs (put_entry j e input) (put_entry j d' stored)
                    (IsKeyed-put_entry k j e input keyed),
                unmarked-put_entry k id j e input keyed,
                has_key-put_entry k id j d' stored,
                same_key j id stored,
                find_data-some k j stored found,
              ))
      ]

-- Where the visit of a map meets just its entries, an update creates the rules of the request that are
-- not stored and no others, and deletes the stored rules that are not in the request and no others.
pub update_statuses-has_status :
    (k : RuleType) (order : RuleMap k → RuleMap k)
    → ((p : String × RuleData k → Bool) (m : RuleMap k) → any p (order m) ≡ any p m)
    → (input on_store : List (Rule k)) (id : String)
    → (has_status oper_create id (update_statuses k order input on_store)
        ≡ (has_rule k id input && not (has_rule k id on_store)))
      × (has_status oper_delete id (update_statuses k order input on_store)
          ≡ (has_rule k id on_store && not (has_rule k id input)))
unfolding update_statuses process_rules_from_id_map
update_statuses-has_status k order visits input on_store id =
    let stored = store_map k on_store [] in
    let keyed : IsKeyed k stored = store_map-IsKeyed k on_store [] tt in
    let maps = input_maps k input [] stored in
    let split : (method : ℕ)
        → eqb oper_modify method ≡ false
        → has_status method id (update_statuses k order input on_store) ≡ (
            eqb oper_create method && unmarked k id maps.0
            || eqb oper_delete method && unmarked k id maps.1) =
      λ method other.
        any-++ _ (created_or_modified k maps.1 (order maps.0)) _
        ∙ ground (
          arith,
          created_or_modified-has_status k method id maps.1 (order maps.0) other,
          deleted-has_status k method id (order maps.1),
          visits (λ e. e.0 == id && not e.1.is_existing_rule) maps.0,
          visits (λ e. e.0 == id && not e.1.is_existing_rule) maps.1,
        ) in
    let known = store_map-has_key k id on_store [] in
    let new = input_maps-new k id input [] stored tt in
    let gone = input_maps-marked k id input [] stored keyed in
    let all_new = store_map-unmarked k id on_store [] tt in
    (
      split oper_create refl ∙ ground (arith, known, new),
      split oper_delete refl ∙ ground (arith, gone, all_new),
    )
