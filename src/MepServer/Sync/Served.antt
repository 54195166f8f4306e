-- ===== src/MepServer/Sync/Served.antt =====
-- mepserver/mm5/task/sync.go: the rules that a task creates come to the data plane.
use mep.Prelude.{
  ◌+◌, ℕ, String, ◌≡◌, ◌≢◌, ◌⊎◌, refl, ap, sym, ◌∙◌, subst, subst⁻¹, inl, inr, Bool, true, false,
  List, [], ◌∷◌, ◌++◌, ◌==◌, ltb, map, All, Map, snoc-append, arith,
}
use mathlib.Core.Option.{some-injective}
use mep.MepServer.Sync.{
  RuleType, rule_type_dns, rule_type_traffic, apply_func, RuleStatus, statuses, done, World, Env,
  TaskInfo, wait_mp2, wait_local,
}
use mep.MepServer.Sync.Operations.{Place, Pointer, generate_rule_map}
use mep.MepServer.Sync.Rules.{
  apply_failed, apply_status_failed, apply_of, move_on, apply_state, process_entry_apply,
  handle_loop, handle_rules,
}
use mep.MepServer.Sync.Pointers.{IsIn, generate_rule_map-new}
use mep.MepServer.Sync.Moved.{IsFresh}
use mep.MepServer.Sync.Progress.{written, process_entry_apply-done}
use mep.MepServer.Sync.Written.{IsDistinct, IsFresh-All, IsFresh-nil, handle_rules-done}
use mep.MepServer.Sync.Serving.{IsServing, cell-Succeeds}
use mep.MepServer.Sync.Total.{IsAlike, IsIn-alike, after_call_done, then_on_done, apply_state_total}
use mep.MepServer.Sync.Complete.{
  IsReady-alike, handle_rules_total, IsStaged, IsReady, process_entry_apply_total,
}
use mep.MepServer.Backend.Laws.{IsRegistry}
use mep.MepServer.Sync.Worker.{without_operation, run_task}
use mep.MepServer.Sync.Finish.{after_loops, run_task-write, end_task-written}
use mep.MepServer.Sync.Success.{write_config-ok}
use mep.MepServer.Sync.Plane.{
  IsPlane, IsCreating, IsCreating-alike, IsAdded, to_create, cell_at, cell-cell_at,
  first_cell-IsAdded, second_cell-same, move_on-plane,
}

module _ {B K V : Type 0} (env : Env B K V) (t : TaskInfo) (p : IsPlane env t)
    (ok : IsServing env) where
  cell_at-done :
      (k : RuleType) (state : ℕ) (id : String) (new old : Pointer) (w : World K V)
      → IsIn k new w
      → (apply_of env t (cell_at env t p k state) id new old w).0 ≡ done
  cell_at-done k state id new old w inside =
      let (c, here, succeeds) = cell-Succeeds env t ok k 0 state (omega arith) in
      let e = some-injective _ _ (sym (cell-cell_at env t p k state) ∙ here) in
      ap (λ x. (apply_of env t x id new old w).0) e ∙ succeeds id new old w inside (inl refl)

  -- what a round does to the services is what its cell does
  round-plane :
      (k : RuleType) (state : ℕ) (id : String) (new old : Pointer) (w : World K V)
      → IsIn k new w
      → (apply_state env t k new old (to_create id) state w).1.plane
        ≡ (apply_of env t (cell_at env t p k state) id new old w).1.plane
  unfolding apply_state
  round-plane k state id new old w inside =
      let ended = apply_of env t (cell_at env t p k state) id new old w in
      let next = move_on env t k id (apply_status_failed k) (state + 1) in
      let work : ltb state 0 ≡ false = ground arith in
      let e : apply_state env t k new old (to_create id) state w ≡ next ended.1 =
        rw (cell-cell_at env t p k state, apply_state)
          (rw work (
            after_call_done (apply_failed k) next ended
              (cell_at-done k state id new old w inside))) in
      ap (λ r. r.1.plane) e ∙ move_on-plane env t p k id (apply_status_failed k) (state + 1) ended.1

  entry-IsAdded :
      (k : RuleType) (id : String) (new old : Pointer) (w : World K V) (pre suf : List RuleStatus)
      → (t.dns_type == "local") ≡ false
      → statuses k w.status ≡ pre ++ to_create id ∷ suf
      → IsFresh id pre
      → IsCreating k w
      → IsIn k new w
      → IsAdded env t p k id w.plane (process_entry_apply env t k new old (to_create id) w).1.plane
  unfolding process_entry_apply
  entry-IsAdded k id new old w pre suf remote e fresh creating inside =
      let round = apply_state env t k new old (to_create id) in
      let (h1, alike1) =
        apply_state_total env t ok k new old (to_create id) wait_mp2 w pre (to_create id) suf e
          fresh refl (omega arith, inside, inl refl) in
      let w1 = (round wait_mp2 w).1 in
      let first : IsAdded env t p k id w.plane w1.plane =
        subst⁻¹ (IsAdded env t p k id w.plane) (round-plane k wait_mp2 id new old w inside)
          (at_first k id new old w remote creating inside) in
      let inside1 = IsIn-alike k new alike1 inside in
      let creating1 = IsCreating-alike k w w1 alike1 creating in
      let same : (j : RuleType) (i : String)
          → p.holds j i (round wait_local w1).1.plane ≡ p.holds j i w1.plane =
        λ j i.
          ap (p.holds j i) (round-plane k wait_local id new old w1 inside1)
          ∙ at_second k id new old w1 creating1 inside1 j i in
      subst⁻¹ (λ r. IsAdded env t p k id w.plane r.1.plane)
        (then_on_done (round wait_mp2 w) (round wait_local) h1)
        (same k id ∙ first.0, λ j i other. same j i ∙ first.1 j i other)
    where
      at_first :
          (k : RuleType) (id : String) (new old : Pointer) (w : World K V)
          → (t.dns_type == "local") ≡ false
          → IsCreating k w
          → IsIn k new w
          → IsAdded env t p k id w.plane
              (apply_of env t (cell_at env t p k wait_mp2) id new old w).1.plane
      at_first rule_type_dns = first_cell-IsAdded env t p rule_type_dns
      at_first rule_type_traffic = first_cell-IsAdded env t p rule_type_traffic

      at_second :
          (k : RuleType) (id : String) (new old : Pointer) (w : World K V)
          → IsCreating k w
          → IsIn k new w
          → (j : RuleType) (i : String)
          → p.holds j i (apply_of env t (cell_at env t p k wait_local) id new old w).1.plane
            ≡ p.holds j i w.plane
      at_second rule_type_dns = second_cell-same env t p rule_type_dns
      at_second rule_type_traffic = second_cell-same env t p rule_type_traffic

  All-IsIn :
      (k : RuleType) (new : Map (Place × ℕ)) (w w' : World K V) (is : List String)
      → IsAlike w w'
      → All (λ i. IsIn k (new i) w) is
      → All (λ i. IsIn k (new i) w') is
  All-IsIn k new w w' [] alike h = tt
  All-IsIn k new w w' (i ∷ is) alike h =
      (IsIn-alike k (new i) alike h.0, All-IsIn k new w w' is alike h.1)

  All-to_create :
      (id : String) (is : List String)
      → All (λ x. id ≢ x.id) (map to_create is)
      → All (λ x. id ≢ x) is
  All-to_create id [] h = tt
  All-to_create id (i ∷ is) h = (h.0, All-to_create id is h.1)

  staged-IsIn :
      (k : RuleType) (w : World K V) (is : List String)
      → All (IsStaged k w) (map to_create is)
      → All (λ i. IsIn k ((generate_rule_map k apply_func w).0 i) w) is
  staged-IsIn k w [] h = tt
  staged-IsIn k w (i ∷ is) h = (
    elim h.0 [
      | inl (_, here) ↦ generate_rule_map-new k w i (inl here)
      | inr (bad, _, _) ↦ absurd (omega (arith, bad))
    ],
    staged-IsIn k w is h.1,
  )

  -- the loop: the rules of its statuses come to the data plane, and others are left
  loop-added :
      (k : RuleType) (new old : Map (Place × ℕ)) (is : List String) (w : World K V)
      (pre : List RuleStatus)
      → (t.dns_type == "local") ≡ false
      → statuses k w.status ≡ pre ++ map to_create is
      → All (λ x. IsFresh x.id pre) (map to_create is)
      → IsDistinct (map to_create is)
      → IsCreating k w
      → All (λ i. IsIn k (new i) w) is
      → let v = (handle_loop env t k apply_func new old (map to_create is) w).1.plane in
        All (λ i. p.holds k i v ≡ true) is
        × ((j : RuleType) (i : String)
            → (j ≢ k) ⊎ All (λ x. i ≢ x) is
            → p.holds j i v ≡ p.holds j i w.plane)
  unfolding handle_loop
  loop-added k new old [] w pre remote e fresh distinct creating inside = (tt, λ j i other. refl)
  loop-added k new old (id ∷ is) w pre remote e fresh distinct creating inside =
      let rest = map to_create is in
      let entry = process_entry_apply env t k (new id) (old id) (to_create id) w in
      let (h1, alike1) =
        process_entry_apply_total env t ok k (new id) (old id) (to_create id) w pre rest e fresh.0
          (omega arith, inside.0, inl refl) in
      let moved =
        process_entry_apply-done env t k (new id) (old id) (to_create id) w pre rest e fresh.0
          (omega arith) h1 in
      let added =
        entry-IsAdded k id (new id) (old id) w pre rest remote e fresh.0 creating inside.0 in
      let (later, others) =
        loop-added k new old is entry.1 (pre ++ written (to_create id) ∷ []) remote
          (moved.here ∙ sym (snoc-append pre (written (to_create id)) rest))
          (IsFresh-All pre (to_create id) rest fresh.1 distinct.0) distinct.1
          (IsCreating-alike k w entry.1 alike1 creating)
          (All-IsIn k new w entry.1 is alike1 inside.1) in
      let loop = handle_loop env t k apply_func new old rest in
      subst⁻¹
        (λ r.
          All (λ i. p.holds k i r.1.plane ≡ true) (id ∷ is)
          × ((j : RuleType) (i : String)
              → (j ≢ k) ⊎ All (λ x. i ≢ x) (id ∷ is)
              → p.holds j i r.1.plane ≡ p.holds j i w.plane))
        (after_call_done _ loop entry h1)
        (
          (others k id (inr (All-to_create id is distinct.0)) ∙ added.0, later),
          λ j i other. elim other [
            | inl type ↦ others j i (inl type) ∙ added.1 j i (inl type)
            | inr (differ, differs) ↦ others j i (inr differs) ∙ added.1 j i (inr differ)
          ],
        )

  -- the loop with its maps
  rules-added :
      (k : RuleType) (is : List String) (w : World K V)
      → (t.dns_type == "local") ≡ false
      → statuses k w.status ≡ map to_create is
      → IsReady k w
      → IsCreating k w
      → let v = (handle_rules env t k apply_func w).1.plane in
        All (λ i. p.holds k i v ≡ true) is
        × ((j : RuleType) (i : String) → j ≢ k → p.holds j i v ≡ p.holds j i w.plane)
  unfolding handle_rules
  rules-added k is w remote e (distinct, bounds, staged) creating =
      let (new, old) = generate_rule_map k apply_func w in
      let distinct' : IsDistinct (map to_create is) = subst IsDistinct e distinct in
      let staged' : All (IsStaged k w) (map to_create is) = subst (All (IsStaged k w)) e staged in
      let (here, others) =
        loop-added k new old is w [] remote e (IsFresh-nil _) distinct' creating
          (staged-IsIn k w is staged') in
      let same : handle_rules env t k apply_func w
          ≡ handle_loop env t k apply_func new old (map to_create is) w =
        ap (λ l. handle_loop env t k apply_func new old l w) e in
      subst⁻¹
        (λ r.
          All (λ i. p.holds k i r.1.plane ≡ true) is
          × ((j : RuleType) (i : String) → j ≢ k → p.holds j i r.1.plane ≡ p.holds j i w.plane))
        same (here, λ j i other. others j i (inl other))

  -- A task over statuses to create rules, whose rules stand in the job and are active or without a state,
  -- has brought them all to the data plane.
  pub run_task-added :
      (w : World K V) (dns traffic : List String)
      → IsRegistry env.registry
      → (t.dns_type == "local") ≡ false
      → statuses rule_type_dns w.status ≡ map (to_create) dns
      → statuses rule_type_traffic w.status ≡ map (to_create) traffic
      → IsReady rule_type_dns w
      → IsReady rule_type_traffic w
      → IsCreating rule_type_dns w
      → IsCreating rule_type_traffic w
      → let v = (run_task env t w).1.plane in
        All (λ i. p.holds rule_type_dns i v ≡ true) dns
        × All (λ i. p.holds rule_type_traffic i v ≡ true) traffic
  run_task-added w dns traffic law remote e1 e2 ready1 ready2 creating1 creating2 =
      let (h1, alike1) = handle_rules_total env t ok rule_type_dns w ready1 in
      let w1 = (handle_rules env t rule_type_dns apply_func w).1 in
      let same = (handle_rules-done env t rule_type_dns w ready1.0 ready1.1 h1).there in
      let ready = IsReady-alike rule_type_traffic w w1 alike1 same ready2 in
      let (h2, alike2) = handle_rules_total env t ok rule_type_traffic w1 ready in
      let w2 = (after_loops env t w).1 in
      let (bytes, encoded) = ok.config (without_operation env t w2.job) in
      let e =
        run_task-write env t w (ready1.0, ready1.1) (ready2.0, ready2.1) h1 h2
        ∙ end_task-written env t w2 bytes encoded
            (write_config-ok env t law ok w2.job.operation bytes w2.store) in
      let (dns_in, _) = rules-added rule_type_dns dns w remote e1 ready1 creating1 in
      let (traffic_in, others) =
        rules-added rule_type_traffic traffic w1 remote (same ∙ e2) ready
          (IsCreating-alike rule_type_traffic w w1 alike1 creating2) in
      subst⁻¹
        (λ r.
          All (λ i. p.holds rule_type_dns i r.1.plane ≡ true) dns
          × All (λ i. p.holds rule_type_traffic i r.1.plane ≡ true) traffic)
        e (All-kept (λ i. others rule_type_dns i types_differ) dns dns_in, traffic_in)
    where
      types_differ : rule_type_dns ≢ rule_type_traffic
      types_differ e = cc

      All-kept :
          {f g : String → Bool}
          → ((i : String) → g i ≡ f i)
          → (is : List String) → All (λ i. f i ≡ true) is
          → All (λ i. g i ≡ true) is
      All-kept same [] h = tt
      All-kept same (i ∷ is) h = (same i ∙ h.0, All-kept same is h.1)
