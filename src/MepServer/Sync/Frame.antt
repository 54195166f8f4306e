-- ===== src/MepServer/Sync/Frame.antt =====
-- mepserver/mm5/task/sync.go: what an operation on a rule leaves alone. It changes the data plane or
-- the DNS server, and the state of the rules that its pointers point to.
use mep.Prelude.{
  suc, map, String, zero, sym, length-map, List, ◌∷◌, [], ◌≢◌, ℕ, String, ◌≡◌, ◌≢◌, ◌⊎◌, refl, ap,
  ◌∙◌, inl, inr, ◌<◌, Bool, true, false, none, some, ◌==◌, if◌then◌else◌, get_elem?, set, length,
  get_elem?_of_lt, Bool-cases, Option-cases,
}
use mep.MepServer.DnsRule.{active_state, inactive_state}
use mathlib.Core.Option.{some-injective}
use mep.MepServer.Sync.{
  rule_id, Config, RuleType, rule_type_dns, rule_type_traffic, Rule, rule_state, with_state, rules,
  with_rules, Outcome, World,
}
use mep.MepServer.Sync.Operations.{
  Place, in_job, in_config, Pointer, rules_at, put_rule, activated, activate, call, add_rule,
  set_rule, delete_rule,
}

map-set :
    {A C : Type 0} (f : A → C) (xs : List A) (i : ℕ) (x y : A)
    → get_elem? xs i ≡ some x
    → f y ≡ f x
    → map f (set xs i y) ≡ map f xs
map-set f [] i x y here same = refl
map-set f (z ∷ xs) zero x y here same =
    ap (λ a. a ∷ map f xs) (same ∙ ap f (sym (some-injective _ _ here)))
map-set f (z ∷ xs) (suc i) x y here same = ap (◌∷◌ (f z)) (map-set f xs i x y here same)

-- the identifiers of the rules of a type in a configuration
abbrev pub ids : (k : RuleType) → List (Rule k) → List String
ids k rs = map (rule_id k) rs

-- Lists with the same identifiers have as many rules.
pub same_ids-counts :
    (k : RuleType) (rs rs' : List (Rule k)) → ids k rs ≡ ids k rs' → length rs ≡ length rs'
same_ids-counts k rs rs' e =
    sym (length-map rs (rule_id k)) ∙ ap length e ∙ length-map rs' (rule_id k)

ids-with_rules :
    (k : RuleType) (i : ℕ) (r : Rule k) (st : String) (c : Config) (j : RuleType)
    → get_elem? (rules k c) i ≡ some r
    → ids j (rules j (with_rules k (set (rules k c) i (with_state k st r)) c)) ≡ ids j (rules j c)
ids-with_rules rule_type_dns i r st c rule_type_dns here =
    map-set (rule_id rule_type_dns) c.app_dns_rule i r _ here refl
ids-with_rules rule_type_dns i r st c rule_type_traffic here = refl
ids-with_rules rule_type_traffic i r st c rule_type_dns here = refl
ids-with_rules rule_type_traffic i r st c rule_type_traffic here =
    map-set (rule_id rule_type_traffic) c.app_traffic_rule i r _ here refl

-- a rule without a state as an active one, and a configuration of such rules
abbrev pub normal : (k : RuleType) → Rule k → Rule k
normal k r = if rule_state k r == "" then with_state k active_state r else r

abbrev pub normal_config : Config → Config
normal_config c = record c {
  app_dns_rule = map (normal rule_type_dns) c.app_dns_rule;
  app_traffic_rule = map (normal rule_type_traffic) c.app_traffic_rule;
}

normal-active :
    (k : RuleType) (r : Rule k)
    → normal k (with_state k active_state r) ≡ with_state k active_state r
normal-active rule_type_dns r = refl
normal-active rule_type_traffic r = refl

normal_config-with_rules :
    (k : RuleType) (i : ℕ) (r : Rule k) (st : String) (c : Config)
    → get_elem? (rules k c) i ≡ some r
    → normal k (with_state k st r) ≡ normal k r
    → normal_config (with_rules k (set (rules k c) i (with_state k st r)) c) ≡ normal_config c
normal_config-with_rules rule_type_dns i r st c here same =
    ap (λ l. record (normal_config c) { app_dns_rule = l })
      (map-set (normal rule_type_dns) c.app_dns_rule i r _ here same)
normal_config-with_rules rule_type_traffic i r st c here same =
    ap (λ l. record (normal_config c) { app_traffic_rule = l })
      (map-set (normal rule_type_traffic) c.app_traffic_rule i r _ here same)

module _ {K V : Type 0} where
  pub record IsTouched (w w' : World K V) : Type 0 where
    pub status : w'.status ≡ w.status
    pub store : w'.store ≡ w.store
    pub operation : w'.job.operation ≡ w.job.operation
    pub rule_ids : (k : RuleType) (p : Place) → ids k (rules_at k p w') ≡ ids k (rules_at k p w)
    pub job : normal_config w'.job ≡ normal_config w.job

  pub IsTouched-refl : (w : World K V) → IsTouched w w
  IsTouched-refl w = record {
    status = refl;
    store = refl;
    operation = refl;
    rule_ids = λ k p. refl;
    job = refl;
  }

  pub IsTouched-trans : {w w1 w2 : World K V} → IsTouched w w1 → IsTouched w1 w2 → IsTouched w w2
  IsTouched-trans a b = record {
    status = b.status ∙ a.status;
    store = b.store ∙ a.store;
    operation = b.operation ∙ a.operation;
    rule_ids = λ k p. b.rule_ids k p ∙ a.rule_ids k p;
    job = b.job ∙ a.job;
  }

  -- a list written back, seen from a place and a type
  ids-put_rule :
      (k : RuleType) (p : Place) (i : ℕ) (r : Rule k) (st : String) (w : World K V) (j : RuleType)
      (q : Place)
      → get_elem? (rules_at k p w) i ≡ some r
      → ids j (rules_at j q (put_rule k p i (with_state k st r) w)) ≡ ids j (rules_at j q w)
  ids-put_rule k in_job i r st w j in_job here = ids-with_rules k i r st w.job j here
  ids-put_rule k in_job i r st w j in_config here = refl
  ids-put_rule k in_config i r st w j q here = elim (Option-cases w.config) [
    | inl missing ↦ rw missing
    | inr (c, stored) ↦ by_place q c stored
  ]
    where
      by_place :
          (q : Place) (c : Config)
          → w.config ≡ some c
          → ids j (rules_at j q (put_rule k in_config i (with_state k st r) w))
            ≡ ids j (rules_at j q w)
      by_place in_job c stored = rw stored
      by_place in_config c stored = rw stored (ids-with_rules k i r st c j (rw stored at here))

  operation-put_rule :
      (k : RuleType) (p : Place) (i : ℕ) (r : Rule k) (w : World K V)
      → ((put_rule k p i r w).status ≡ w.status)
        × ((put_rule k p i r w).store ≡ w.store)
        × ((put_rule k p i r w).job.operation ≡ w.job.operation)
        × ((put_rule k p i r w).plane ≡ w.plane)
  operation-put_rule rule_type_dns in_job i r w = (refl, refl, refl, refl)
  operation-put_rule rule_type_traffic in_job i r w = (refl, refl, refl, refl)
  operation-put_rule k in_config i r w = elim (Option-cases w.config) [
    | inl missing ↦ rw missing (refl, refl, refl, refl)
    | inr (c, here) ↦ rw here (refl, refl, refl, refl)
  ]

  job-put_rule :
      (k : RuleType) (p : Place) (i : ℕ) (r : Rule k) (st : String) (w : World K V)
      → get_elem? (rules_at k p w) i ≡ some r
      → normal k (with_state k st r) ≡ normal k r
      → normal_config (put_rule k p i (with_state k st r) w).job ≡ normal_config w.job
  job-put_rule k in_job i r st w here same = normal_config-with_rules k i r st w.job here same
  job-put_rule k in_config i r st w here same = elim (Option-cases w.config) [
    | inl missing ↦ rw missing refl
    | inr (c, stored) ↦ rw stored refl
  ]

  put_rule-IsTouched :
      (k : RuleType) (p : Place) (i : ℕ) (r : Rule k) (st : String) (w : World K V)
      → get_elem? (rules_at k p w) i ≡ some r
      → normal k (with_state k st r) ≡ normal k r
      → IsTouched w (put_rule k p i (with_state k st r) w)
  put_rule-IsTouched k p i r st w here same =
      let (status, store, operation, _) = operation-put_rule k p i (with_state k st r) w in
      record {
        status = status;
        store = store;
        operation = operation;
        rule_ids = λ j q. ids-put_rule k p i r st w j q here;
        job = job-put_rule k p i r st w here same;
      }

  pub activated-IsTouched :
      (k : RuleType) (p : Place) (i : ℕ) (r : Rule k) (w : World K V)
      → get_elem? (rules_at k p w) i ≡ some r
      → IsTouched w (activated k p i r w).1 × ((activated k p i r w).1.plane ≡ w.plane)
  activated-IsTouched k p i r w here = elim (Bool-cases (rule_state k r == "")) [
    | inl empty ↦ rw empty (
      put_rule-IsTouched k p i r active_state w here (normal-active k r ∙ (rw empty refl)),
      (operation-put_rule k p i (with_state k active_state r) w).3,
    )
    | inr given ↦ rw given (IsTouched-refl w, refl)
  ]

  -- as many rules as before
  pub IsTouched-counts :
      {w w' : World K V}
      → IsTouched w w'
      → (k : RuleType) (p : Place) → length (rules_at k p w') ≡ length (rules_at k p w)
  IsTouched-counts touched k p = same_ids-counts k _ _ (touched.rule_ids k p)

  -- What the normalisation of a rule leaves: a panic on a pointer that points nowhere, or the rule.
  pub activate-cases :
      (k : RuleType) (q : Pointer) (w : World K V)
      → (activate k q w ≡ none)
        ⊎ ((r : Rule k) × (w' : World K V) × (activate k q w ≡ some (r, w'))
            × IsTouched w w'
            × (w'.plane ≡ w.plane))
  unfolding activate
  activate-cases k none w = inl refl
  activate-cases k (some (p, i)) w = elim (Option-cases (get_elem? (rules_at k p w) i)) [
    | inl missing ↦ inl (rw (missing, activate))
    | inr (x, here) ↦
        let (touched, plane) = activated-IsTouched k p i x w here in
        inr ((activated k p i x w).0, (activated k p i x w).1, rw (here, activate), touched, plane)
  ]

  -- A pointer into a list never panics.
  pub activate_total :
      (k : RuleType) (p : Place) (i : ℕ) (w : World K V)
      → i < length (rules_at k p w)
      → activate k (some (p, i)) w ≢ none
  unfolding activate
  activate_total k p i w h e =
      let (x, here) = get_elem?_of_lt (rules_at k p w) i h in
      let bad : some (activated k p i x w) ≡ none = rw (here, activate) at e in cc

  rules_at-plane :
      (k : RuleType) (p : Place) (v : V) (w : World K V)
      → rules_at k p (record w { plane = v }) ≡ rules_at k p w
  rules_at-plane k in_job v w = refl
  rules_at-plane k in_config v w = refl

  pub call-IsTouched : (f : V → Bool × V) (w : World K V) → IsTouched w (call f w).1
  call-IsTouched f w = record {
    status = refl;
    store = refl;
    operation = refl;
    rule_ids = λ k p. ap (ids k) (rules_at-plane k p (f w.plane).1 w);
    job = refl;
  }

  pub add_rule-IsTouched :
      (k : RuleType) (add : String → Rule k → V → Bool × V) (id : String) (new old : Pointer)
      (w : World K V)
      → IsTouched w (add_rule k add id new old w).1
  unfolding add_rule
  add_rule-IsTouched k add id new old w = elim (activate-cases k new w) [
    | inl nil ↦ rw (nil, add_rule) (IsTouched-refl w)
    | inr (r, w1, e, touched, _) ↦ elim (Bool-cases (rule_state k r == active_state)) [
      | inl active ↦
          rw (e, add_rule) (rw active (IsTouched-trans touched (call-IsTouched (add id r) w1)))
      | inr inactive ↦ rw (e, add_rule) (rw inactive touched)
    ]
  ]

  -- one of three calls, chosen by two tests
  choice-IsTouched :
      (a b : Bool) (f g h : V → Bool × V) (w : World K V)
      → IsTouched w (if a then call f w else if b then call g w else call h w).1
  choice-IsTouched true b f g h w = call-IsTouched f w
  choice-IsTouched false true f g h w = call-IsTouched g w
  choice-IsTouched false false f g h w = call-IsTouched h w

  pub set_rule-IsTouched :
      (k : RuleType) (add delete change : String → Rule k → V → Bool × V) (id : String)
      (new old : Pointer) (w : World K V)
      → IsTouched w (set_rule k add delete change id new old w).1
  unfolding set_rule
  set_rule-IsTouched k add delete change id new old w = elim (activate-cases k new w) [
    | inl nil ↦ rw (nil, set_rule) (IsTouched-refl w)
    | inr (r, w1, e, touched, _) ↦ elim (activate-cases k old w1) [
      | inl nil ↦ rw (e, set_rule) (rw nil touched)
      | inr (x, w2, e2, touched2, _) ↦
          rw (e, set_rule)
            (rw e2 (
              IsTouched-trans (IsTouched-trans touched touched2)
                (choice-IsTouched _ _ (add id r) (delete id r) (change id r) w2)))
    ]
  ]

  pub delete_rule-IsTouched :
      (k : RuleType) (delete : String → World K V → Outcome × World K V) (id : String)
      (old : Pointer) (w : World K V)
      → ((w1 : World K V) → IsTouched w1 (delete id w1).1)
      → IsTouched w (delete_rule k delete id old w).1
  unfolding delete_rule
  delete_rule-IsTouched k delete id old w frame = elim (activate-cases k old w) [
    | inl nil ↦ rw (nil, delete_rule) (IsTouched-refl w)
    | inr (r, w1, e, touched, _) ↦ elim (Bool-cases (rule_state k r == inactive_state)) [
      | inl inactive ↦ rw (e, delete_rule) (rw inactive touched)
      | inr active ↦ rw (e, delete_rule) (rw active (IsTouched-trans touched (frame w1)))
    ]
  ]
