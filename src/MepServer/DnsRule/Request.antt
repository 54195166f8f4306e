-- ===== src/MepServer/DnsRule/Request.antt =====
-- mepserver/mp1/plans/dns_one_update.go: `OnRequest` of `DNSRuleUpdate`, from the stored configuration to
-- the end of the update.
use mep.Prelude.{
  ℕ, String, len, ◌≡◌, ◌≢◌, ◌⊎◌, refl, ap, subst⁻¹, inl, inr, ◌&&◌, not, Option, none, some, ◌==◌,
  eq_iff, eqb, arith, Bool-cases, Option-cases,
}
use mep.MepServer.DnsRule.{
  DnsRule, AppDConfig, Env, DnsRuleUpdate, Verdict, done, active_state, inactive_state, config_path,
  find_rule, validate_inputs, update_to_remote_server, check_etag, on_request,
}
use mep.MepServer.DnsRule.Services.{IsEnv}
use mep.MepServer.DnsRule.Consistency.{
  IsAgreed, IsRevertible, IsSettled, update_to_remote_server-IsSettled,
}

module _ {R B S : Type 0} (env : Env R B S) (law : IsEnv env) where
  -- What a request leaves: nothing is done and changed, or its precondition held, its body was accepted
  -- and the services are settled.
  abbrev pub IsServed : DnsRuleUpdate → AppDConfig R → ℕ → DnsRule → S → Verdict × S → Type 0
  IsServed t c i rule s o =
      (((x : DnsRule) → (y : Option String) → o.0 ≢ done x y) × (o.1 ≡ s))
      ⊎ ((tag : String) × (env.strong_etag rule ≡ some tag)
          × ((len t.if_match ≡ 0) ⊎ (t.if_match ≡ tag))
          × (input : DnsRule) × (t.rest_body ≡ some input)
          × (validate_inputs t.dns_rule_id input rule ≡ none)
          × IsSettled env law t c i rule input.state o.0 o.1)

  check_etag-IsServed :
      (t : DnsRuleUpdate) (c : AppDConfig R) (i : ℕ) (rule : DnsRule) (s : S)
      → IsRevertible env law t c i rule
      → (rule.state ≡ active_state) ⊎ (rule.state ≡ inactive_state)
      → IsAgreed env law t c i rule rule.state s
      → IsServed t c i rule s (check_etag env t c i rule s)
  unfolding check_etag
  check_etag-IsServed t c i rule s r known agreed = elim (Option-cases (env.strong_etag rule)) [
    | inl no_tag ↦ inl (rw (no_tag, check_etag) (λ x y e. ground arith, refl))
    | inr (tag, made) ↦
        elim (Bool-cases (not (eqb (len t.if_match) 0) && not (t.if_match == tag))) [
          | inl mismatch ↦ inl (rw (made, check_etag) (rw mismatch (λ x y e. ground arith, refl)))
          | inr fine ↦
              let e : check_etag env t c i rule s
                  ≡ update_to_remote_server env t c i rule (some tag) s =
                rw (made, check_etag) (rw fine) in
              let precondition : (len t.if_match ≡ 0) ⊎ (t.if_match ≡ tag) =
                elim (Bool-cases (eqb (len t.if_match) 0)) [
                  | inl empty ↦ inl (ground arith)
                  | inr given ↦ inr ((eq_iff t.if_match tag).0 (ground arith))
                ] in
              subst⁻¹ (IsServed t c i rule s) e
                (elim (update_to_remote_server-IsSettled env law t c i rule (some tag) s r known
                  agreed) [
                    | inl unchanged ↦ inl unchanged
                    | inr (input, body, valid, settled) ↦
                        inr (tag, made, precondition, input, body, valid, settled)
                  ])
        ]
  ]

  -- A request for a rule that the stored configuration has, when the three services agree on its state
  -- and the writes that undo an update do their work: either it changes nothing and is not answered as
  -- done, or it named no tag or the tag of the stored rule, its body was accepted, and the services
  -- agree again: on the state asked for if it is answered as done, and on the old one otherwise.
  pub on_request-IsServed :
      (t : DnsRuleUpdate) (c : AppDConfig R) (i : ℕ) (rule : DnsRule) (b : B) (s : S)
      → env.get_record (config_path t.app_instance_id) s ≡ (some b, 0)
      → env.unmarshal b ≡ some c
      → find_rule t.dns_rule_id 0 c.app_dns_rule ≡ some (i, rule)
      → IsRevertible env law t c i rule
      → (rule.state ≡ active_state) ⊎ (rule.state ≡ inactive_state)
      → IsAgreed env law t c i rule rule.state s
      → IsServed t c i rule s (on_request env t s)
  unfolding on_request
  on_request-IsServed t c i rule b s read parsed found r known agreed =
      let e : on_request env t s ≡ check_etag env t c i rule s =
        rw (ap (λ x. x.1) read, on_request) (rw (ap (λ x. x.0) read) (rw parsed (rw found))) in
      subst⁻¹ (IsServed t c i rule s) e (check_etag-IsServed t c i rule s r known agreed)
