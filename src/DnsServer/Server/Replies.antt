-- ===== src/DnsServer/Server/Replies.antt =====
-- dns.go: which message each query is answered with, and how often the forwarder is asked.
use mep.Prelude.{
  ℕ, zero, suc, ◌+◌, ◌<◌, ◌≤◌, String, len, ◌≡◌, ◌≢◌, ◌⊎◌, refl, ap, subst⁻¹, inl, inr, none, some,
  List, [], ◌∷◌, arith, ◌==◌, eq_iff, eqb, ltb, length, Result, ok, err, errorf, Bool-cases,
  Result-cases,
}
use mep.DnsServer.Records.{Question}
use mep.DnsServer.Server.{
  Msg, DnsLib, Wire, ServerConfig, write_msg, validate_question, forward_loop, forward,
  error_response, reply_of, success_response, balanced, handle_dns,
}

module _ {A : Type 0} (dns : DnsLib A) where
  -- a try that brings no message with the code of success
  abbrev pub IsFailedTry : Msg A → String → ℕ → Type 0
  IsFailedTry req address n = (m : Msg A) → dns.exchange n req address ≡ ok m → m.rcode ≢ 0

  -- What a number of tries brings: the first message with the code of success, or none of them.
  pub record IsForwarded (n : ℕ) (req : Msg A) (address : String) (w : Wire A)
      (r : Result (Msg A) × Wire A) : Type 0 where
    pub written : r.1.written ≡ w.written
    pub first : w.exchanges ≤ r.1.exchanges
    pub bound : r.1.exchanges ≤ n + w.exchanges
    pub outcome :
        ((m : Msg A) × (last : ℕ) × (r.0 ≡ ok m)
          × (m.rcode ≡ 0)
          × (r.1.exchanges ≡ suc last)
          × (w.exchanges ≤ last)
          × (dns.exchange last req address ≡ ok m)
          × ((k : ℕ) → w.exchanges ≤ k → k < last → IsFailedTry req address k))
        ⊎ ((e : String) × (r.0 ≡ err e)
            × (r.1.exchanges ≡ n + w.exchanges)
            × ((k : ℕ) → w.exchanges ≤ k → k < n + w.exchanges → IsFailedTry req address k))

  -- one more failed try before the others
  IsForwarded-suc :
      (n : ℕ) (req : Msg A) (address : String) (w : Wire A) (r : Result (Msg A) × Wire A)
      → IsFailedTry req address w.exchanges
      → IsForwarded n req address (record { exchanges = suc w.exchanges; written = w.written }) r
      → IsForwarded (suc n) req address w r
  IsForwarded-suc n req address w r failed f =
      let earlier : (k : ℕ)
          → w.exchanges ≤ k
          → (suc w.exchanges ≤ k → IsFailedTry req address k)
          → IsFailedTry req address k =
        λ k h later. elim (Bool-cases (eqb k w.exchanges)) [
          | inl same ↦ subst⁻¹ (IsFailedTry req address) (ground arith) failed
          | inr differ ↦ later (ground arith)
        ] in
      record {
        written = f.written;
        first = omega (arith, f.first);
        bound = omega (arith, f.bound);
        outcome = elim f.outcome [
          | inl (m, last, a, b, c, d, e, g) ↦
              inl (m, last, a, b, c, omega (arith, d), e, λ k h l. earlier k h (λ h'. g k h' l))
          | inr (e, a, c, g) ↦
              inr (e, a, omega (arith, c), λ k h l. earlier k h (λ h'. g k h' (omega (arith, l))))
        ];
      }

  forward_loop-IsForwarded :
      (n : ℕ) (req : Msg A) (address : String) (w : Wire A)
      → IsForwarded n req address w (forward_loop dns n req address w)
  unfolding forward_loop
  forward_loop-IsForwarded zero req address w = record {
    written = refl;
    first = omega arith;
    bound = omega arith;
    outcome =
        inr
          ("forward of request was not accepted", refl, omega arith, λ k h l. absurd (omega arith));
  }
  forward_loop-IsForwarded (suc n) req address w =
      let next : Wire A = record { exchanges = suc w.exchanges; written = w.written } in
      let rest = forward_loop-IsForwarded n req address next in
      elim (Result-cases (dns.exchange w.exchanges req address)) [
        | inr (e, failed) ↦
            rw (failed, forward_loop)
              (IsForwarded-suc n req address w (forward_loop dns n req address next) (λ m got. cc)
                rest)
        | inl (ret, got) ↦ elim (Bool-cases (eqb ret.rcode 0)) [
          | inr bad ↦
              rw (got, forward_loop)
                (rw bad (
                  IsForwarded-suc n req address w (forward_loop dns n req address next)
                    (λ m same. ground arith) rest))
          | inl good ↦
              rw (got, forward_loop)
                (rw good (record {
                  written = refl;
                  first = omega arith;
                  bound = omega arith;
                  outcome = inl (
                    ret,
                    w.exchanges,
                    refl,
                    ground arith,
                    refl,
                    omega arith,
                    got,
                    λ k h l. absurd (omega arith),
                  );
                }))
        ]
      ]

-- a question that the server looks up
abbrev pub IsLegal : List Question → Question → Type 0
IsLegal qs q = (qs ≡ q ∷ []) × (len q.name ≢ 0) × (len q.name ≤ 254)

validate_question-IsLegal :
    (qs : List Question)
    → ((validate_question qs ≡ none) × ((q : Question) → ¬ IsLegal qs q))
      ⊎ ((q : Question) × (validate_question qs ≡ some q) × IsLegal qs q)
unfolding validate_question
validate_question-IsLegal [] = inl (refl, λ q (e, _, _). absurd (omega (arith, ap length e)))
validate_question-IsLegal (q ∷ r ∷ rest) =
    inl (refl, λ q (e, _, _). absurd (omega (arith, ap length e)))
validate_question-IsLegal (q ∷ []) = elim (Bool-cases (eqb (len q.name) 0)) [
  | inl empty ↦ inl (rw (empty, validate_question), λ r (e, named, _). ground arith)
  | inr named ↦ elim (Bool-cases (ltb 254 (len q.name))) [
    | inl long ↦ inl (rw (named, validate_question) (rw long), λ r (e, _, short). ground arith)
    | inr short ↦
        inr (q, rw (named, validate_question) (rw short), (refl, ground arith, ground arith))
  ]
]

module _ {A : Type 0} (dns : DnsLib A) where
  -- What a legal query with the opcode of a query leaves on the wire.
  abbrev pub IsLookedUp : ServerConfig → Result (List A) → Msg A → Wire A → Wire A → Type 0
  IsLookedUp config found req w w' =
      ((rrs : List A) × (found ≡ ok rrs)
        × (w' ≡ write_msg (success_response dns (balanced dns config rrs) req) w))
      ⊎ ((e : String) × (found ≡ err e)
          × (config.forwarder ≡ "0.0.0.0")
          × (w' ≡ write_msg (error_response dns req 2) w))
      ⊎ ((e : String) × (found ≡ err e)
          × (config.forwarder ≢ "0.0.0.0")
          × (r : Result (Msg A) × Wire A) × IsForwarded dns 3 req (errorf config.forwarder ":53" "")
              w r
          × (w' ≡ write_msg (reply_of dns req r.0) r.1))

  forwarded-IsLookedUp :
      (config : ServerConfig) (e : String) (req : Msg A) (w : Wire A)
      → IsLookedUp config
          (err e)
          req
          w
          (let (r, w') = forward dns config req w in write_msg (reply_of dns req r) w')
  unfolding forward
  forwarded-IsLookedUp config e req w = elim (Bool-cases (config.forwarder == "0.0.0.0")) [
    | inl off ↦ inr (inl (e, refl, (eq_iff config.forwarder "0.0.0.0").0 off, rw (off, forward)))
    | inr on ↦ inr (
        inr (
          e,
          refl,
          λ same. ground (arith, eq_iff config.forwarder "0.0.0.0"),
          forward_loop dns 3 req (errorf config.forwarder ":53" "") w,
          forward_loop-IsForwarded dns 3 req (errorf config.forwarder ":53" "") w,
          rw (on, forward),
        ))
  ]

  -- What a query leaves on the wire.
  abbrev pub IsHandled :
      ServerConfig → (Question → Result (List A)) → Msg A → Wire A → Wire A → Type 0
  IsHandled config lookup req w w' =
      (((q : Question) → ¬ IsLegal req.question q) × (w' ≡ write_msg (error_response dns req 1) w))
      ⊎ ((q : Question) × IsLegal req.question q
          × (((req.opcode ≢ 0) × (w' ≡ write_msg (error_response dns req 5) w))
              ⊎ ((req.opcode ≡ 0) × IsLookedUp config (lookup q) req w w')))

  -- Every query is answered with exactly one message. A query without exactly one question with a
  -- name of 1 to 254 characters gets a format error, and one with another opcode is refused. The
  -- others get the records of the store, with the authoritative bit set; if there are none, they get
  -- what the forwarder brings within three tries, the first message with the code of success, or a
  -- server failure if there is no such message or no forwarder, and then none is asked.
  pub handle_dns_outcome :
      (config : ServerConfig) (lookup : Question → Result (List A)) (req : Msg A) (w : Wire A)
      → IsHandled config lookup req w (handle_dns dns config lookup req w)
  unfolding handle_dns
  handle_dns_outcome config lookup req w = elim (validate_question-IsLegal req.question) [
    | inl (bad, not_legal) ↦ inl (not_legal, rw (bad, handle_dns))
    | inr (q, good, legal) ↦ elim (Bool-cases (eqb req.opcode 0)) [
      | inr other ↦ inr (q, legal, inl (ground arith, rw (good, handle_dns) (rw other)))
      | inl query ↦ elim (Result-cases (lookup q)) [
        | inl (rrs, found) ↦ inr (
          q,
          legal,
          inr (ground arith, inl (rrs, found, rw (good, handle_dns) (rw query (rw found)))),
        )
        | inr (e, missing) ↦ inr (
          q,
          legal,
          inr (
            ground arith,
            rw (good, handle_dns) (rw query (rw missing (forwarded-IsLookedUp config e req w))),
          ),
        )
      ]
    ]
  ]
