-- ===== src/MepServer/Appd/Entries.antt =====
-- mepserver/common/appd/appd.go: the maps of `handleRuleUpdate`, whose entries are marked as existing.
use mep.Prelude.{
  String, ◌≡◌, refl, ap, sym, ◌∙◌, inl, inr, Bool, true, false, ◌&&◌, ◌||◌, not, none, some, [],
  ◌∷◌, ◌==◌, eq_iff, any, if◌then◌else◌, arith, Bool-cases, ==-eq_false,
}
use mep.MepServer.Backend.{put_entry}
use mep.MepServer.Sync.{RuleType}
use mep.MepServer.Appd.Classify.{RuleData, RuleMap, find_data}

-- whether a map has the key, and has it with an entry that is not marked
abbrev pub has_key : (k : RuleType) → String → RuleMap k → Bool
has_key k id m = any (λ e. e.0 == id) m

abbrev pub unmarked : (k : RuleType) → String → RuleMap k → Bool
unmarked k id m = any (λ e. e.0 == id && not e.1.is_existing_rule) m

-- every key stands once
abbrev pub IsKeyed : (k : RuleType) → RuleMap k → Type 0
IsKeyed k [] = Unit
IsKeyed k (e ∷ m) = (has_key k e.0 m ≡ false) × IsKeyed k m

==-eq_false_sym : (i j : String) → (i == j) ≡ false → (j == i) ≡ false
==-eq_false_sym i j h = ==-eq_false j i (λ e. ground (arith, eq_iff i j, sym e))

module _ (k : RuleType) where
  pub unmarked_absent :
      (id : String) (m : RuleMap k) → has_key k id m ≡ false → unmarked k id m ≡ false
  unmarked_absent id [] h = refl
  unmarked_absent id ((j, d) ∷ m) h = ground (arith, unmarked_absent id m)

  pub has_key-put_entry :
      (id j : String) (d : RuleData k) (m : RuleMap k)
      → has_key k id (put_entry j d m) ≡ (j == id || has_key k id m)
  has_key-put_entry id j d [] = refl
  has_key-put_entry id j d ((i, e) ∷ m) = elim (Bool-cases (i == j)) [
    | inl same ↦
        let e' : (i == id) ≡ (j == id) = ap (λ x. x == id) ((eq_iff i j).0 same) in
        rw same (ground (arith, e'))
    | inr other ↦ rw other (ground (arith, has_key-put_entry id j d m))
  ]

  pub IsKeyed-put_entry :
      (j : String) (d : RuleData k) (m : RuleMap k) → IsKeyed k m → IsKeyed k (put_entry j d m)
  IsKeyed-put_entry j d [] keyed = (refl, tt)
  IsKeyed-put_entry j d ((i, e) ∷ m) keyed = elim (Bool-cases (i == j)) [
    | inl same ↦ rw same (ap (λ x. has_key k x m) (sym ((eq_iff i j).0 same)) ∙ keyed.0, keyed.1)
    | inr other ↦ rw other (
      has_key-put_entry i j d m ∙ ground (arith, ==-eq_false_sym i j other),
      IsKeyed-put_entry j d m keyed.1,
    )
  ]

  pub unmarked-put_entry :
      (id j : String) (d : RuleData k) (m : RuleMap k)
      → IsKeyed k m
      → unmarked k id (put_entry j d m)
        ≡ (if j == id then not d.is_existing_rule else unmarked k id m)
  unmarked-put_entry id j d [] keyed = ground arith
  unmarked-put_entry id j d ((i, e) ∷ m) keyed = elim (Bool-cases (i == j)) [
    | inl same ↦
        let e' : (i == id) ≡ (j == id) = ap (λ x. x == id) ((eq_iff i j).0 same) in
        let absent : (i == id) ≡ true → unmarked k id m ≡ false =
          λ h. unmarked_absent id m (ap (λ x. has_key k x m) (sym ((eq_iff i id).0 h)) ∙ keyed.0) in
        rw same (ground (arith, e', absent))
    | inr other ↦
        let apart : (j == id) ≡ true → (i == id) ≡ false =
          λ h. ap (λ x. i == x) (sym ((eq_iff j id).0 h)) ∙ other in
        rw other (ground (arith, apart, unmarked-put_entry id j d m keyed.1))
  ]

  -- a key that is looked up is there just if an entry is found
  pub find_data-some :
      (id : String) (m : RuleMap k) {d : RuleData k}
      → find_data k id m ≡ some d
      → has_key k id m ≡ true
  find_data-some id [] {d} h = cc
  find_data-some id ((j, e) ∷ m) {d} h = elim (Bool-cases (j == id)) [
    | inl same ↦ ground arith
    | inr other ↦ ground (arith, find_data-some id m {d = d})
  ]

  pub find_data-none :
      (id : String) (m : RuleMap k) → find_data k id m ≡ none → has_key k id m ≡ false
  find_data-none id [] h = refl
  find_data-none id ((j, e) ∷ m) h = elim (Bool-cases (j == id)) [
    | inl same ↦ ground arith
    | inr other ↦ ground (arith, find_data-none id m)
  ]
