-- ===== src/MepServer/Backend/Laws.antt =====
-- mepserver/common/extif/backend/datastore.go: what is relied on of etcd, and what the functions of the
-- file then do to a key.
use mep.Prelude.{
  String, ◌≡◌, refl, ap, sym, ◌∙◌, inl, inr, true, false, Option, none, some, ◌==◌, eq_refl,
  if◌then◌else◌, starts_with, starts_with-append, arith, Bool-cases,
}
use text.Mathlib.TextLemmas.{append-nil}
use mep.MepServer.Backend.{Registry, put_record, delete_record}

-- The key-value store of etcd: a put that succeeds sets its key, a deletion of a prefix that succeeds
-- removes the keys that start with it, and what fails changes nothing.
pub record IsRegistry {B K : Type 0} (etcd : Registry B K) : Type 0 where
  pub kv : K → String → Option B
  pub put_ok :
      (p : String) (b : B) (s : K)
      → (etcd.put p b s).0 ≡ true
      → (q : String) → kv (etcd.put p b s).1 q ≡ (if p == q then some b else kv s q)
  pub put_err :
      (p : String) (b : B) (s : K)
      → (etcd.put p b s).0 ≡ false
      → (q : String) → kv (etcd.put p b s).1 q ≡ kv s q
  pub delete_ok :
      (p : String) (s : K)
      → (etcd.delete p s).0 ≡ true
      → (q : String) → kv (etcd.delete p s).1 q ≡ (if starts_with q p then none else kv s q)
  pub delete_err :
      (p : String) (s : K)
      → (etcd.delete p s).0 ≡ false
      → (q : String) → kv (etcd.delete p s).1 q ≡ kv s q

-- Every text starts with itself.
pub starts_with_refl : (s : String) → starts_with s s ≡ true
starts_with_refl s = ap (λ x. starts_with x s) (sym (append-nil s)) ∙ starts_with-append s ""

module _ {B K : Type 0} (etcd : Registry B K) (law : IsRegistry etcd) where
  pub put_record-kv :
      (p : String) (b : B) (s : K)
      → (put_record etcd p b s).0 ≡ 0
      → law.kv (put_record etcd p b s).1 p ≡ some b
  unfolding put_record
  put_record-kv p b s h = elim (Bool-cases (etcd.put p b s).0) [
    | inl ok ↦ law.put_ok p b s ok p ∙ (rw (eq_refl p) refl)
    | inr bad ↦ let never : 6 ≡ 0 = rw bad at h in absurd (omega (arith, never))
  ]

  pub delete_record-kv :
      (p : String) (s : K) (q : String)
      → (delete_record etcd p s).0 ≡ 0
      → law.kv (delete_record etcd p s).1 q ≡ (if starts_with q p then none else law.kv s q)
  unfolding delete_record
  delete_record-kv p s q h = elim (Bool-cases (etcd.delete p s).0) [
    | inl ok ↦ law.delete_ok p s ok q
    | inr bad ↦ let never : 6 ≡ 0 = rw bad at h in absurd (omega (arith, never))
  ]
