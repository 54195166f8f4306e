-- ===== src/DnsServer/Backend.antt =====
-- What the data store uses and does not implement: the Bolt database (go.etcd.io/bbolt), JSON, and
-- the parsing of addresses. Each is a record of its operations and of the documented facts that the
-- data store relies on.
use mep.Prelude.{
  ℕ, String, ◌≡◌, ◌≢◌, ◌⊎◌, Bool, true, false, ◌||◌, Option, none, some, List, ◌==◌, contains,
  Result, ok, err, if◌then◌else◌, arith, inl, inr, Result-cases, arith, inl, inr, Result-cases,
}
use mep.DnsServer.Records.{RrKey, RrValue}

-- `json.Marshal` of the keys and the values, and `json.Unmarshal` of a value. `B` is `[]byte`. The
-- texts are valid UTF-8, where `json.Marshal` loses nothing; it does not fail on these types.
pub record Json (B : Type 0) : Type 0 where
  pub key_bytes : RrKey → B
  pub value_bytes : RrValue → B
  pub parse_value : B → Option RrValue
  pub size : B → ℕ
  pub bytes_discrete : Discrete B
  pub key_bytes_injective : (a b : RrKey) → key_bytes a ≡ key_bytes b → a ≡ b
  pub parse_value-value_bytes : (v : RrValue) → parse_value (value_bytes v) ≡ some v
  pub size-value_bytes : (v : RrValue) → size (value_bytes v) ≢ 0

-- The buckets in the `zone` bucket of the database, as one transaction sees them; `S` is their
-- contents. A failure of `create`, `put` or `delete` is `none`.
pub record Bolt (B S : Type 0) : Type 0 where
  -- the keys in the order of `ForEach`
  pub zones : S → List String
  -- `Bucket(zone) != nil`
  pub is_bucket : S → String → Bool
  -- `CreateBucketIfNotExists(zone)`
  pub create : S → String → Option S
  -- `Bucket(zone).Get(key)`, `none` also where there is no bucket
  pub get : S → String → B → Option B
  pub put : S → String → B → B → Option S
  pub delete : S → String → B → Option S
  -- whether the commit at the end of `Update` succeeds
  pub commits : S → Bool

-- Bolt's documented behaviour. The `zone` bucket holds buckets only.
pub record IsBolt {B S : Type 0} (b : Bolt B S) : Type 0 where
  pub contains-zones : (s : S) (z : String) → contains (b.zones s) z ≡ b.is_bucket s z
  pub get_absent : (s : S) (z : String) (k : B) → b.is_bucket s z ≡ false → b.get s z k ≡ none
  pub is_bucket-create :
      (s s' : S) (z j : String)
      → b.create s z ≡ some s'
      → b.is_bucket s' j ≡ (z == j || b.is_bucket s j)
  pub get-create :
      (s s' : S) (z j : String) (k : B) → b.create s z ≡ some s' → b.get s' j k ≡ b.get s j k
  pub is_bucket-put :
      (s s' : S) (z j : String) (k v : B)
      → b.put s z k v ≡ some s'
      → b.is_bucket s' j ≡ b.is_bucket s j
  pub get-put_self :
      (s s' : S) (z : String) (k v : B) → b.put s z k v ≡ some s' → b.get s' z k ≡ some v
  pub get-put_ne :
      (s s' : S) (z j : String) (k l v : B)
      → b.put s z k v ≡ some s'
      → (z ≢ j) ⊎ (k ≢ l)
      → b.get s' j l ≡ b.get s j l
  pub is_bucket-delete :
      (s s' : S) (z j : String) (k : B)
      → b.delete s z k ≡ some s'
      → b.is_bucket s' j ≡ b.is_bucket s j
  pub get-delete_self :
      (s s' : S) (z : String) (k : B) → b.delete s z k ≡ some s' → b.get s' z k ≡ none
  pub get-delete_ne :
      (s s' : S) (z j : String) (k l : B)
      → b.delete s z k ≡ some s'
      → (z ≢ j) ⊎ (k ≢ l)
      → b.get s' j l ≡ b.get s j l

-- `db.Update(fn)`: an error of `fn`, or of the commit, leaves the database as it was.
unfoldable pub update {ℓ} :
    {B S : Type 0} {A : Type ℓ} → Bolt B S → (S → Result (S × A)) → S → Result A × S
update b fn s = elim (fn s) [
  | err e ↦ (err e, s)
  | ok (s', a) ↦ if b.commits s' then (ok a, s') else (err "commit failed", s)
]

-- package net: `ParseIP`, `IsMulticast`, `Equal(IPv4bcast)` and `String`
pub record Net (Ip : Type 0) : Type 0 where
  pub parse_ip : String → Option Ip
  pub is_multicast : Ip → Bool
  pub is_bcast : Ip → Bool
  pub to_string : Ip → String

module _ {B S A : Type 0} (b : Bolt B S) (fn : S → Result (S × A)) (s : S) where
  -- A transaction that succeeds has run its body and committed.
  pub update-ok :
      (s' : S) (a : A) → update b fn s ≡ (ok a, s') → (fn s ≡ ok (s', a)) × (b.commits s' ≡ true)
  unfolding update
  update-ok s' a h = elim (Result-cases (fn s)) [
    | inr (e, failed) ↦ absurd (ground arith)
    | inl ((t, c), done) ↦ ground arith
  ]

  -- A transaction that fails changes nothing.
  pub update-err : (s' : S) (e : String) → update b fn s ≡ (err e, s') → s' ≡ s
  unfolding update
  update-err s' e h = ground arith
