-- ===== src/DnsServer/Store/Lookup.antt =====
-- datastore/boltdb.go: what `IsResourceRecordExists` and `DelResourceRecord` find, against the set of
-- entries that the zones hold.
use mep.Prelude.{
  String, ◌≡◌, ◌≢◌, refl, ◌∙◌, inl, inr, Bool, true, false, ◌&&◌, not, Option, none, some, List, [],
  ◌∷◌, arith, eqb, any, All, Result, ok, Bool-cases, Option-cases, All-of_contains, any_of_contains,
  contains_of_any,
}
use mep.DnsServer.Records.{ResourceRecord, rr_type_map}
use mep.DnsServer.Backend.{Json, Bolt, IsBolt}
use mep.DnsServer.Store.{key_of, exists_loop, del_loop, is_resource_record_exists}

abbrev pub is_some {ℓ} : {A : Type ℓ} → Option A → Bool
is_some none = false
is_some (some a) = true

pub is_some_of_ne {ℓ} : {A : Type ℓ} (o : Option A) → o ≢ none → is_some o ≡ true
is_some_of_ne none h = absurd (h refl)
is_some_of_ne (some a) h = refl

module _ {B S : Type 0} (bolt : Bolt B S) where
  -- some zone holds an entry with the key
  abbrev pub stored : B → S → Bool
  stored key s = any (λ z. is_some (bolt.get s z key)) (bolt.zones s)

  -- `ForEach` visits buckets only.
  zones_buckets : IsBolt bolt → (s : S) → All (λ z. bolt.is_bucket s z ≡ true) (bolt.zones s)
  zones_buckets law s =
      All-of_contains (λ z. bolt.is_bucket s z ≡ true) (bolt.zones s)
        (λ z h. rw (← (law.contains-zones s z)) h)

  exists_loop_found :
      (key : B) (zones : List String) (s : S) → exists_loop bolt key zones s true ≡ ok true
  unfolding exists_loop
  exists_loop_found key [] s = refl
  exists_loop_found key (z ∷ zones) s = exists_loop_found key zones s

  -- The loop finds an entry exactly if some zone has one, where every key is a bucket.
  pub exists_loop-any :
      (key : B) (zones : List String) (s : S)
      → All (λ z. bolt.is_bucket s z ≡ true) zones
      → exists_loop bolt key zones s false ≡ ok (any (λ z. is_some (bolt.get s z key)) zones)
  unfolding exists_loop
  exists_loop-any key [] s h = refl
  exists_loop-any key (z ∷ zones) s (here, later) =
      ground (arith, exists_loop_found key zones s, exists_loop-any key zones s later)

  pub exists_loop-stored :
      IsBolt bolt
      → (key : B) (s : S) → exists_loop bolt key (bolt.zones s) s false ≡ ok (stored key s)
  exists_loop-stored law key s = exists_loop-any key (bolt.zones s) s (zones_buckets law s)

  -- An entry in any zone counts, and one that counts is in some zone.
  pub stored_of_get :
      IsBolt bolt → (key : B) (s : S) (z : String) → bolt.get s z key ≢ none → stored key s ≡ true
  stored_of_get law key s z h = elim (Bool-cases (bolt.is_bucket s z)) [
    | inl bucket ↦
        any_of_contains (λ z. is_some (bolt.get s z key)) (bolt.zones s) z
          (law.contains-zones s z ∙ bucket) (is_some_of_ne (bolt.get s z key) h)
    | inr absent ↦ absurd (h (law.get_absent s z key absent))
  ]

  pub get_of_stored :
      (key : B) (s : S) → stored key s ≡ true → (z : String) × (bolt.get s z key ≢ none)
  get_of_stored key s h =
      let (z, listed, passes) =
        contains_of_any (λ z. is_some (bolt.get s z key)) (bolt.zones s) h in
      (z, λ e. ground arith)

  del_loop_found :
      (key : B) (zones : List String) (s : S) → del_loop bolt key zones s true ≡ ok (s, true)
  unfolding del_loop
  del_loop_found key [] s = refl
  del_loop_found key (z ∷ zones) s = del_loop_found key zones s

  -- The loop deletes in one zone that has the key, or finds that none has it.
  abbrev pub Deleted : B → List String → S → S → Bool → Type 0
  Deleted key zones s s' true =
      (z : String) × (bolt.get s z key ≢ none) × (bolt.delete s z key ≡ some s')
  Deleted key zones s s' false = (s' ≡ s) × (any (λ z. is_some (bolt.get s z key)) zones ≡ false)

  Deleted-cons :
      (key : B) (z : String) (zones : List String) (s s' : S) (found : Bool)
      → bolt.get s z key ≡ none
      → Deleted key zones s s' found
      → Deleted key (z ∷ zones) s s' found
  Deleted-cons key z zones s s' true absent h = h
  Deleted-cons key z zones s s' false absent (same, none_left) = (same, rw absent none_left)

  Deleted-here :
      (key : B) (z : String) (zones : List String) (s t s' : S) (found : Bool)
      → bolt.get s z key ≢ none
      → bolt.delete s z key ≡ some t
      → ◌≡◌ {A = Result (S × Bool)} (ok (t, true)) (ok (s', found))
      → Deleted key zones s s' found
  Deleted-here key z zones s t s' true there deleted h = (z, there, deleted ∙ cc)
  Deleted-here key z zones s t s' false there deleted h = cc

  pub del_loop-Deleted :
      (key : B) (zones : List String) (s s' : S) (found : Bool)
      → del_loop bolt key zones s false ≡ ok (s', found)
      → Deleted key zones s s' found
  unfolding del_loop
  del_loop-Deleted key [] s s' true h = cc
  del_loop-Deleted key [] s s' false h = ground arith
  del_loop-Deleted key (z ∷ zones) s s' found h = elim (Bool-cases (bolt.is_bucket s z)) [
    | inr closed ↦ ground arith
    | inl bucket ↦ elim (Option-cases (bolt.get s z key)) [
      | inl absent ↦
          Deleted-cons key z zones s s' found absent
            (del_loop-Deleted key zones s s' found (rw (bucket, absent, del_loop) at h))
      | inr (v, there) ↦ elim (Option-cases (bolt.delete s z key)) [
        | inl failed ↦ ground arith
        | inr (t, deleted) ↦
            Deleted-here key z (z ∷ zones) s t s' found (λ e. cc) deleted
              (rw (bucket, there, deleted, del_loop, del_loop_found key zones t) at h)
      ]
    ]
  ]

module _ {B S : Type 0} (json : Json B) (bolt : Bolt B S) (law : IsBolt bolt) where
  -- An existence check is true exactly for a record of a known type, with a time to live, whose name
  -- and type have an entry in some zone. The zone of the request plays no part.
  pub is_resource_record_exists-eq_stored :
      (zone : String) (rr : ResourceRecord) (s : S)
      → is_resource_record_exists json bolt zone rr s ≡ (elim (rr_type_map rr.type) [
        | none ↦ false
        | some t ↦ not (eqb rr.ttl 0) && stored bolt (key_of json rr.name t) s
      ])
  unfolding is_resource_record_exists
  is_resource_record_exists-eq_stored zone rr s = elim (Option-cases (rr_type_map rr.type)) [
    | inl unknown ↦ rw (unknown, is_resource_record_exists)
    | inr (t, known) ↦
        rw (known, is_resource_record_exists)
          (rw (exists_loop-stored bolt law (key_of json rr.name t) s) (ground arith))
  ]
