-- ===== src/DnsServer/Store/Unique.antt =====
-- datastore/boltdb.go: the invariant that no two zones hold an entry with one key, and what a deletion
-- does to a store that has it.
use mep.Prelude.{
  ℕ, String, ◌≡◌, ◌≢◌, ◌⊎◌, sym, ◌∙◌, inl, inr, Bool, true, false, none, some, arith, ◌==◌, eq_iff,
  Result, ok, err, Bool-cases, Option-cases, Result-cases,
}
use mep.DnsServer.Records.{ResourceRecord, rr_type_map}
use mep.DnsServer.Backend.{Json, Bolt, IsBolt, update, update-ok, update-err}
use mep.DnsServer.Store.{key_of, del_loop, del_resource_record}
use mep.DnsServer.Store.Lookup.{stored, get_of_stored, del_loop-Deleted}
use mep.DnsServer.Store.Set.{WasSet, get-set_ne}

module _ {B S : Type 0} (bolt : Bolt B S) where
  pub record IsUnique (s : S) : Type 0 where
    pub same_zone : (k : B) (y z : String) → bolt.get s y k ≢ none → bolt.get s z k ≢ none → y ≡ z

module _ {B S : Type 0} (json : Json B) (bolt : Bolt B S) where
  -- what a successful `DelResourceRecord` has done: deleted the entry in one zone that had it
  pub record WasDeleted (host rrtypestr : String) (s s' : S) : Type 0 where
    pub t : ℕ
    pub zone : String
    pub known : rr_type_map rrtypestr ≡ some t
    pub held : bolt.get s zone (key_of json host t) ≢ none
    pub deleted : bolt.delete s zone (key_of json host t) ≡ some s'

  abbrev del_update : B → S → Result Bool × S
  del_update key s = update bolt (λ s. del_loop bolt key (bolt.zones s) s false) s

  -- The transaction either leaves the store as it was, or has deleted the key in one zone.
  del_update_cases :
      (key : B) (s : S)
      → (((del_update key s).1 ≡ s) × ((del_update key s).0 ≢ ok true))
        ⊎ ((z : String) × (bolt.get s z key ≢ none)
            × (bolt.delete s z key ≡ some (del_update key s).1)
            × ((del_update key s).0 ≡ ok true))
  del_update_cases key s =
      let fn = λ (s : S). del_loop bolt key (bolt.zones s) s false in
      let u = del_update key s in
      elim (Result-cases u.0) [
        | inr (e, failed) ↦ inl (update-err bolt fn s u.1 e (λ i. (failed i, u.1)), λ h. cc)
        | inl (true, done) ↦
            let (body, _) = update-ok bolt fn s u.1 true (λ i. (done i, u.1)) in
            let (z, held, deleted) = del_loop-Deleted bolt key (bolt.zones s) s u.1 true body in
            inr (z, held, deleted, done)
        | inl (false, done) ↦
            let (body, _) = update-ok bolt fn s u.1 false (λ i. (done i, u.1)) in
            let (same, _) = del_loop-Deleted bolt key (bolt.zones s) s u.1 false body in
            inl (same, λ h. cc)
      ]

  -- A failed `DelResourceRecord` changes nothing.
  pub del_resource_record-err :
      (zone host rrtypestr : String) (s s' : S) (e : String)
      → del_resource_record json bolt zone host rrtypestr s ≡ (err e, s')
      → s' ≡ s
  unfolding del_resource_record
  del_resource_record-err zone host rrtypestr s s' e h =
      elim (Option-cases (rr_type_map rrtypestr)) [
        | inl unknown ↦ ground arith
        | inr (t, known) ↦ elim (del_update_cases (key_of json host t) s) [
          | inl (same, _) ↦ ground arith
          | inr (z, held, deleted, done) ↦ absurd (ground arith)
        ]
      ]

  pub del_resource_record-WasDeleted :
      (zone host rrtypestr : String) (s s' : S)
      → del_resource_record json bolt zone host rrtypestr s ≡ (ok tt, s')
      → WasDeleted host rrtypestr s s'
  unfolding del_resource_record
  del_resource_record-WasDeleted zone host rrtypestr s s' h =
      elim (Option-cases (rr_type_map rrtypestr)) [
        | inl unknown ↦ absurd (ground arith)
        | inr (t, known) ↦ elim (del_update_cases (key_of json host t) s) [
          | inl (same, fails) ↦ absurd (ground arith)
          | inr (z, held, deleted, done) ↦ record {
            t = t;
            zone = z;
            known = known;
            held = held;
            deleted = ground arith;
          }
        ]
      ]

module _ {B S : Type 0} (bolt : Bolt B S) where
  -- The key of a deletion is in no zone after it, every other entry stays, and so does uniqueness.
  pub record IsGone (key : B) (s s' : S) : Type 0 where
    pub gone : stored bolt key s' ≡ false
    pub kept : (z : String) (l : B) → key ≢ l → bolt.get s' z l ≡ bolt.get s z l
    pub unique : IsUnique bolt s'

  module _ (law : IsBolt bolt) (key : B) (zone : String) (s s' : S)
      (deleted : bolt.delete s zone key ≡ some s') where
    -- An entry that is left was there before.
    get_before : (z : String) (k : B) → bolt.get s' z k ≢ none → bolt.get s z k ≢ none
    get_before z k h = elim (Bool-cases (zone == z)) [
      | inl same ↦
          let other : key ≢ k = λ e.
            h (rw (← e, ← ((eq_iff zone z).0 same)) (law.get-delete_self s s' zone key deleted)) in
          rw (← (law.get-delete_ne s s' zone z key k deleted (inr other))) h
      | inr differ ↦
          rw
            (← (
              law.get-delete_ne s s' zone z key k deleted
                (inl (λ e. ground (arith, eq_iff zone z)))))
            h
    ]

    deleted-IsGone : IsUnique bolt s → bolt.get s zone key ≢ none → IsGone key s s'
    deleted-IsGone unique held = record {
      gone = elim (Bool-cases (stored bolt key s')) [
        | inr none_left ↦ none_left
        | inl left ↦
            let (z, there) = get_of_stored bolt key s' left in
            let same = unique.same_zone key z zone (get_before z key there) held in
            absurd (there (rw same (law.get-delete_self s s' zone key deleted)))
      ];
      kept = λ z l other. law.get-delete_ne s s' zone z key l deleted (inr other);
      unique = record {
        same_zone = λ k y z hy hz. unique.same_zone k y z (get_before y k hy) (get_before z k hz);
      };
    }

-- A deletion that succeeds on a store with unique keys was of a known type; afterwards no zone holds
-- the name with that type, every entry with another key is as it was, and keys are still unique.
pub del_resource_record-IsGone :
    {B S : Type 0} (json : Json B) (bolt : Bolt B S)
    → IsBolt bolt
    → (zone host rrtypestr : String) (s s' : S) → IsUnique bolt s
    → del_resource_record json bolt zone host rrtypestr s ≡ (ok tt, s')
    → (t : ℕ) × (rr_type_map rrtypestr ≡ some t) × IsGone bolt (key_of json host t) s s'
del_resource_record-IsGone json bolt law zone host rrtypestr s s' unique h =
    let w = del_resource_record-WasDeleted json bolt zone host rrtypestr s s' h in
    (
      w.t,
      w.known,
      deleted-IsGone bolt law (key_of json host w.t) w.zone s s' w.deleted unique w.held,
    )

module _ {B S : Type 0} (json : Json B) (bolt : Bolt B S) (law : IsBolt bolt) where
  module _ (zone : String) (rr : ResourceRecord) (s s' : S)
      (w : WasSet json bolt zone rr s s') where
    -- An entry after a set is the entry that was set, or was there before.
    entry_after :
        (z : String) (k : B)
        → bolt.get s' z k ≢ none
        → ((z ≡ zone) × (key_of json rr.name w.t ≡ k)) ⊎ (bolt.get s z k ≢ none)
    entry_after z k h = elim (Bool-cases (zone == z)) [
      | inr differ ↦
          inr (rw (← (get-set_ne json bolt law w z k (inl (λ e. ground (arith, eq_iff zone z))))) h)
      | inl same ↦ elim (json.bytes_discrete (key_of json rr.name w.t) k) [
        | yes e ↦ inl (sym ((eq_iff zone z).0 same), e)
        | no other ↦ inr (rw (← (get-set_ne json bolt law w z k (inr other))) h)
      ]
    ]

    -- Setting a record keeps keys unique if no other zone holds its key.
    pub set-IsUnique :
        IsUnique bolt s
        → ((z : String) → bolt.get s z (key_of json rr.name w.t) ≢ none → z ≡ zone)
        → IsUnique bolt s'
    set-IsUnique unique only_here = record { same_zone = after }
      where
        after : (k : B) (y z : String) → bolt.get s' y k ≢ none → bolt.get s' z k ≢ none → y ≡ z
        after k y z hy hz = elim (entry_after y k hy) [
          | inl (y_here, e) ↦ elim (entry_after z k hz) [
            | inl (z_here, _) ↦ y_here ∙ sym z_here
            | inr z_old ↦ y_here ∙ sym (only_here z (rw e z_old))
          ]
          | inr y_old ↦ elim (entry_after z k hz) [
            | inl (z_here, e) ↦ only_here y (rw e y_old) ∙ sym z_here
            | inr z_old ↦ unique.same_zone k y z y_old z_old
          ]
        ]
