-- ===== src/DnsServer/TestDb.antt =====
-- A database in memory that keeps what Bolt documents, and texts of records kept as they are: the
-- backend of the tests.
use native.Mathlib.Decide.{ℕ_discrete}
use mep.Prelude.{
  String, ◌≡◌, ◌≢◌, ◌⊎◌, refl, ap, subst, inl, inr, Bool, true, false, ◌||◌, Option, none, some,
  List, [], ◌∷◌, ◌==◌, eq_iff, contains, if◌then◌else◌, arith, Bool-cases, Option-cases, map,
}
use mathlib.Core.Option.{some-injective}
use mep.DnsServer.Records.{RrKey, RrValue}
use mep.DnsServer.Backend.{Json, Bolt, IsBolt}

-- the bytes of a key, and those of a value
pub data Blob : Type 0 where
  of_key : RrKey → Blob
  of_value : RrValue → Blob

unfoldable pub string_dec : (s t : String) (b : Bool) → (s == t) ≡ b → Dec (s ≡ t)
string_dec s t true same = yes ((eq_iff s t).0 same)
string_dec s t false differ = no (λ e. let same = (eq_iff s t).1 e in ground arith)

unfoldable pub string_discrete : Discrete String
unfolding string_dec
string_discrete s t = string_dec s t (s == t) refl

unfoldable pub strings_discrete : Discrete (List String)
strings_discrete = hlevel string_discrete

unfoldable pub Blob-discrete : Discrete Blob
unfolding ℕ_discrete
Blob-discrete = hlevel (string_discrete, strings_discrete, ℕ_discrete)

-- one zone
abbrev pub Bucket : Type 0
Bucket = Blob → Option Blob

abbrev pick : {P : Type 0} → Dec P → Option Blob → Option Blob → Option Blob
pick (yes _) o n = o
pick (no _) o n = n

pick_yes : {P : Type 0} (d : Dec P) (o n : Option Blob) → P → pick d o n ≡ o
pick_yes (yes _) o n p = refl
pick_yes (no q) o n p = absurd (q p)

pick_no : {P : Type 0} (d : Dec P) (o n : Option Blob) → ¬ P → pick d o n ≡ n
pick_no (yes p) o n q = absurd (q p)
pick_no (no _) o n q = refl

abbrev change : Blob → Option Blob → Bucket → Bucket
change k o b l = pick (Blob-discrete k l) o (b l)

-- the zones, the latest first
abbrev pub Db : Type 0
Db = List (String × Bucket)

unfoldable pub find_bucket : Db → String → Option Bucket
find_bucket [] z = none
find_bucket ((y, b) ∷ s) z = if y == z then some b else find_bucket s z

abbrev is_found : Option Bucket → Bool
is_found none = false
is_found (some b) = true

abbrev get_in : Option Bucket → Blob → Option Blob
get_in none k = none
get_in (some b) k = b k

unfoldable pub modify : (Bucket → Bucket) → Db → String → Option Db
modify f [] z = none
modify f ((y, b) ∷ s) z =
    let rest = modify f s z in
    if y == z then some ((y, f b) ∷ s) else elim rest [ none ↦ none | some s' ↦ some ((y, b) ∷ s') ]

abbrev create_in : Db → String → Db
create_in s z = if is_found (find_bucket s z) then s else (z, λ k. none) ∷ s

modify_self :
    (f : Bucket → Bucket) (s s' : Db) (z : String)
    → modify f s z ≡ some s'
    → (b : Bucket) × (find_bucket s z ≡ some b) × (find_bucket s' z ≡ some (f b))
unfolding modify find_bucket
modify_self f [] s' z h = absurd (ground arith)
modify_self f ((y, b) ∷ s) s' z h = elim (Bool-cases (y == z)) [
  | inl same ↦
      let e : (y, f b) ∷ s ≡ s' = some-injective _ _ (rw same at h) in
      (b, rw same, subst (λ x. find_bucket x z ≡ some (f b)) e (rw same))
  | inr other ↦ elim (Option-cases (modify f s z)) [
    | inl missing ↦ absurd (ground arith)
    | inr (rest, found) ↦
        let e : (y, b) ∷ rest ≡ s' = some-injective _ _ (rw (other, found) at h) in
        let (c, was, now) = modify_self f s rest z found in
        (c, rw (other) was, subst (λ x. find_bucket x z ≡ some (f c)) e (rw other now))
  ]
]

modify_ne :
    (f : Bucket → Bucket) (s s' : Db) (z j : String)
    → modify f s z ≡ some s'
    → z ≢ j
    → find_bucket s' j ≡ find_bucket s j
unfolding modify find_bucket
modify_ne f [] s' z j h differ = absurd (ground arith)
modify_ne f ((y, b) ∷ s) s' z j h differ = elim (Bool-cases (y == z)) [
  | inl same ↦
      let e : (y, f b) ∷ s ≡ s' = some-injective _ _ (rw same at h) in
      let apart : y == j ≡ false = ground (arith, eq_iff y z, eq_iff y j) in
      subst (λ x. find_bucket x j ≡ find_bucket ((y, b) ∷ s) j) e (rw apart)
  | inr other ↦ elim (Option-cases (modify f s z)) [
    | inl missing ↦ absurd (ground arith)
    | inr (rest, found) ↦
        let e : (y, b) ∷ rest ≡ s' = some-injective _ _ (rw (other, found) at h) in
        let ih = modify_ne f s rest z j found differ in
        subst (λ x. find_bucket x j ≡ find_bucket ((y, b) ∷ s) j) e (rw ih)
  ]
]

abbrev parse : Blob → Option RrValue
parse (of_value v) = some v
parse (of_key k) = none

abbrev pub db_json : Json Blob
db_json = record {
  key_bytes = of_key;
  value_bytes = of_value;
  parse_value = parse;
  size = λ b. 1;
  bytes_discrete = Blob-discrete;
  key_bytes_injective = λ a b e. ground arith;
  parse_value-value_bytes = λ v. refl;
  size-value_bytes = λ v. omega arith;
}

abbrev pub db_bolt : Bolt Blob Db
db_bolt = record {
  zones = λ s. map (λ x. x.0) s;
  is_bucket = λ s z. is_found (find_bucket s z);
  create = λ s z. some (create_in s z);
  get = λ s z k. get_in (find_bucket s z) k;
  put = λ s z k v. modify (change k (some v)) s z;
  delete = λ s z k. modify (change k none) s z;
  commits = λ s. true;
}

contains-zones : (s : Db) (z : String) → contains (map (λ x. x.0) s) z ≡ is_found (find_bucket s z)
unfolding find_bucket
contains-zones [] z = refl
contains-zones ((y, b) ∷ s) z =
    let ih = contains-zones s z in
    elim (Bool-cases (y == z)) [
      | inl same ↦ ground (arith, eq_iff y z)
      | inr other ↦ ground (arith, eq_iff y z)
    ]

create-find :
    (s : Db) (z j : String)
    → (is_found (find_bucket (create_in s z) j) ≡ (z == j || is_found (find_bucket s j)))
      × ((k : Blob) → get_in (find_bucket (create_in s z) j) k ≡ get_in (find_bucket s j) k)
unfolding find_bucket
create-find s z j = elim (Option-cases (find_bucket s z)) [
  | inr (b, there) ↦ elim (Bool-cases (z == j)) [
    | inl same ↦
        let at_j = subst (λ x. find_bucket s x ≡ some b) ((eq_iff z j).0 same) there in
        (rw there (rw (same, at_j)), λ k. rw there)
    | inr other ↦ (rw there (rw other), λ k. rw there)
  ]
  | inl absent ↦ elim (Bool-cases (z == j)) [
    | inl same ↦
        let at_j = subst (λ x. find_bucket s x ≡ none) ((eq_iff z j).0 same) absent in
        (rw absent (rw same), λ k. rw absent (rw same (rw at_j)))
    | inr other ↦ (rw absent (rw other), λ k. rw absent (rw other))
  ]
]

modify-found :
    (f : Bucket → Bucket) (s s' : Db) (z j : String)
    → modify f s z ≡ some s'
    → is_found (find_bucket s' j) ≡ is_found (find_bucket s j)
modify-found f s s' z j h = elim (Bool-cases (z == j)) [
  | inl same ↦
      let (b, was, now) = modify_self f s s' z h in
      let e = (eq_iff z j).0 same in
      subst (λ x. is_found (find_bucket s' x) ≡ is_found (find_bucket s x)) e (rw (was, now))
  | inr other ↦ ap is_found (modify_ne f s s' z j h (λ e. ground (arith, eq_iff z j)))
]

change-get_self :
    (o : Option Blob) (s s' : Db) (z : String) (k : Blob)
    → modify (change k o) s z ≡ some s'
    → get_in (find_bucket s' z) k ≡ o
change-get_self o s s' z k h =
    let (b, was, now) = modify_self (change k o) s s' z h in
    rw now (pick_yes (Blob-discrete k k) o (b k) refl)

change-get_ne :
    (o : Option Blob) (s s' : Db) (z j : String) (k l : Blob)
    → modify (change k o) s z ≡ some s'
    → (z ≢ j) ⊎ (k ≢ l)
    → get_in (find_bucket s' j) l ≡ get_in (find_bucket s j) l
change-get_ne o s s' z j k l h differ = elim (Bool-cases (z == j)) [
  | inr other ↦
      ap (λ b. get_in b l) (modify_ne (change k o) s s' z j h (λ e. ground (arith, eq_iff z j)))
  | inl same ↦
      let (b, was, now) = modify_self (change k o) s s' z h in
      let e = (eq_iff z j).0 same in
      let apart : k ≢ l = elim differ [ inl zj ↦ absurd (zj e) | inr kl ↦ kl ] in
      subst (λ x. get_in (find_bucket s' x) l ≡ get_in (find_bucket s x) l) e
        (rw (was, now) (pick_no (Blob-discrete k l) o (b l) apart))
]

pub db_bolt-IsBolt : IsBolt db_bolt
db_bolt-IsBolt = record {
  contains-zones = contains-zones;
  get_absent = λ s z k h. elim (Option-cases (find_bucket s z)) [
    | inl absent ↦ rw absent
    | inr (b, there) ↦ absurd (ground arith)
  ];
  is_bucket-create = λ s s' z j h.
      subst (λ x. is_found (find_bucket x j) ≡ (z == j || is_found (find_bucket s j)))
        (some-injective (create_in s z) s' h) (create-find s z j).0;
  get-create = λ s s' z j k h.
      subst (λ x. get_in (find_bucket x j) k ≡ get_in (find_bucket s j) k)
        (some-injective (create_in s z) s' h) ((create-find s z j).1 k);
  is_bucket-put = λ s s' z j k v h. modify-found (change k (some v)) s s' z j h;
  get-put_self = λ s s' z k v h. change-get_self (some v) s s' z k h;
  get-put_ne = λ s s' z j k l v h d. change-get_ne (some v) s s' z j k l h d;
  is_bucket-delete = λ s s' z j k h. modify-found (change k none) s s' z j h;
  get-delete_self = λ s s' z k h. change-get_self none s s' z k h;
  get-delete_ne = λ s s' z j k l h d. change-get_ne none s s' z j k l h d;
}
