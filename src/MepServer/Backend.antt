-- ===== src/MepServer/Backend.antt =====
-- mepserver/common/extif/backend/datastore.go: the records of mepserver in etcd. The client of etcd is
-- a record of functions; a read and a deletion take all keys that start with the given path.
pub mod Laws
use Prim.Native.Char.{Char, code}
use Prim.Native.String
use mep.Prelude.{
  ℕ, String, len, Bool, true, false, ◌&&◌, Option, none, some, List, [], ◌∷◌, ◌==◌, eqb,
  if◌then◌else◌,
}

-- `TxnWithCmp` with `OpGet` and `OpDel` on a prefix, and `OpPut`; `B` is `[]byte`, `S` the contents.
-- A read that fails is `none`; a write or a deletion answers whether it succeeded.
pub record Registry (B S : Type 0) : Type 0 where
  pub get : String → S → Option (List (String × B))
  pub put : String → B → S → Bool × S
  pub delete : String → S → Bool × S

-- the codes of common/util/const.go
abbrev pub parse_info_err : ℕ
parse_info_err = 4

abbrev pub subscription_not_found : ℕ
subscription_not_found = 5

abbrev pub operate_data_with_etcd_err : ℕ
operate_data_with_etcd_err = 6

-- `filepath.Base`: the part behind the last slash that has a part behind it
is_slash : Char → Bool
is_slash c = eqb (code c) 47

only_slashes : String → Bool
unfolding is_slash
only_slashes String.[] = true
only_slashes (String.◌∷◌ c s) = is_slash c && only_slashes s

last_part : String → String → String
unfolding is_slash only_slashes
last_part read String.[] = read
last_part read (String.◌∷◌ c s) =
    let here = last_part (String.◌++◌ read (String.◌∷◌ c String.[])) s in
    let anew = last_part "" s in
    if is_slash c then (if only_slashes s then read else anew) else here

unfoldable pub base : String → String
unfolding only_slashes last_part
base path = if eqb (len path) 0 then "." else if only_slashes path then "/" else last_part "" path

-- `m[k] = v` in a map that is a list of its entries
abbrev pub put_entry : {B : Type 0} → String → B → List (String × B) → List (String × B)
put_entry k v [] = (k, v) ∷ []
put_entry k v ((j, w) ∷ entries) =
    let rest = put_entry k v entries in if j == k then (k, v) ∷ entries else (j, w) ∷ rest

abbrev pub by_base : {B : Type 0} → List (String × B) → List (String × B) → List (String × B)
by_base [] found = found
by_base ((k, v) ∷ kvs) found = by_base kvs (put_entry (base k) v found)

module _ {B S : Type 0} (etcd : Registry B S) where
  -- the first record under the path, `none` for nil, and an error code
  unfoldable pub get_record : String → S → Option B × ℕ
  get_record path s = elim (etcd.get path s) [
    | none ↦ (none, operate_data_with_etcd_err)
    | some [] ↦ (none, subscription_not_found)
    | some ((_, value) ∷ _) ↦ (some value, 0)
  ]

  -- the records under the path by the last parts of their keys; nil, which no caller tells from the
  -- empty map, is the empty list
  unfoldable pub get_records : String → S → List (String × B) × ℕ
  get_records path s = elim (etcd.get path s) [
    | none ↦ ([], operate_data_with_etcd_err)
    | some kvs ↦ (by_base kvs [], 0)
  ]

  unfoldable pub put_record : String → B → S → ℕ × S
  put_record path value s =
      let (ok, s') = etcd.put path value s in ((if ok then 0 else operate_data_with_etcd_err), s')

  unfoldable pub delete_record : String → S → ℕ × S
  delete_record path s =
      let (ok, s') = etcd.delete path s in ((if ok then 0 else operate_data_with_etcd_err), s')

  unfoldable pub delete_paths : List String → Bool → S → ℕ × S
  delete_paths [] continue_on_failure s = (0, s)
  delete_paths (path ∷ paths) continue_on_failure s =
      let (code, s') = delete_record path s in
      let rest = delete_paths paths continue_on_failure s' in
      if eqb code 0 then rest else if continue_on_failure then rest else (code, s')
