-- ===== src/DnsServer/Names.antt =====
-- Names: `strings.ToLower`, and the zones that a name may belong to (datastore/boltdb.go).
use Prim.Native.Char.{Char, code}
use Prim.Native.String.{char_at}
use mep.Prelude.{
  ℕ, zero, suc, ◌-◌, String, len, slice, Bool, true, false, ◌&&◌, Option, none, some, List, [], ◌∷◌,
  leb, if◌then◌else◌, contains,
}

-- An upper-case letter of ASCII becomes its lower-case letter. Names in the DNS are ASCII.
lower_char : Char → Char
lower_char c =
    if leb 65 (code c) && leb (code c) 90
    then char_at "abcdefghijklmnopqrstuvwxyz" (code c - 65)
    else c

unfoldable pub to_lower : String → String
unfolding lower_char
to_lower String.[] = String.[]
to_lower (String.◌∷◌ c s) = String.◌∷◌ (lower_char c) (to_lower s)

-- a key set to true in a Go map that serves as a set
abbrev pub add_zone : String → List String → List String
add_zone z zones = if contains zones z then zones else z ∷ zones

-- The loop of `GetResourceRecord` over the labels of `q` from the offset `off`, on fuel. `next_label`
-- is `dns.NextLabel`: the offset of the next label, and whether the end was reached.
unfoldable pub label_zones :
    (String → ℕ → ℕ × Bool) → ℕ → String → ℕ → List String → Option (List String)
label_zones next_label zero q off zones = none
label_zones next_label (suc fuel) q off zones =
    let (off', end) = next_label q off in
    let zones' = add_zone (slice q off (len q)) zones in
    elim end [ true ↦ some zones' | false ↦ label_zones next_label fuel q off' zones' ]

-- The candidate zones of a name: its suffixes at label boundaries, and the default zone.
unfoldable pub zones_of : (String → ℕ → ℕ × Bool) → String → Option (List String)
zones_of next_label q = elim (label_zones next_label (suc (len q)) q 0 []) [
  | none ↦ none
  | some zones ↦ some (add_zone "." zones)
]
