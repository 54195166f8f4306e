-- ===== src/Prelude/Maps.antt =====
-- Go maps with text keys, as functions of the key.
use Prim.Native.String.{String}
use mathlib.Core.Path.{◌≡◌}
use mathlib.Core.Logic.{◌≢◌}
use mathlib.Core.Option.{Option, none, some}
use native.Mathlib.Omega.{arith}
use text.Mathlib.Text.{◌==◌}
use text.Mathlib.TextEquality.{eq_iff}
use text.Mathlib.TextPositions.{eq_refl}
use mep.Prelude.Tests.{if◌then◌else◌}

abbrev pub Map {ℓ} : Type ℓ → Type ℓ
Map A = String → Option A

abbrev pub empty_map {ℓ} : {A : Type ℓ} → Map A
empty_map k = none

-- `m[k] = v`
abbrev pub insert {ℓ} : {A : Type ℓ} → String → A → Map A → Map A
insert k v m j = if k == j then some v else m j

module _ {ℓ} {A : Type ℓ} where
  pub insert_self : (k : String) (v : A) (m : Map A) → insert k v m k ≡ some v
  insert_self k v m = rw (eq_refl k)

  pub insert_ne : (k : String) (v : A) (m : Map A) (j : String) → k ≢ j → insert k v m j ≡ m j
  insert_ne k v m j differ = ground (arith, eq_iff k j)
