-- ===== src/Assoc.antt =====
-- `std::unordered_map<std::string, V>` and protobuf's `map<string, V>`: entries in the order in
-- which the map would be walked. The source relies on no order of a hash map.
pub mod Laws
pub mod Shared
use driftstore.Prelude.{◌≡◌, List, [], ◌∷◌, Option, none, some, ite}
use driftstore.Text.{Text, text_dec}

abbrev pub Assoc {ℓ} : Type ℓ → Type ℓ
Assoc V = List (Text × V)

module _ {ℓ} {V : Type ℓ} where
  -- `m.find(k)`: `it->second`, or `end()`
  unfoldable pub find : Text → Assoc V → Option V
  find k [] = none
  find k ((j, v) ∷ m) = ite (text_dec j k) (some v) (find k m)

  -- `m[k] = v`
  unfoldable pub insert : Text → V → Assoc V → Assoc V
  insert k v [] = (k, v) ∷ []
  insert k v ((j, w) ∷ m) = ite (text_dec j k) ((j, v) ∷ m) ((j, w) ∷ insert k v m)

  -- `m.erase(k)`
  unfoldable pub erase : Text → Assoc V → Assoc V
  erase k [] = []
  erase k ((j, w) ∷ m) = ite (text_dec j k) m ((j, w) ∷ erase k m)

  -- no key twice, which the standard's map keeps by itself
  abbrev pub IsMap : Assoc V → Type ℓ
  IsMap [] = Unit
  IsMap ((k, v) ∷ m) = (find k m ≡ none) × IsMap m
