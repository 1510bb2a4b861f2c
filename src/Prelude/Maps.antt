-- ===== src/Prelude/Maps.antt =====
-- Go's maps with string keys. A map is the list of its entries in the order in which a `range` loop
-- visits them; Go leaves that order open, so a statement about every list covers every order.
use Prim.Native.String.{String}
use mathlib.Core.Path.{◌≡◌, refl, subst}
use mathlib.Core.Logic.{◌≢◌, inl, inr}
use mathlib.Core.List.{List, [], ◌∷◌}
use mathlib.Core.Option.{Option, none, some}
use native.Mathlib.Omega.{arith}
use text.Mathlib.Text.{◌==◌}
use text.Mathlib.TextEquality.{eq_iff}
use cell_routing_from_scratc.Prelude.Tests.{if◌then◌else◌, Bool-cases}
use cell_routing_from_scratc.Prelude.Lists.{All}

abbrev pub GoMap {ℓ} : Type ℓ → Type ℓ
GoMap V = List (String × V)

module _ {ℓ} {V : Type ℓ} where
  -- `v, ok := m[key]`
  unfoldable pub lookup : String → GoMap V → Option V
  lookup key [] = none
  lookup key ((at, held) ∷ rest) = if at == key then some held else lookup key rest

  -- `delete(m, key)`
  unfoldable pub delete : String → GoMap V → GoMap V
  delete key [] = []
  delete key ((at, held) ∷ rest) =
      let without = delete key rest in if at == key then without else (at, held) ∷ without

  -- `m[key] = value`
  unfoldable pub insert : String → V → GoMap V → GoMap V
  insert key value [] = (key, value) ∷ []
  insert key value ((at, held) ∷ rest) =
      if at == key then (key, value) ∷ rest else (at, held) ∷ insert key value rest

  pub lookup-delete :
      (key other : String) (entries : GoMap V)
      → lookup other (delete key entries) ≡ (if key == other then none else lookup other entries)
  unfolding lookup delete
  lookup-delete key other [] = ground arith
  lookup-delete key other ((at, held) ∷ rest) =
      ground (arith, lookup-delete key other rest, eq_iff at key, eq_iff at other, eq_iff key other)

  pub lookup-insert :
      (key other : String) (value : V) (entries : GoMap V)
      → lookup other (insert key value entries)
        ≡ (if key == other then some value else lookup other entries)
  unfolding lookup insert
  lookup-insert key other value [] = refl
  lookup-insert key other value ((at, held) ∷ rest) =
      ground (
        arith,
        lookup-insert key other value rest,
        eq_iff at key,
        eq_iff at other,
        eq_iff key other,
      )

  pub lookup-insert_self : (k : String) (v : V) (m : GoMap V) → lookup k (insert k v m) ≡ some v
  lookup-insert_self k v m = ground (arith, lookup-insert k k v m, eq_iff k k)

  pub lookup-insert_ne :
      (k j : String) (v : V) (m : GoMap V) → k ≢ j → lookup j (insert k v m) ≡ lookup j m
  lookup-insert_ne k j v m h = ground (arith, lookup-insert k j v m, eq_iff k j)

  pub lookup-delete_self : (k : String) (m : GoMap V) → lookup k (delete k m) ≡ none
  lookup-delete_self k m = ground (arith, lookup-delete k k m, eq_iff k k)

  pub lookup-delete_ne : (k j : String) (m : GoMap V) → k ≢ j → lookup j (delete k m) ≡ lookup j m
  lookup-delete_ne k j m h = ground (arith, lookup-delete k j m, eq_iff k j)

  -- What holds of every entry holds of the one that is found.
  pub lookup-All {κ} :
      (P : String × V → Type κ) (k : String) (m : GoMap V) (v : V)
      → All P m
      → lookup k m ≡ some v
      → P (k, v)
  unfolding lookup
  lookup-All P k [] v h e = cc
  lookup-All P k ((j, w) ∷ m) v h e = elim (Bool-cases (j == k)) [
    | inl same ↦
        let jk : j ≡ k = (eq_iff j k).0 same in
        let wv : w ≡ v = ground arith in subst (λ x. P (x, v)) jk (subst (λ y. P (j, y)) wv h.0)
    | inr other ↦ lookup-All P k m v h.1 (ground arith)
  ]

  -- An update whose value and whose predecessors satisfy a predicate keeps it.
  pub insert-All {κ} :
      (P : String × V → Type κ) (k : String) (v : V) (m : GoMap V)
      → P (k, v)
      → All P m
      → All P (insert k v m)
  unfolding insert
  insert-All P k v [] p h = (p, tt)
  insert-All P k v ((j, w) ∷ m) p h = elim (Bool-cases (j == k)) [
    | inl same ↦ rw same (p, h.1)
    | inr other ↦ rw other (h.0, insert-All P k v m p h.1)
  ]

  pub delete-All {κ} :
      (P : String × V → Type κ) (k : String) (m : GoMap V) → All P m → All P (delete k m)
  unfolding delete
  delete-All P k [] h = tt
  delete-All P k ((j, w) ∷ m) h = elim (Bool-cases (j == k)) [
    | inl same ↦ rw same (delete-All P k m h.1)
    | inr other ↦ rw other (h.0, delete-All P k m h.1)
  ]

-- A Go map has one entry for a key.
abbrev pub IsMap {ℓ} : {V : Type ℓ} → GoMap V → Type ℓ
IsMap [] = Unit
IsMap ((k, v) ∷ m) = (lookup k m ≡ none) × IsMap m
