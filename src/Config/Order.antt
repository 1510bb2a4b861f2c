-- ===== src/Config/Order.antt =====
-- The order in which Go visits the entries of a configuration's maps.
use mathlib.Core.Quot
use mathlib.Core.Quot.{Quot}
use cell_routing_from_scratc.Prelude.{
  ◌≡◌, refl, ◌≢◌, String, ◌==◌, Option, none, some, [], ◌∷◌, GoMap, IsMap, lookup, All, lookup-All,
  arith, eq_iff, eq_refl, ap, sym, ◌∙◌, subst, Option-cases, Bool-cases, inl, inr,
}
use cell_routing_from_scratc.Config.{
  Config, PlacementConfig, get_cell_endpoints, endpoints_of, urls,
}
pub mod Validate

-- Two lists of entries of one map.
pub record SameMap {ℓ} {V : Type ℓ} (m n : GoMap V) : Type ℓ where
  pub one : IsMap m
  pub other : IsMap n
  pub same : (key : String) → lookup key m ≡ lookup key n

pub SameMap-sym {ℓ} : {V : Type ℓ} {m n : GoMap V} → SameMap m n → SameMap n m
SameMap-sym s = record { one = s.other; other = s.one; same = λ key. sym (s.same key) }

All-lookups {ℓ κ} :
    {V : Type ℓ} (P : String × V → Type κ) (m : GoMap V)
    → IsMap m
    → ((key : String) (v : V) → lookup key m ≡ some v → P (key, v))
    → All P m
unfolding lookup
All-lookups P [] d h = tt
All-lookups P ((k, v) ∷ m) d h = (
  h k v (rw (eq_refl k)),
  All-lookups P m d.1 (λ key w e. h key w (elim (Bool-cases (k == key)) [
    | inl same ↦
        let k-key : k ≡ key = (eq_iff k key).0 same in
        let gone : lookup key m ≡ none = subst (λ x. lookup x m ≡ none) k-key d.0 in
        absurd (ground (arith, gone, e))
    | inr differ ↦ rw differ e
  ])),
)

pub All-SameMap {ℓ κ} :
    {V : Type ℓ} (P : String × V → Type κ) {m n : GoMap V} → SameMap m n → All P m → All P n
All-SameMap P {m} {n} s h =
    All-lookups P n s.other (λ key v e. lookup-All P key m v h (s.same key ∙ e))

abbrev url_in : Option (Option PlacementConfig) → Option String
url_in none = none
url_in (some none) = none
url_in (some (some p)) = some p.url

abbrev IsThere : String × Option PlacementConfig → Type 0
IsThere e = e.1 ≢ none

lookup-urls :
    (ps : GoMap (Option PlacementConfig)) (endpoints : GoMap String) (key : String)
    → urls ps ≡ some endpoints
    → lookup key endpoints ≡ url_in (lookup key ps)
unfolding urls lookup
lookup-urls [] endpoints key e = let same : endpoints ≡ [] = cc in rw same
lookup-urls ((k, none) ∷ ps) endpoints key e = cc
lookup-urls ((k, some p) ∷ ps) endpoints key e = elim (Option-cases (urls ps)) [
  | inl crashed ↦ absurd (ground (arith, crashed))
  | inr (rest, found) ↦
      let new : endpoints ≡ (k, p.url) ∷ rest = ground (arith, found) in
      ap (lookup key) new ∙ ground (arith, lookup-urls ps rest key found)
]

urls-IsMap :
    (ps : GoMap (Option PlacementConfig)) (endpoints : GoMap String)
    → urls ps ≡ some endpoints
    → IsMap ps
    → IsMap endpoints
unfolding urls
urls-IsMap [] endpoints e d = let same : [] ≡ endpoints = cc in subst IsMap same tt
urls-IsMap ((k, none) ∷ ps) endpoints e d = cc
urls-IsMap ((k, some p) ∷ ps) endpoints e d = elim (Option-cases (urls ps)) [
  | inl crashed ↦ absurd (ground (arith, crashed))
  | inr (rest, found) ↦
      let new : (k, p.url) ∷ rest ≡ endpoints = ground (arith, found) in
      subst IsMap new (lookup-urls ps rest k found ∙ ap url_in d.0, urls-IsMap ps rest found d.1)
]

urls-IsThere :
    (ps : GoMap (Option PlacementConfig)) (endpoints : GoMap String)
    → urls ps ≡ some endpoints
    → All IsThere ps
unfolding urls
urls-IsThere [] endpoints e = tt
urls-IsThere ((k, none) ∷ ps) endpoints e = cc
urls-IsThere ((k, some p) ∷ ps) endpoints e = elim (Option-cases (urls ps)) [
  | inl crashed ↦ absurd (ground (arith, crashed))
  | inr (rest, found) ↦ (λ x. cc, urls-IsThere ps rest found)
]

urls_total :
    (ps : GoMap (Option PlacementConfig))
    → All IsThere ps
    → (endpoints : GoMap String) × (urls ps ≡ some endpoints)
unfolding urls
urls_total [] h = ([], refl)
urls_total ((k, none) ∷ ps) h = absurd (h.0 refl)
urls_total ((k, some p) ∷ ps) h =
    let (rest, found) = urls_total ps h.1 in ((k, p.url) ∷ rest, ground (arith, found))

urls-SameMap :
    {ps qs : GoMap (Option PlacementConfig)} (endpoints : GoMap String)
    → SameMap ps qs
    → urls ps ≡ some endpoints
    → (others : GoMap String) × (urls qs ≡ some others) × SameMap endpoints others
urls-SameMap {ps} {qs} endpoints s e =
    let (others, found) = urls_total qs (All-SameMap IsThere s (urls-IsThere ps endpoints e)) in
    (
      others,
      found,
      record {
        one = urls-IsMap ps endpoints e s.one;
        other = urls-IsMap qs others found s.other;
        same = λ key.
            lookup-urls ps endpoints key e
            ∙ ap url_in (s.same key)
            ∙ sym (lookup-urls qs others key found);
      },
    )

-- Two configurations with the same maps.
pub record SameConfig (c d : Config) : Type 0 where
  pub version : c.version ≡ d.version
  pub default_placement : c.default_placement ≡ d.default_placement
  pub routing_table : SameMap c.routing_table d.routing_table
  pub cell_endpoints : SameMap c.cell_endpoints d.cell_endpoints
  pub placements : SameMap c.placements d.placements

endpoints_of-SameMap :
    (es fs : GoMap String) {ps qs : GoMap (Option PlacementConfig)} (endpoints : GoMap String)
    → SameMap es fs
    → SameMap ps qs
    → endpoints_of es ps ≡ some endpoints
    → (others : GoMap String) × (endpoints_of fs qs ≡ some others) × SameMap endpoints others
unfolding endpoints_of lookup
endpoints_of-SameMap [] [] endpoints s t e = urls-SameMap endpoints t e
endpoints_of-SameMap [] ((k, v) ∷ fs) endpoints s t e = absurd (ground (arith, s.same k, eq_refl k))
endpoints_of-SameMap ((k, v) ∷ es) [] endpoints s t e = absurd (ground (arith, s.same k, eq_refl k))
endpoints_of-SameMap ((k, v) ∷ es) ((j, w) ∷ fs) endpoints s t e =
    let same : (k, v) ∷ es ≡ endpoints = cc in
    ((j, w) ∷ fs, refl, subst (λ x. SameMap x ((j, w) ∷ fs)) same s)

pub get_cell_endpoints-SameConfig :
    {c d : Config} (endpoints : GoMap String)
    → SameConfig c d
    → get_cell_endpoints c ≡ some endpoints
    → (others : GoMap String) × (get_cell_endpoints d ≡ some others) × SameMap endpoints others
unfolding get_cell_endpoints
get_cell_endpoints-SameConfig {c} {d} endpoints s e =
    endpoints_of-SameMap c.cell_endpoints d.cell_endpoints endpoints s.cell_endpoints s.placements e
