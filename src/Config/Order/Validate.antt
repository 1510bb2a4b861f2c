-- ===== src/Config/Order/Validate.antt =====
-- Validate over a configuration whose maps are visited in any order.
use mathlib.Core.Bool.{Bool-set}
use mathlib.Core.Quot
use mathlib.Core.Quot.{Quot}
use cell_routing_from_scratc.Prelude.{
  ◌≡◌, refl, ◌≢◌, ◌↔◌, String, Bool, true, false, Option, none, some, List, [], ◌∷◌, GoMap, All, ap,
  sym, ◌∙◌, subst, inl, inr, Result, ok, err, panic,
}
use cell_routing_from_scratc.Config.{Config, PlacementConfig, Library, ConfigError, validate}
use cell_routing_from_scratc.Config.Validity.{
  Known, IsValid, PlacementIsValid, validate-IsValid_iff,
}
use cell_routing_from_scratc.Config.Order.{
  SameMap, SameMap-sym, All-SameMap, SameConfig, get_cell_endpoints-SameConfig,
}

All-mono {ℓ κ μ} :
    {A : Type ℓ} {P : A → Type κ} {Q : A → Type μ}
    → ((a : A) → P a → Q a)
    → (xs : List A) → All P xs
    → All Q xs
All-mono f [] h = tt
All-mono f (x ∷ xs) h = (f x h.0, All-mono f xs h.1)

Known-SameMap : {es fs : GoMap String} (key : String) → SameMap es fs → Known es key → Known fs key
Known-SameMap key s k = (k.0, sym (s.same key) ∙ k.1)

PlacementIsValid-SameMap :
    (lib : Library) {es fs : GoMap String}
    → SameMap es fs
    → (p : Option PlacementConfig) → PlacementIsValid lib es p
    → PlacementIsValid lib fs p
PlacementIsValid-SameMap lib s none h = h
PlacementIsValid-SameMap lib s (some p) h =
    (elim h.0 [ inl unset ↦ inl unset | inr known ↦ inr (Known-SameMap p.fallback s known) ], h.1)

IsValid-SameConfig : (lib : Library) {c d : Config} → SameConfig c d → IsValid lib c → IsValid lib d
IsValid-SameConfig lib {c} {d} s v =
    let (fs, served, same) = get_cell_endpoints-SameConfig v.endpoints s v.served in
    record {
      endpoints = fs;
      versioned = λ e. v.versioned (s.version ∙ e);
      served = served;
      default_known =
          subst (Known fs) s.default_placement
            (Known-SameMap c.default_placement same v.default_known);
      routes_known =
          All-SameMap (λ e. Known fs e.1) s.routing_table
            (All-mono (λ e k. Known-SameMap e.1 same k) c.routing_table v.routes_known);
      urls_parse = All-SameMap (λ e. lib.parse_url e.1 ≢ none) same v.urls_parse;
      placements_valid =
          All-SameMap (λ e. PlacementIsValid lib fs e.1) s.placements
            (All-mono (λ e p. PlacementIsValid-SameMap lib same e.1 p) c.placements
              v.placements_valid);
    }

SameConfig-sym : {c d : Config} → SameConfig c d → SameConfig d c
SameConfig-sym s = record {
  version = sym s.version;
  default_placement = sym s.default_placement;
  routing_table = SameMap-sym s.routing_table;
  cell_endpoints = SameMap-sym s.cell_endpoints;
  placements = SameMap-sym s.placements;
}

validate-SameConfig :
    (lib : Library) (c d : Config)
    → SameConfig c d
    → (validate lib c ≡ ok tt) ↔ (validate lib d ≡ ok tt)
validate-SameConfig lib c d s = (
  λ e. (validate-IsValid_iff lib d).1 (IsValid-SameConfig lib s ((validate-IsValid_iff lib c).0 e)),
  λ e.
      (validate-IsValid_iff lib c).1
        (IsValid-SameConfig lib (SameConfig-sym s) ((validate-IsValid_iff lib d).0 e)),
)

is_accepted : Result ConfigError (Unit {0}) → Bool
is_accepted (ok _) = true
is_accepted (err e) = false
is_accepted panic = false

is_accepted_iff : (r : Result ConfigError (Unit {0})) → (is_accepted r ≡ true) ↔ (r ≡ ok tt)
unfolding is_accepted
is_accepted_iff (ok tt) = (λ _. refl, λ _. refl)
is_accepted_iff (err e) = (λ h. cc, λ h. cc)
is_accepted_iff panic = (λ h. cc, λ h. cc)

Bool-eq_of_iff : (a b : Bool) → (a ≡ true) ↔ (b ≡ true) → a ≡ b
Bool-eq_of_iff true b h = sym (h.0 refl)
Bool-eq_of_iff false true h = cc (h.1 refl)
Bool-eq_of_iff false false h = refl

-- A configuration as Go has it: its maps have no order.
abbrev pub Unordered : Type 0
Unordered = Quot SameConfig

abbrev pub forget_order : Config → Unordered
forget_order c = Quot.mk c

is_accepted-SameConfig :
    (lib : Library) (c d : Config)
    → SameConfig c d
    → is_accepted (validate lib c) ≡ is_accepted (validate lib d)
is_accepted-SameConfig lib c d s =
    let p = is_accepted_iff (validate lib c) in
    let q = is_accepted_iff (validate lib d) in
    let r = validate-SameConfig lib c d s in
    Bool-eq_of_iff (is_accepted (validate lib c)) (is_accepted (validate lib d))
      (λ e. q.1 (r.0 (p.0 e)), λ e. p.1 (r.1 (q.0 e)))

accepts : Library → Unordered → Bool
accepts lib =
    Quot.lift Bool-set (λ c. is_accepted (validate lib c))
      (λ c d s. is_accepted-SameConfig lib c d s)

-- When two lists of entries stand for the same configuration, one whose maps have no order, Validate
-- accepts the one exactly when the other is valid, with every endpoint URL that url.Parse accepts: the
-- order in which Go visits the maps does not decide.
pub validate-unordered_iff :
    (lib : Library) (c d : Config)
    → forget_order c ≡ forget_order d
    → (validate lib d ≡ ok tt) ↔ IsValid lib c
unfolding accepts
validate-unordered_iff lib c d e =
    let same : is_accepted (validate lib c) ≡ is_accepted (validate lib d) = ap (accepts lib) e in
    let p = is_accepted_iff (validate lib c) in
    let q = is_accepted_iff (validate lib d) in
    let v = validate-IsValid_iff lib c in
    (λ h. v.0 (p.0 (same ∙ q.1 h)), λ h. q.0 (sym same ∙ p.1 (v.1 h)))
