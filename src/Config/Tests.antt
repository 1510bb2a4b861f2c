-- ===== src/Config/Tests.antt =====
-- Sample configurations and a sample of the standard library's functions, with `Validate` run on them.
use mathlib.Core.Quot
use cell_routing_from_scratc.Prelude.{
  ◌≡◌, refl, ◌≢◌, ◌↔◌, String, ◌==◌, some, [], ◌∷◌, GoMap, IsMap, lookup, ok, err, panic, arith,
  eq_iff, sym, ◌∙◌, inl, inr, Bool-cases,
}
use cell_routing_from_scratc.Config.Order.{SameMap, SameConfig}
use cell_routing_from_scratc.Config.Order.Validate.{validate-unordered_iff}
use cell_routing_from_scratc.Config.{
  Config, unknown_default, unknown_placement, unknown_fallback, validate,
}
use cell_routing_from_scratc.Config.Samples.{
  sample_library, legacy_sample, placements_sample, nil_sample, tier3_placement,
}
use cell_routing_from_scratc.Config.Validity.{IsValid, validate-IsValid_iff}

accepts_samples :
    (validate sample_library legacy_sample ≡ ok tt)
    × (validate sample_library placements_sample ≡ ok tt)
unfolding validate lookup
accepts_samples = (refl, refl)

rejects :
    (validate sample_library (record legacy_sample { default_placement = "tier9" })
      ≡ err (unknown_default "tier9"))
    × (validate sample_library (record legacy_sample { routing_table = ("a", "b") ∷ [] })
        ≡ err (unknown_placement "a" "b"))
    × (validate sample_library nil_sample ≡ panic)
unfolding validate lookup
rejects = (refl, refl, refl)

rejects_placement :
    (validate sample_library (record placements_sample {
      placements = ("tier3", some (record tier3_placement { fallback = "gone" })) ∷ [];
      routing_table = [];
    })
      ≡ err (unknown_fallback "tier3" "gone"))
unfolding validate lookup
rejects_placement = refl

validate-IsValid_iff_example :
    (validate sample_library placements_sample ≡ ok tt) ↔ IsValid sample_library placements_sample
validate-IsValid_iff_example = validate-IsValid_iff sample_library placements_sample

-- legacy_sample, its maps visited in another order.
abbrev reordered_sample : Config
reordered_sample = record legacy_sample {
  routing_table = ("visa", "visa") ∷ ("acme", "tier1") ∷ [];
  cell_endpoints =
      ("tier3", "http://cell-tier3:9003")
      ∷ ("tier1", "http://cell-tier1:9001")
      ∷ ("visa", "http://cell-visa:9004")
      ∷ [];
}

swapped :
    (k j v w : String) (m : GoMap String)
    → k ≢ j
    → IsMap ((k, v) ∷ (j, w) ∷ m)
    → IsMap ((j, w) ∷ (k, v) ∷ m)
    → SameMap ((k, v) ∷ (j, w) ∷ m) ((j, w) ∷ (k, v) ∷ m)
unfolding lookup
swapped k j v w m differ one other = record {
  one = one;
  other = other;
  same = λ key. elim (Bool-cases (k == key)) [
    | inl at_k ↦ elim (Bool-cases (j == key)) [
      | inl at_j ↦ absurd (differ ((eq_iff k key).0 at_k ∙ sym ((eq_iff j key).0 at_j)))
      | inr off ↦ rw (at_k, off)
    ]
    | inr off_k ↦ elim (Bool-cases (j == key)) [
      | inl at_j ↦ rw (off_k, at_j)
      | inr off ↦ rw (off_k, off)
    ]
  ];
}

reordered_same : SameConfig legacy_sample reordered_sample
unfolding lookup
reordered_same = record {
  version = refl;
  default_placement = refl;
  routing_table =
      swapped "acme" "visa" "tier1" "visa" [] (λ e. ground (arith, eq_iff "acme" "visa", e))
        (refl, (refl, tt)) (refl, (refl, tt));
  cell_endpoints =
      swapped "tier1" "tier3" "http://cell-tier1:9001" "http://cell-tier3:9003"
        (("visa", "http://cell-visa:9004") ∷ []) (λ e. ground (arith, eq_iff "tier1" "tier3", e))
        (refl, (refl, (refl, tt))) (refl, (refl, (refl, tt)));
  placements = record { one = tt; other = tt; same = λ key. refl };
}

validate-unordered_iff_example :
    (validate sample_library reordered_sample ≡ ok tt) ↔ IsValid sample_library legacy_sample
validate-unordered_iff_example =
    validate-unordered_iff sample_library legacy_sample reordered_sample (Quot.sound reordered_same)
