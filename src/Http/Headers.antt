-- ===== src/Http/Headers.antt =====
-- The values under a key after each operation on a header.
use mathlib.Core.List.{append-nil, append_assoc}
use cell_routing_from_scratc.Prelude.{
  ◌≡◌, refl, ◌≢◌, String, ◌==◌, none, List, [], ◌∷◌, ◌++◌, if◌then◌else◌, IsMap, lookup,
  lookup-insert, lookup-insert_self, lookup-insert_ne, eq_iff, eq_refl, subst, arith, ap, sym, ◌∙◌,
  Bool-cases, inl, inr,
}
use cell_routing_from_scratc.Http.{
  Header, all_of, first_of, values, get, set_header, add_header, add_each, copy_header,
}

pub values-set_header :
    (key other value : String) (h : Header)
    → values other (set_header key value h) ≡ (if key == other then value ∷ [] else values other h)
unfolding values set_header
values-set_header key other value h =
    ground (arith, lookup-insert key other (value ∷ []) h, eq_iff key other)

values-add_header_self :
    (key value : String) (h : Header)
    → values key (add_header key value h) ≡ values key h ++ (value ∷ [])
unfolding values add_header
values-add_header_self key value h =
    ap all_of (lookup-insert_self key (values key h ++ (value ∷ [])) h)

values-add_header_ne :
    (key other value : String) (h : Header)
    → key ≢ other
    → values other (add_header key value h) ≡ values other h
unfolding values add_header
values-add_header_ne key other value h n =
    ap all_of (lookup-insert_ne key other (values key h ++ (value ∷ [])) h n)

values-add_each_self :
    (key : String) (vs : List String) (h : Header)
    → values key (add_each key vs h) ≡ values key h ++ vs
unfolding add_each
values-add_each_self key [] h = rw append-nil
values-add_each_self key (v ∷ vs) h =
    values-add_each_self key vs (add_header key v h)
    ∙ ap (λ x. x ++ vs) (values-add_header_self key v h)
    ∙ append_assoc (values key h) (v ∷ []) vs

values-add_each_ne :
    (key other : String) (vs : List String) (h : Header)
    → key ≢ other
    → values other (add_each key vs h) ≡ values other h
unfolding add_each
values-add_each_ne key other [] h n = refl
values-add_each_ne key other (v ∷ vs) h n =
    values-add_each_ne key other vs (add_header key v h) n ∙ values-add_header_ne key other v h n

values-cons_self : (key : String) (vs : List String) (h : Header) → values key ((key, vs) ∷ h) ≡ vs
unfolding values lookup
values-cons_self key vs h = rw (eq_refl key)

values-cons_ne :
    (key other : String) (vs : List String) (h : Header)
    → key ≢ other
    → values other ((key, vs) ∷ h) ≡ values other h
unfolding values lookup
values-cons_ne key other vs h n = ground (arith, eq_iff key other)

values_of_none : (key : String) (h : Header) → lookup key h ≡ none → values key h ≡ []
unfolding values
values_of_none key h e = rw e

-- The copy loop puts the values of `from` after those that are there.
pub values-copy_header :
    (from to : Header) (key : String)
    → IsMap from
    → values key (copy_header from to) ≡ values key to ++ values key from
unfolding copy_header
values-copy_header [] to key m = unfold values lookup in rw append-nil
values-copy_header ((k, vs) ∷ from) to key m =
    values-copy_header from (add_each k vs to) key m.1 ∙ elim (Bool-cases (k == key)) [
      | inl same ↦
          let e : k ≡ key = (eq_iff k key).0 same in
          subst
            (λ x.
              values x (add_each k vs to) ++ values x from
              ≡ values x to ++ values x ((k, vs) ∷ from))
            e
            (ap (λ x. x ++ values k from) (values-add_each_self k vs to)
              ∙ ap (λ x. (values k to ++ vs) ++ x) (values_of_none k from m.0)
              ∙ append-nil (values k to ++ vs)
              ∙ ap (λ x. values k to ++ x) (sym (values-cons_self k vs from)))
      | inr other ↦
          let n : k ≢ key = λ e. ground (arith, other, eq_iff k key, e) in
          ap (λ x. x ++ values key from) (values-add_each_ne k key vs to n)
          ∙ ap (λ x. values key to ++ x) (sym (values-cons_ne k key vs from n))
    ]

pub get-values : (key : String) (h : Header) → get key h ≡ first_of (values key h)
unfolding get
get-values key h = refl
