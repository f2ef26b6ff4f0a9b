-- ===== src/Units/Service/Choices.antt =====
-- What a typed unit stands for.
use ckitchen_backend.Prelude.{
  ◌≡◌, refl, Bool, true, false, ◌&&◌, Option, none, some, List, [], ◌∷◌, Text, text_eq, text_eq_iff,
  trim, lower, find?, find?-holds, all, Bool-cases, Option-cases, inl, inr, some_eq, ◌⊎◌, sym, ap,
  ◌∙◌, codes, map_option,
}
use ckitchen_backend.Units.Service.{
  StandardUnit, standard_units, aliases, UnitCode, catalogue, inherited, inherited_names,
  standard_unit_code, standard_unit, unit_of_code,
}

abbrev is_known : Text × Text → Bool
is_known a = elim (standard_unit a.1) [ none ↦ false | some _ ↦ true ]

found_holds :
    {A : Type 0} (p q : A → Bool) (xs : List A) {a : A}
    → all p xs ≡ true
    → find? q xs ≡ some a
    → p a ≡ true
found_holds p q [] h f = cc
found_holds p q (x ∷ xs) {a} h f = elim (Bool-cases (q x)) [
  | inl e ↦ let same : x ≡ a = some_eq (rw e at f) in rw (← same) (left (p x) _ h)
  | inr e ↦ found_holds p q xs (right (p x) _ h) (rw e at f)
]
  where
    left : (a b : Bool) → (a && b) ≡ true → a ≡ true
    left true b h = refl
    left false b h = cc

    right : (a b : Bool) → (a && b) ≡ true → b ≡ true
    right true b h = h
    right false b h = cc

aliases_known : all is_known aliases ≡ true
unfolding aliases standard_unit standard_units text_eq
aliases_known = refl

standard_unit-code :
    (c : Text) {u : StandardUnit} → standard_unit c ≡ some u → text_eq u.code c ≡ true
unfolding standard_unit
standard_unit-code c h = find?-holds (λ (u : StandardUnit). text_eq u.code c) standard_units h

-- A text that standardUnitCode accepts stands for a unit of the catalogue, which the code is found by,
-- or else it is "constructor" or "__proto__" but for case and outer space, and stands for no unit.
pub standard_unit_code-known :
    (t : Text) {v : UnitCode}
    → standard_unit_code t ≡ some v
    → ((u : StandardUnit) × (v ≡ catalogue u.code) × (unit_of_code (some v) ≡ some u))
      ⊎ (((lower (trim t) ≡ codes "constructor") ⊎ (lower (trim t) ≡ codes "__proto__"))
          × (unit_of_code (some v) ≡ none))
unfolding standard_unit_code unit_of_code
standard_unit_code-known t {v} h =
    let q = λ (a : Text × Text). text_eq a.0 (lower (trim t)) in
    elim (Option-cases (find? q aliases)) [
      | inl e ↦ inr (member (rw (e, standard_unit_code) at h))
      | inr (a, e) ↦ inl (
          own a (found_holds is_known q aliases aliases_known e)
            (some_eq (rw (e, standard_unit_code) at h)))
    ]
  where
    unknown : (a : Text × Text) → standard_unit a.1 ≡ none → is_known a ≡ true → ⊥
    unknown a e k = no_unit (rw (e, is_known) at k)
      where
        no_unit : false ≡ true → ⊥
        no_unit e = cc

    own :
        (a : Text × Text)
        → is_known a ≡ true
        → catalogue a.1 ≡ v
        → (u : StandardUnit) × (v ≡ catalogue u.code) × (unit_of_code (some v) ≡ some u)
    own a known same = elim (Option-cases (standard_unit a.1)) [
      | inl f ↦ absurd (unknown a f known)
      | inr (u, f) ↦ (
        u,
        sym same ∙ ap catalogue (sym ((text_eq_iff u.code a.1).0 (standard_unit-code a.1 f))),
        ap (λ c. unit_of_code (some c)) (sym same) ∙ f,
      )
    ]

    member :
        map_option inherited (find? (λ n. text_eq n (lower (trim t))) inherited_names) ≡ some v
        → ((lower (trim t) ≡ codes "constructor") ⊎ (lower (trim t) ≡ codes "__proto__"))
          × (unit_of_code (some v) ≡ none)
    member made = elim (Bool-cases (text_eq (codes "constructor") (lower (trim t)))) [
      | inl e ↦ (
        inl (sym ((text_eq_iff (codes "constructor") (lower (trim t))).0 e)),
        ap (λ c. unit_of_code (some c)) (sym (some_eq (rw e at made))),
      )
      | inr e ↦ elim (Bool-cases (text_eq (codes "__proto__") (lower (trim t)))) [
        | inl f ↦ (
          inr (sym ((text_eq_iff (codes "__proto__") (lower (trim t))).0 f)),
          ap (λ c. unit_of_code (some c)) (sym (some_eq (rw (e, f) at made))),
        )
        | inr f ↦ absurd (nothing (rw (e, f) at made))
      ]
    ]
      where
        nothing : ◌≡◌ {A = Option UnitCode} none (some v) → ⊥
        nothing e = cc
