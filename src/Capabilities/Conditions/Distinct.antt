-- ===== src/Capabilities/Conditions/Distinct.antt =====
-- What a true condition that proves a distinct surface says of the interface.
use replay_forge.Base.{
  Bool, Bool-cases, and-true, ap, arith, false, inl, inr, is_nil, or-true, sym, true, true≢false,
  ◌&&◌, ◌||◌, ◌∙◌, ◌≡◌, ◌≢◌,
}
use replay_forge.Capabilities.Conditions.{
  Condition, Conditions, all_of, all_prove, any_of, any_proves, is_other_surface, more, no_more,
  proves_distinct_surface, surface_conditions,
}

-- `holds` evaluates composite conditions by their parts.
pub record IsCompositional (holds : Condition → Bool) : Type 0 where
  pub every_part : Conditions → Bool
  pub some_part : Conditions → Bool
  pub all_holds : (cs : Conditions) → holds (all_of cs) ≡ every_part cs
  pub any_holds : (cs : Conditions) → holds (any_of cs) ≡ some_part cs
  pub every_none : every_part no_more ≡ true
  pub every_more :
      (c : Condition) (cs : Conditions) → every_part (more c cs) ≡ (holds c && every_part cs)
  pub some_none : some_part no_more ≡ false
  pub some_more :
      (c : Condition) (cs : Conditions) → some_part (more c cs) ≡ (holds c || some_part cs)

mutual
  -- The condition, or a part of it under `all` and `any` only.
  pub data PartOf : Condition → Condition → Type 0 where
    itself : {c : Condition} → PartOf c c
    under_all : {d : Condition} {cs : Conditions} → Among d cs → PartOf d (all_of cs)
    under_any : {d : Condition} {cs : Conditions} → Among d cs → PartOf d (any_of cs)

  pub data Among : Condition → Conditions → Type 0 where
    here : {d c : Condition} {cs : Conditions} → PartOf d c → Among d (more c cs)
    there : {d c : Condition} {cs : Conditions} → Among d cs → Among d (more c cs)

module _ (equals : Condition → Condition → Bool)
    (equals_itself : (c : Condition) → equals c c ≡ true) (holds : Condition → Bool)
    (h : IsCompositional holds) where
  -- A part that holds, speaks of the interface and is not the blocker.
  pub Witnesses : (Condition → Type 0) → Condition → Type 0
  Witnesses Part blocked =
      (d : Condition) × Part d × (holds d ≡ true) × (is_other_surface equals d blocked ≡ true)

  mutual
    unfolding proves_distinct_surface Witnesses

    distinct :
        (c blocked : Condition)
        → holds c ≡ true
        → proves_distinct_surface equals c blocked ≡ true
        → Witnesses (λ d. PartOf d c) blocked
    distinct (all_of cs) blocked true_ proves =
        let (d, part, held, other) =
          distinct_any cs blocked (sym (h.all_holds cs) ∙ true_) proves in
        (d, under_all part, held, other)
    distinct (any_of cs) blocked true_ proves =
        let (d, part, held, other) =
          distinct_all cs blocked (sym (h.any_holds cs) ∙ true_) proves in
        (d, under_any part, held, other)
    distinct c blocked true_ proves = (c, itself, true_, proves)

    -- All hold, and some one proves.
    distinct_any :
        (cs : Conditions) (blocked : Condition)
        → h.every_part cs ≡ true
        → any_proves equals cs blocked ≡ true
        → Witnesses (λ d. Among d cs) blocked
    distinct_any no_more blocked true_ proves = absurd (cc)
    distinct_any (more c cs) blocked true_ proves =
        let (first_true, others_true) = and-true (sym (h.every_more c cs) ∙ true_) in
        elim (Bool-cases (proves_distinct_surface equals c blocked)) [
          | inl first ↦
              let (d, part, held, other) = distinct c blocked first_true first in
              (d, here part, held, other)
          | inr others ↦
              let (d, part, held, other) =
                distinct_any cs blocked others_true (or-true others proves) in
              (d, there part, held, other)
        ]

    -- Some one holds, and all prove.
    distinct_all :
        (cs : Conditions) (blocked : Condition)
        → h.some_part cs ≡ true
        → all_prove equals cs blocked ≡ true
        → Witnesses (λ d. Among d cs) blocked
    distinct_all no_more blocked true_ proves = absurd (true≢false (sym true_ ∙ h.some_none))
    distinct_all (more c cs) blocked true_ proves =
        let (first_proves, others_prove) = and-true proves in
        elim (Bool-cases (holds c)) [
          | inl first ↦
              let (d, part, held, other) = distinct c blocked first first_proves in
              (d, here part, held, other)
          | inr others ↦
              let (d, part, held, other) =
                distinct_all cs blocked (or-true others (sym (h.some_more c cs) ∙ true_))
                  others_prove in
              (d, there part, held, other)
        ]

  unequal :
      (d blocked : Condition) → is_other_surface equals d blocked ≡ true → equals d blocked ≡ false
  unequal d blocked h = ground (arith, h)

  speaks :
      (d blocked : Condition)
      → is_other_surface equals d blocked ≡ true
      → is_nil (surface_conditions d) ≡ false
  speaks d blocked h = ground (arith, h)

  differs : (d blocked : Condition) → is_other_surface equals d blocked ≡ true → d ≢ blocked
  differs d blocked other same = absurd (
      true≢false
        (sym (ap (λ x. equals x blocked) same ∙ equals_itself blocked) ∙ unequal d blocked other))

  -- For an equality that is reflexive and an evaluation of composites by their parts, a condition
  -- that holds and proves a surface distinct from the blocker has, under `all` and
  -- `any` only, a part that holds, speaks of the interface and differs from the blocker.
  pub distinct_surface_is_shown :
      (c blocked : Condition)
      → holds c ≡ true
      → proves_distinct_surface equals c blocked ≡ true
      → (d : Condition) × PartOf d c
        × (holds d ≡ true)
        × (is_nil (surface_conditions d) ≡ false)
        × (d ≢ blocked)
  unfolding Witnesses
  distinct_surface_is_shown c blocked true_ proves =
      let (d, part, held, other) = distinct c blocked true_ proves in
      (d, part, held, speaks d blocked other, differs d blocked other)
