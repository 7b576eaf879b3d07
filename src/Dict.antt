-- ===== src/Dict.antt =====
-- Python's dict and OrderedDict: entries in insertion order, a rewritten key keeps its place.
use replay_forge.Base.{
  Eq, List, Option, [], arith, eq_refl, false, if◌then◌else◌, nat_eq, none, option_eq, pair_eq,
  refl, some, string_eq, true, ◌==◌, ◌∷◌, ◌≡◌, ◌≢◌,
}

abbrev pub Dict : Type 0 → Type 0 → Type 0
Dict K V = List (K × V)

module _ {K V : Type 0} ⦃e : Eq K⦄ where
  -- d.get(k)
  unfoldable pub lookup : Dict K V → K → Option V
  lookup [] k = none
  lookup ((j, v) ∷ d) k = if j == k then some v else lookup d k

  -- d[k] = v
  unfoldable pub insert : Dict K V → K → V → Dict K V
  insert [] k v = (k, v) ∷ []
  insert ((j, w) ∷ d) k v = if j == k then (j, v) ∷ d else (j, w) ∷ insert d k v

  pub lookup-nil : (k : K) → lookup [] k ≡ none
  unfolding lookup
  lookup-nil k = refl

  pub lookup-insert :
      (d : Dict K V) (k j : K) (v : V)
      → lookup (insert d k v) j ≡ (if k == j then some v else lookup d j)
  unfolding lookup insert
  lookup-insert [] k j v = refl
  lookup-insert ((i, w) ∷ d) k j v =
      ground (arith, e.beq_iff k j, e.beq_iff i k, e.beq_iff i j, lookup-insert d k j v)

  pub lookup-insert_eq :
      (d : Dict K V) (k j : K) (v : V) → (k == j) ≡ true → lookup (insert d k v) j ≡ some v
  lookup-insert_eq d k j v h = simp (lookup-insert, h)

  pub lookup-insert_ne :
      (d : Dict K V) (k j : K) (v : V) → (k == j) ≡ false → lookup (insert d k v) j ≡ lookup d j
  lookup-insert_ne d k j v h = simp (lookup-insert, h)

  pub lookup-insert_self : (d : Dict K V) (k : K) (v : V) → lookup (insert d k v) k ≡ some v
  lookup-insert_self d k v = simp (lookup-insert, eq_refl)

-- Two entries under one key are one.
pub some-eq {ℓ} : {A : Type ℓ} {o : Option A} {a b : A} → o ≡ some a → o ≡ some b → a ≡ b
some-eq p q = ground arith

pub none≢some {ℓ} : {A : Type ℓ} {a : A} → none ≢ some a
none≢some h = cc
