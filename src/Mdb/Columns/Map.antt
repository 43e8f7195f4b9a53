-- ===== src/Mdb/Columns/Map.antt =====
-- What include/quekka/Quekka_mdb.hpp uses of `std::unordered_map`, on the list of the entries, and
-- its view as a function.
use tiny_mon.Base.{
  ◌≡◌, ◌≢◌, ◌⊎◌, refl, sym, ap, ◌∙◌, Bool-cases, Option-cases, inl, inr, if◌then◌else◌, Option,
  none, some, List, [], ◌∷◌, arith,
}
use tiny_mon.Mdb.Key.{Key, equal_self, equal_ne, equal_same, equal_sym}

module _ {ℓ} {K V : Type ℓ} ⦃key : Key K⦄ where
  -- `find`.
  unfoldable pub lookup : List (K × V) → K → Option V
  lookup [] k = none
  lookup ((k', v) ∷ d) k = if key.equal k' k then some v else lookup d k

  -- `emplace`, which leaves the map as it is if the key is there.
  unfoldable pub emplace : List (K × V) → K → V → List (K × V)
  unfolding lookup
  emplace d k v = elim (lookup d k) [ none ↦ (k, v) ∷ d | some v' ↦ d ]

  -- `it->second = v`, where `it` is at the key.
  unfoldable pub assign : List (K × V) → K → V → List (K × V)
  assign [] k v = []
  assign ((k', v') ∷ d) k v = if key.equal k' k then (k', v) ∷ d else (k', v') ∷ assign d k v

  -- `erase`.
  unfoldable pub remove : List (K × V) → K → List (K × V)
  remove [] k = []
  remove ((k', v) ∷ d) k = if key.equal k' k then d else (k', v) ∷ remove d k

  -- No key has two entries.
  unfoldable pub Unique : List (K × V) → Type ℓ
  Unique [] = Unit
  Unique ((k, v) ∷ d) = (lookup d k ≡ none) × Unique d

  -- A map with another value, or none, at a key.
  unfoldable pub put : K → Option V → (K → Option V) → K → Option V
  put k c m k' = if key.equal k k' then c else m k'

  pub put_same : (k : K) (c : Option V) (m : K → Option V) → put k c m k ≡ c
  unfolding put
  put_same k c m = rw (equal_self k)

  pub put_other : (k k' : K) (c : Option V) (m : K → Option V) → k ≢ k' → put k c m k' ≡ m k'
  unfolding put
  put_other k k' c m ne = rw (equal_ne k k' ne)

  pub lookup-cons :
      (k k' : K) (v : V) (d : List (K × V)) → lookup ((k, v) ∷ d) k' ≡ put k (some v) (lookup d) k'
  unfolding lookup put
  lookup-cons k k' v d = refl

  pub lookup-assign :
      (d : List (K × V)) (k k' : K) (v old : V)
      → lookup d k ≡ some old
      → lookup (assign d k v) k' ≡ put k (some v) (lookup d) k'
  unfolding lookup assign put
  lookup-assign [] k k' v old e = absurd (ground arith)
  lookup-assign ((k'', w) ∷ d) k k' v old e =
      ground (
        arith,
        lookup-assign d k k' v old,
        equal_same k'' k k',
        equal_same k'' k' k,
        equal_sym k k',
      )

  pub lookup-remove :
      (d : List (K × V)) (k k' : K) → Unique d → lookup (remove d k) k' ≡ put k none (lookup d) k'
  unfolding lookup remove put Unique
  lookup-remove [] k k' u = ground arith
  lookup-remove ((k'', w) ∷ d) k k' u = ground (
    arith,
    lookup-remove d k k' u.1,
    ap (lookup d) ((key.equal_iff k'' k').0 _),
    equal_same k'' k k',
    equal_same k'' k' k,
    equal_sym k k',
  )

  pub Unique-emplace : (d : List (K × V)) (k : K) (v : V) → Unique d → Unique (emplace d k v)
  unfolding Unique emplace
  Unique-emplace d k v u = elim (Option-cases (lookup d k)) [
    | inl e ↦ rw (emplace, e) (e, u)
    | inr (w, e) ↦ rw (emplace, e) u
  ]

  pub lookup-emplace :
      (d : List (K × V)) (k k' : K) (v : V)
      → lookup d k ≡ none
      → lookup (emplace d k v) k' ≡ put k (some v) (lookup d) k'
  unfolding lookup emplace put
  lookup-emplace d k k' v e = ground (arith, e)

  lookup-assign-none :
      (d : List (K × V)) (k k' : K) (v : V) → lookup d k' ≡ none → lookup (assign d k v) k' ≡ none
  unfolding lookup assign
  lookup-assign-none [] k k' v e = e
  lookup-assign-none ((k'', w) ∷ d) k k' v e = ground (arith, lookup-assign-none d k k' v)

  lookup-remove-none :
      (d : List (K × V)) (k k' : K) → lookup d k' ≡ none → lookup (remove d k) k' ≡ none
  unfolding lookup remove
  lookup-remove-none [] k k' e = e
  lookup-remove-none ((k'', w) ∷ d) k k' e = ground (arith, lookup-remove-none d k k')

  pub Unique-assign : (d : List (K × V)) (k : K) (v : V) → Unique d → Unique (assign d k v)
  unfolding Unique assign
  Unique-assign [] k v u = u
  Unique-assign ((k', w) ∷ d) k v u = elim (Bool-cases (key.equal k' k)) [
    | inl e ↦ rw e u
    | inr e ↦ rw e (lookup-assign-none d k k' v u.0, Unique-assign d k v u.1)
  ]

  pub Unique-remove : (d : List (K × V)) (k : K) → Unique d → Unique (remove d k)
  unfolding Unique remove
  Unique-remove [] k u = u
  Unique-remove ((k', w) ∷ d) k u = elim (Bool-cases (key.equal k' k)) [
    | inl e ↦ rw e u.1
    | inr e ↦ rw e (lookup-remove-none d k k' u.0, Unique-remove d k u.1)
  ]

  pub put_absent : (m : K → Option V) (k k' : K) → m k ≡ none → put k none m k' ≡ m k'
  unfolding put
  put_absent m k k' e = ground (arith, e, ap m ((key.equal_iff k k').0 _))

  -- Where a value in `put` is from.
  pub put-cases :
      (k k' : K) (c : Option V) (m : K → Option V) (v : V)
      → put k c m k' ≡ some v
      → ((k ≡ k') × (c ≡ some v)) ⊎ ((k ≢ k') × (m k' ≡ some v))
  put-cases k k' c m v e = elim (Bool-cases (key.equal k k')) [
    | inl same ↦
        let k_same = (key.equal_iff k k').0 same in
        inl (k_same, sym (put_same k c m) ∙ ap (put k c m) k_same ∙ e)
    | inr differ ↦
        let other : k ≢ k' = λ k_same. ground (arith, (key.equal_iff k k').1 k_same) in
        inr (other, sym (put_other k k' c m other) ∙ e)
  ]
