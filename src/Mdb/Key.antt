-- ===== src/Mdb/Key.antt =====
-- include/quekka/Quekka_mdb.hpp, `primarykey` with its hash, and what the unordered maps ask of a key.
use tiny_mon.Base.{
  ℕ, ◌≡◌, ◌≢◌, refl, sym, ap, ◌∙◌, ◌↔◌, Bool, true, false, Bool-cases, inl, inr, ◌==◌, ==_iff,
}

-- `operator==` and `std::hash`.
pub record Key {ℓ} (K : Type ℓ) : Type ℓ where
  pub equal : K → K → Bool
  pub hash : K → ℕ
  pub equal_iff : (a b : K) → (equal a b ≡ true) ↔ (a ≡ b)

module _ {ℓ} {K : Type ℓ} ⦃key : Key K⦄ where
  pub equal_self : (a : K) → key.equal a a ≡ true
  equal_self a = (key.equal_iff a a).1 refl

  pub equal_ne : (a b : K) → a ≢ b → key.equal a b ≡ false
  equal_ne a b ne = elim (Bool-cases (key.equal a b)) [
    | inl e ↦ absurd (ne ((key.equal_iff a b).0 e))
    | inr e ↦ e
  ]

  pub equal_same : (a b c : K) → key.equal a b ≡ true → key.equal a c ≡ key.equal b c
  equal_same a b c e = ap (λ x. key.equal x c) ((key.equal_iff a b).0 e)

  pub equal_sym : (a b : K) → key.equal a b ≡ key.equal b a
  equal_sym a b = elim (Bool-cases (key.equal a b)) [
    | inl e ↦ e ∙ sym ((key.equal_iff b a).1 (sym ((key.equal_iff a b).0 e)))
    | inr e ↦ elim (Bool-cases (key.equal b a)) [
      | inl e' ↦ (key.equal_iff a b).1 (sym ((key.equal_iff b a).0 e')) ∙ sym e'
      | inr e' ↦ e ∙ sym e'
    ]
  ]

pub record PrimaryKey {ℓ} (T : Type ℓ) : Type ℓ where
  pub key : T

abbrev pub get_key {ℓ} : {T : Type ℓ} → PrimaryKey T → T
get_key k = k.key

module _ {ℓ} {T : Type ℓ} ⦃k : Key T⦄ where
  abbrev pub equal : PrimaryKey T → PrimaryKey T → Bool
  equal a b = k.equal (get_key a) (get_key b)

  abbrev pub hash : PrimaryKey T → ℕ
  hash a = k.hash (get_key a)

  pub equal_iff : (a b : PrimaryKey T) → (equal a b ≡ true) ↔ (a ≡ b)
  equal_iff a b = (
    λ e. ap (λ (x : T). record { key = x }) ((k.equal_iff a.key b.key).0 e),
    λ e. (k.equal_iff a.key b.key).1 (ap (λ (x : PrimaryKey T). x.key) e),
  )

  instance abbrev pub primary_key : Key (PrimaryKey T)
  primary_key = record { equal = equal; hash = hash; equal_iff = equal_iff }

instance abbrev pub number_key : Key ℕ
number_key = record { equal = λ a b. a == b; hash = λ a. a; equal_iff = ==_iff }
