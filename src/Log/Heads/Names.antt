-- ===== src/Log/Heads/Names.antt =====
-- The names in the heads of log lines of src/quekka/Quekka_log.c: the file without its folders, and
-- the level from its table.
use tiny_mon.Base.{
  ℕ, zero, suc, ◌<◌, ◌≡◌, ◌≢◌, refl, ap, ◌∙◌, ◌⊎◌, inl, inr, ◌==◌, ==_self, ==_ne, Bool-cases, none,
  some, List, [], ◌∷◌, ◌++◌, arith,
}
use tiny_mon.Log.Heads.{level_strings, level_colors, get_elem?, strrchr, base_name}
use tiny_mon.Log.Heads.Read.{NoByte}

-- A path to a file: its name, or its name behind folders.
abbrev pub IsPath : (file name : List ℕ) → Type 0
IsPath file name =
    (file ≡ name) ⊎ ((folders : List ℕ) × (file ≡ folders ++ (b'/' ∷ name)) × NoByte 0 folders)

strrchr-absent : (name : List ℕ) (c : ℕ) → NoByte c name → strrchr name c ≡ none
unfolding strrchr
strrchr-absent [] c n = refl
strrchr-absent (d ∷ s) c n = elim (Bool-cases (d == 0)) [
  | inl e ↦ rw e refl
  | inr e ↦ rw (e, strrchr-absent s c n.1, ==_ne d c n.0) refl
]

strrchr-last :
    (folders name : List ℕ) (c : ℕ)
    → NoByte 0 folders
    → c ≢ 0
    → NoByte c name
    → strrchr (folders ++ (c ∷ name)) c ≡ some (c ∷ name)
unfolding strrchr
strrchr-last [] name c f ne n = rw (==_ne c 0 ne, strrchr-absent name c n, ==_self c) refl
strrchr-last (d ∷ s) name c f ne n = rw (==_ne d 0 f.0, strrchr-last s name c f.1 ne n) refl

pub base_name-IsPath :
    (file name : List ℕ) → IsPath file name → NoByte b'/' name → base_name file ≡ name
unfolding base_name
base_name-IsPath file name (inl e) n =
    ap base_name e ∙ rw (base_name, strrchr-absent name b'/' n) refl
base_name-IsPath file name (inr (folders, e, f)) n =
    ap base_name e ∙ rw (base_name, strrchr-last folders name b'/' f (λ e'. omega arith) n) refl

pub level_names :
    (level : ℕ)
    → level < 5
    → (name color : List ℕ) × (get_elem? level_strings level ≡ some name)
      × (get_elem? level_colors level ≡ some color)
      × NoByte b']' name
level_names zero lt = (
  _,
  _,
  refl,
  refl,
  (
    λ e. omega arith,
    (λ e. omega arith, (λ e. omega arith, (λ e. omega arith, (λ e. omega arith, tt)))),
  ),
)
level_names (suc zero) lt = (
  _,
  _,
  refl,
  refl,
  (λ e. omega arith, (λ e. omega arith, (λ e. omega arith, (λ e. omega arith, tt)))),
)
level_names (suc (suc zero)) lt = (
  _,
  _,
  refl,
  refl,
  (
    λ e. omega arith,
    (
      λ e. omega arith,
      (
        λ e. omega arith,
        (λ e. omega arith, (λ e. omega arith, (λ e. omega arith, (λ e. omega arith, tt)))),
      ),
    ),
  ),
)
level_names (suc (suc (suc zero))) lt = (
  _,
  _,
  refl,
  refl,
  (
    λ e. omega arith,
    (λ e. omega arith, (λ e. omega arith, (λ e. omega arith, (λ e. omega arith, tt)))),
  ),
)
level_names (suc (suc (suc (suc zero)))) lt = (
  _,
  _,
  refl,
  refl,
  (
    λ e. omega arith,
    (λ e. omega arith, (λ e. omega arith, (λ e. omega arith, (λ e. omega arith, tt)))),
  ),
)
level_names (suc (suc (suc (suc (suc n))))) lt = absurd (omega arith)
