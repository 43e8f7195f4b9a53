-- ===== src/Config/Ip.antt =====
-- `Quekka_config_set_ip` and `Quekka_config_get_ip`.
use tiny_mon.Base.{
  ℕ, zero, suc, ◌<◌, ◌≡◌, refl, ap, Bool-cases, inl, inr, List, [], ◌∷◌, ◌++◌, ◌==◌, length,
  length-take, drop, cstr, strlen, strncpy, arith, lt→ltb,
}
use tiny_mon.Base.Memory.{strlen-eq-length-cstr, cstr-strncpy}
use tiny_mon.Config.{Config, set_ip, get_ip}

cstr-strncpy-append : (n : ℕ) (s t : List ℕ) → strlen s < n → cstr (strncpy n s ++ t) ≡ cstr s
unfolding cstr strlen strncpy
cstr-strncpy-append zero s t h = absurd (omega arith)
cstr-strncpy-append (suc n) [] t h = refl
cstr-strncpy-append (suc n) (c ∷ s) t h = elim (Bool-cases (c == 0)) [
  | inl e ↦ rw e
  | inr e ↦ rw e (ap (λ l. c ∷ l) (cstr-strncpy-append n s t (ground (arith, e))))
]

strlen-strncpy : (n : ℕ) (s : List ℕ) → 0 < strlen s → 0 < n → 0 < strlen (strncpy n s)
strlen-strncpy n s h h' = omega (
  arith,
  strlen-eq-length-cstr (strncpy n s),
  ap length (cstr-strncpy n s),
  length-take n (cstr s),
  strlen-eq-length-cstr s,
)

-- A text of 1 to 15 characters that is set as the address is the text that is read back, with the
-- result 0 and whatever the configuration and the caller's array held.
pub set_ip-get_ip :
    (c : Config) (ip out : List ℕ)
    → 0 < strlen ip
    → strlen ip < 16
    → ((get_ip (set_ip c ip).1 out).0 ≡ 0) × (cstr (get_ip (set_ip c ip).1 out).1 ≡ cstr ip)
unfolding set_ip get_ip
set_ip-get_ip c ip out some_ip short =
    let positive : 0 < strlen (strncpy 16 ip) = strlen-strncpy 16 ip some_ip (omega arith) in
    (
      rw (lt→ltb 0 (strlen (strncpy 16 ip)) positive),
      rw (lt→ltb 0 (strlen (strncpy 16 ip)) positive)
          (cstr-strncpy-append 16 ip (drop 16 out) short),
    )
