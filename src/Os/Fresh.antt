-- ===== src/Os/Fresh.antt =====
-- A kernel that gives out unused descriptors only, as socket(2), accept(2) and epoll_create1(2) say: the
-- open descriptors of a process are then all different.
use tiny_mon.Base.{
  ℕ, ◌≡◌, ◌≢◌, inl, inr, false, List, [], ◌∷◌, ◌==◌, Bool-cases, arith, minus_one, is_negative,
}
use tiny_mon.Os.{Call, Reply}
use tiny_mon.Os.Descriptors.{live, live_after, closed}

abbrev pub Absent : ℕ → List ℕ → Type 0
Absent fd [] = Unit {0}
Absent fd (d ∷ ds) = (fd ≢ d) × Absent fd ds

abbrev pub Distinct : List ℕ → Type 0
Distinct [] = Unit {0}
Distinct (d ∷ ds) = Absent d ds × Distinct ds

-- What a call gives is not among the open descriptors `ds`.
abbrev pub Unused : Call → Reply → List ℕ → Type 0
Unused Call.socket r ds = is_negative r.value ≡ false → Absent r.value ds
Unused (Call.accept fd) r ds = r.value ≢ minus_one → Absent r.value ds
Unused Call.epoll_create r ds = r.value ≢ minus_one → Absent r.value ds
Unused c r ds = Unit {0}

abbrev pub AllUnused : List (Call × Reply) → Type 0
AllUnused [] = Unit {0}
AllUnused ((c, r) ∷ trace) = Unused c r (live trace) × AllUnused trace

Absent-closed : (fd d : ℕ) (ds : List ℕ) → Absent d ds → Absent d (closed fd ds)
unfolding closed
Absent-closed fd d [] h = tt
Absent-closed fd d (e ∷ ds) h = elim (Bool-cases (e == fd)) [
  | inl same ↦ rw same h.1
  | inr other ↦ rw other (h.0, Absent-closed fd d ds h.1)
]

Distinct-closed : (fd : ℕ) (ds : List ℕ) → Distinct ds → Distinct (closed fd ds)
unfolding closed
Distinct-closed fd [] h = tt
Distinct-closed fd (d ∷ ds) h = elim (Bool-cases (d == fd)) [
  | inl same ↦ rw same h.1
  | inr other ↦ rw other (Absent-closed fd d ds h.0, Distinct-closed fd ds h.1)
]

Distinct-live_after :
    (c : Call) (r : Reply) (ds : List ℕ)
    → Unused c r ds
    → Distinct ds
    → Distinct (live_after c r ds)
Distinct-live_after Call.socket r ds u h = elim (Bool-cases (is_negative r.value)) [
  | inl failed ↦ rw failed h
  | inr fine ↦ rw fine (u fine, h)
]
Distinct-live_after (Call.accept fd) r ds u h = elim (Bool-cases (r.value == minus_one)) [
  | inl failed ↦ rw failed h
  | inr fine ↦ rw fine (u (λ e. ground (arith, fine, e)), h)
]
Distinct-live_after Call.epoll_create r ds u h = elim (Bool-cases (r.value == minus_one)) [
  | inl failed ↦ rw failed h
  | inr fine ↦ rw fine (u (λ e. ground (arith, fine, e)), h)
]
Distinct-live_after (Call.close fd) r ds u h = Distinct-closed fd ds h
Distinct-live_after (Call.setsockopt fd) r ds u h = h
Distinct-live_after (Call.bind fd a) r ds u h = h
Distinct-live_after (Call.listen fd) r ds u h = h
Distinct-live_after (Call.connect fd a) r ds u h = h
Distinct-live_after (Call.getfl fd) r ds u h = h
Distinct-live_after (Call.setfl fd flags) r ds u h = h
Distinct-live_after (Call.epoll_add e fd v) r ds u h = h
Distinct-live_after (Call.epoll_del e fd) r ds u h = h
Distinct-live_after (Call.epoll_wait e timeout) r ds u h = h
Distinct-live_after (Call.recv fd size) r ds u h = h
Distinct-live_after (Call.send fd bytes) r ds u h = h
Distinct-live_after (Call.read fd size) r ds u h = h
Distinct-live_after (Call.write fd bytes) r ds u h = h
Distinct-live_after Call.fork r ds u h = h

pub Distinct-live : (trace : List (Call × Reply)) → AllUnused trace → Distinct (live trace)
Distinct-live [] u = tt
Distinct-live ((c, r) ∷ trace) u =
    Distinct-live_after c r (live trace) u.0 (Distinct-live trace u.1)
