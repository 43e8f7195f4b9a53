-- ===== src/Clients/Removal.antt =====
-- `client_manager_remove`: the walk with a pointer to a pointer.
use tiny_mon.Base.{
  ℕ, zero, suc, ◌+◌, ◌<◌, ◌≡◌, ◌≢◌, refl, ap, sym, subst, ◌∙◌, inl, inr, true, false, none, some,
  [], ◌∷◌, arith, ◌==◌, if◌then◌else◌, length, Bool-cases, int_dec,
}
use tiny_mon.Clients.{
  Ptr, null, Info, node, Manager, update, ok, Link, head, next_of, read_link, write_link, unlink,
  remove_loop, remove, as_mgr,
}
use tiny_mon.Clients.Chain.{
  Cells, has, Chain, contains, erase_cell, Holds, Chain-frame, not-has-erase_cell,
  length-erase_cell,
}

-- The node that a link lies in is none of `xs`.
abbrev Outside : Link → Cells → Type 0
Outside head xs = Unit {0}
Outside (next_of p) xs = has xs p ≡ false

-- Writing what a link holds changes nothing.
write_link-read_link :
    (pp : Link) (m : Manager) (v : Ptr)
    → read_link pp m ≡ some v
    → ((write_link pp v m).clients ≡ m.clients)
      × ((a : Ptr) → (write_link pp v m).cell a ≡ m.cell a)
unfolding read_link write_link update
write_link-read_link head m v e = (ground arith, λ a. refl)
write_link-read_link (next_of p) m v e = (refl, λ a. ground arith)

write_link_elsewhere :
    (pp : Link) (xs : Cells) (m : Manager) (v a : Ptr)
    → Outside pp xs
    → has xs a ≡ true
    → (write_link pp v m).cell a ≡ m.cell a
unfolding write_link update
write_link_elsewhere head xs m v a out h = refl
write_link_elsewhere (next_of p) xs m v a out h = ground arith

client_count-write_link :
    (pp : Link) (v : Ptr) (m : Manager) → (write_link pp v m).client_count ≡ m.client_count
unfolding write_link
client_count-write_link head v m = refl
client_count-write_link (next_of p) v m = refl

read_link_head : (m : Manager) → read_link head m ≡ some m.clients
unfolding read_link
read_link_head m = refl

-- What is left when the walk from the link `pp` through `xs` is done.
pub record Removed (m : Manager) (pp : Link) (xs : Cells) (fd : ℕ) (m' : Manager) : Type 0 where
  pub to : Ptr
  pub chain : Chain m'.cell to (erase_cell xs fd)
  pub same_head : m'.clients ≡ (write_link pp to m).clients
  pub same : (a : Ptr) → has xs a ≡ false → m'.cell a ≡ (write_link pp to m).cell a
  pub freed : (a : Ptr) → has xs a ≡ true → has (erase_cell xs fd) a ≡ false → m'.cell a ≡ none
  pub counted :
      m'.client_count ≡ (if contains xs fd then int_dec m.client_count else m.client_count)

module _ (m : Manager) (fd : ℕ) where
  Removed-nil : (pp : Link) (p : Ptr) → read_link pp m ≡ some p → p ≡ null → Removed m pp [] fd m
  unfolding erase_cell contains
  Removed-nil pp p r e = record {
    to = p;
    chain = e;
    same_head = sym (write_link-read_link pp m p r).0;
    same = λ a h. sym ((write_link-read_link pp m p r).1 a);
    freed = λ a h. cc;
    counted = refl;
  }

  Removed-hit :
      (pp : Link) (q next : Ptr) (i : Info) (xs : Cells)
      → Outside pp ((q, i) ∷ xs)
      → has xs q ≡ false
      → Chain m.cell next xs
      → (i.fd == fd) ≡ true
      → Removed m pp ((q, i) ∷ xs) fd (unlink pp q (node i next) m)
  unfolding unlink erase_cell contains update
  Removed-hit pp q next i xs apart out c hit = record {
    to = next;
    chain = rw hit (
        Chain-frame m.cell (unlink pp q (node i next) m).cell next xs
          (λ a h. ground (arith, write_link_elsewhere pp ((q, i) ∷ xs) m next a apart)) c);
    same_head = refl;
    same = λ a h. ground arith;
    freed = λ a h k. ground arith;
    counted = ground (arith, client_count-write_link pp next m);
  }

  Removed-miss :
      (pp : Link) (q next : Ptr) (i : Info) (xs : Cells) (m' : Manager)
      → read_link pp m ≡ some q
      → q ≢ null
      → has xs q ≡ false
      → m.cell q ≡ some (node i next)
      → (i.fd == fd) ≡ false
      → Removed m (next_of q) xs fd m'
      → Removed m pp ((q, i) ∷ xs) fd m'
  unfolding erase_cell contains write_link update
  Removed-miss pp q next i xs m' r ne out at miss rest = record {
    to = q;
    chain = rw miss (
      rest.to,
      refl,
      ne,
      not-has-erase_cell xs fd q out,
      ground (arith, rest.same q),
      rest.chain,
    );
    same_head = rest.same_head ∙ sym (write_link-read_link pp m q r).0;
    same = λ a h. ground (arith, rest.same a, (write_link-read_link pp m q r).1 a);
    freed = λ a h k. ground (arith, rest.freed a);
    counted = ground (arith, rest.counted);
  }

  remove_loop-Removed :
      (fuel : ℕ) (pp : Link) (p : Ptr) (xs : Cells)
      → read_link pp m ≡ some p
      → Outside pp xs
      → Chain m.cell p xs
      → length xs < fuel
      → (m' : Manager) × (remove_loop fuel m pp fd ≡ ok m') × Removed m pp xs fd m'
  unfolding remove_loop read_link
  remove_loop-Removed zero pp p xs r apart c lt = absurd (omega arith)
  remove_loop-Removed (suc fuel) pp p [] r apart c lt = (m, ground arith, Removed-nil pp p r c)
  remove_loop-Removed (suc fuel) pp p ((q, i) ∷ xs) r apart (next, e, ne, out, at, c) lt =
      elim (Bool-cases (i.fd == fd)) [
        | inl hit ↦
            (unlink pp q (node i next) m, ground arith, Removed-hit pp q next i xs apart out c hit)
        | inr miss ↦
            let (m', step, rest) =
              remove_loop-Removed fuel (next_of q) next xs (ground arith) out c (omega arith) in
            (
              m',
              ground (arith, step),
              Removed-miss pp q next i xs m' (ground arith) ne out at miss rest,
            )
      ]

Removed-Holds :
    (m m' : Manager) (xs : Cells) (fd : ℕ)
    → Holds m xs
    → Removed m head xs fd m'
    → Holds m' (erase_cell xs fd)
unfolding write_link
Removed-Holds m m' xs fd h r = record {
  chain = subst (λ p. Chain m'.cell p (erase_cell xs fd)) (sym r.same_head) r.chain;
  counted = ground (arith, r.counted, h.counted, h.bounded, length-erase_cell xs fd);
  bounded = omega (arith, h.bounded, length-erase_cell xs fd);
}

-- `client_manager_remove` takes the first node with the descriptor off a well-formed list, which stays
-- well formed, and frees it, and leaves every address outside the list as it was.
pub remove-Holds :
    (m : Manager) (xs : Cells) (fd : ℕ)
    → Holds m xs
    → (m' : Manager) × (remove (some m) fd ≡ ok (some m'))
      × Holds m' (erase_cell xs fd)
      × ((a : Ptr) → has xs a ≡ false → m'.cell a ≡ m.cell a)
      × ((a : Ptr) → has xs a ≡ true → has (erase_cell xs fd) a ≡ false → m'.cell a ≡ none)
unfolding remove write_link
remove-Holds m xs fd h =
    let (m', e, r) =
      remove_loop-Removed m fd (m.client_count + 1) head m.clients xs (read_link_head m) tt h.chain
        (omega (arith, h.counted)) in
    (m', ap as_mgr e, Removed-Holds m m' xs fd h r, r.same, r.freed)
