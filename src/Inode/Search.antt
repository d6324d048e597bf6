-- ===== src/Inode/Search.antt =====
-- kernel/fs.c: which entry `iget` takes.
use xv6_riscv.Base.{
  ℕ, suc, ◌-◌, ◌≤◌, ◌≡◌, refl, subst, true, false, Option, none, some, List, [], ◌∷◌, All, arith,
  ◌⊎◌, inl, inr, Bool-cases, get_elem?, ◌==◌, ==→eq,
}
use xv6_riscv.Inode.{Inode, is_inode, Found, entry, free, remember, search_table}

-- What the loop from entry `i` on says of the entries from there.
abbrev pub Searched : ℕ → ℕ → Option ℕ → ℕ → List Inode → Found → Type 0
Searched dev inum empty i t (entry j) =
    (i ≤ j) × ((ip : Inode) × ((get_elem? t (j - i) ≡ some ip) × (is_inode dev inum ip ≡ true)))
Searched dev inum empty i t (free none) =
    (empty ≡ none)
    × (All (λ ip. is_inode dev inum ip ≡ false) t × All (λ ip. (ip.ref == 0) ≡ false) t)
Searched dev inum empty i t (free (some j)) =
    All (λ ip. is_inode dev inum ip ≡ false) t
    × ((empty ≡ some j)
        ⊎ ((empty ≡ none)
            × ((i ≤ j) × ((ip : Inode) × ((get_elem? t (j - i) ≡ some ip) × (ip.ref ≡ 0))))))

next_entry :
    (ip : Inode) (ips : List Inode) (i j : ℕ) (q : Inode)
    → suc i ≤ j
    → get_elem? ips (j - suc i) ≡ some q
    → get_elem? (ip ∷ ips) (j - i) ≡ some q
next_entry ip ips i j q le at =
    let later : j - i ≡ suc (j - suc i) = omega (arith, le) in rw later at

this_entry : (ip : Inode) (ips : List Inode) (i : ℕ) → get_elem? (ip ∷ ips) (i - i) ≡ some ip
this_entry ip ips i = let z : i - i ≡ 0 = omega arith in rw z

Searched-cons :
    (dev inum : ℕ) (empty : Option ℕ) (i : ℕ) (ip : Inode) (ips : List Inode) (r : Found)
    → is_inode dev inum ip ≡ false
    → Searched dev inum (remember empty i ip) (suc i) ips r
    → Searched dev inum empty i (ip ∷ ips) r
Searched-cons dev inum empty i ip ips (entry j) other (le, (q, (at, same))) =
    (omega (arith, le), (q, (next_entry ip ips i j q le at, same)))
Searched-cons dev inum none i ip ips (free none) other (e, (all, busy)) =
    (refl, ((other, all), (ground (arith, e), busy)))
Searched-cons dev inum (some k) i ip ips (free none) other (e, rest) = absurd (cc)
Searched-cons dev inum (some k) i ip ips (free (some j)) other (all, inl e) = ((other, all), inl e)
Searched-cons dev inum (some k) i ip ips (free (some j)) other (all, inr (e, rest)) = absurd (cc)
Searched-cons dev inum none i ip ips (free (some j)) other (all, why) =
    elim (Bool-cases (ip.ref == 0)) [
      | inl idle ↦ ((other, all), inr (refl, here (==→eq ip.ref 0 idle) (first idle why)))
      | inr busy ↦ ((other, all), inr (refl, later busy why))
    ]
  where
    first :
        (ip.ref == 0) ≡ true
        → ((remember none i ip ≡ some j)
            ⊎ ((remember none i ip ≡ none)
                × ((suc i ≤ j)
                    × ((q : Inode) × ((get_elem? ips (j - suc i) ≡ some q) × (q.ref ≡ 0))))))
        → i ≡ j
    first idle w = elim w [
      | inl e ↦ ground (arith, idle, e)
      | inr (e, _) ↦ absurd (ground (arith, idle, e))
    ]

    here :
        ip.ref ≡ 0
        → i ≡ j
        → (i ≤ j) × ((q : Inode) × ((get_elem? (ip ∷ ips) (j - i) ≡ some q) × (q.ref ≡ 0)))
    here z e =
        subst
          (λ k. (i ≤ k) × ((q : Inode) × ((get_elem? (ip ∷ ips) (k - i) ≡ some q) × (q.ref ≡ 0)))) e
          (omega arith, (ip, (this_entry ip ips i, z)))

    later :
        (ip.ref == 0) ≡ false
        → ((remember none i ip ≡ some j)
            ⊎ ((remember none i ip ≡ none)
                × ((suc i ≤ j)
                    × ((q : Inode) × ((get_elem? ips (j - suc i) ≡ some q) × (q.ref ≡ 0))))))
        → (i ≤ j) × ((q : Inode) × ((get_elem? (ip ∷ ips) (j - i) ≡ some q) × (q.ref ≡ 0)))
    later busy w = elim w [
      | inl e ↦ absurd (ground (arith, busy, e))
      | inr (e, (le, (q, (at, z)))) ↦ (omega (arith, le), (q, (next_entry ip ips i j q le at, z)))
    ]

search_table-Searched :
    (dev inum : ℕ) (empty : Option ℕ) (i : ℕ) (t : List Inode)
    → Searched dev inum empty i t (search_table dev inum empty i t)
unfolding search_table
search_table-Searched dev inum none i [] = (refl, (tt, tt))
search_table-Searched dev inum (some j) i [] = (tt, inl refl)
search_table-Searched dev inum empty i (ip ∷ ips) =
    let rest = search_table-Searched dev inum (remember empty i ip) (suc i) ips in
    elim (Bool-cases (is_inode dev inum ip)) [
      | inl same ↦ rw same (omega arith, (ip, (this_entry ip ips i, same)))
      | inr other ↦ rw other (
          Searched-cons dev inum empty i ip ips
            (search_table dev inum (remember empty i ip) (suc i) ips) other rest)
    ]

-- What the search of the whole table found.
abbrev pub Answer : ℕ → ℕ → List Inode → Found → Type 0
Answer dev inum t (entry j) =
    (ip : Inode) × ((get_elem? t j ≡ some ip) × (is_inode dev inum ip ≡ true))
Answer dev inum t (free none) =
    All (λ ip. is_inode dev inum ip ≡ false) t × All (λ ip. (ip.ref == 0) ≡ false) t
Answer dev inum t (free (some j)) =
    All (λ ip. is_inode dev inum ip ≡ false) t
    × ((ip : Inode) × ((get_elem? t j ≡ some ip) × (ip.ref ≡ 0)))

Answer-of :
    (dev inum : ℕ) (t : List Inode) (r : Found) → Searched dev inum none 0 t r → Answer dev inum t r
Answer-of dev inum t (entry j) (_, (ip, (at, same))) =
    let back : j - 0 ≡ j = omega arith in (ip, (subst (λ n. get_elem? t n ≡ some ip) back at, same))
Answer-of dev inum t (free none) h = h.1
Answer-of dev inum t (free (some j)) (all, inl e) = absurd (cc)
Answer-of dev inum t (free (some j)) (all, inr (_, (_, (ip, (at, z))))) =
    let back : j - 0 ≡ j = omega arith in
    (all, (ip, (subst (λ n. get_elem? t n ≡ some ip) back at, z)))

pub search_table-Answer :
    (dev inum : ℕ) (t : List Inode) → Answer dev inum t (search_table dev inum none 0 t)
search_table-Answer dev inum t =
    Answer-of dev inum t (search_table dev inum none 0 t) (search_table-Searched dev inum none 0 t)
