-- ===== src/Inode/Unique.antt =====
-- kernel/fs.c: an inode in use has one entry of the table.
use mathlib.Core.Option
use xv6_riscv.Base.{
  ℕ, zero, suc, ◌<◌, ◌≡◌, ◌≢◌, refl, sym, ap, ◌∙◌, subst, false, Option, none, some, List, [], ◌∷◌,
  All, arith, ◌⊎◌, inl, inr, get_elem?, some_inj,
}
use native.Mathlib.Decide.{ℕ_discrete}
use xv6_riscv.Inode.{Inode, is_inode, at_entry}

pub get_elem?-at_entry_self :
    (i : ℕ) (f : Inode → Inode) (t : List Inode)
    → get_elem? (at_entry i f t) i ≡ Option.map f (get_elem? t i)
unfolding at_entry
get_elem?-at_entry_self i f [] = refl
get_elem?-at_entry_self zero f (ip ∷ ips) = refl
get_elem?-at_entry_self (suc i) f (ip ∷ ips) = get_elem?-at_entry_self i f ips

pub get_elem?-at_entry_ne :
    (i j : ℕ) (f : Inode → Inode) (t : List Inode)
    → i ≢ j
    → get_elem? (at_entry i f t) j ≡ get_elem? t j
unfolding at_entry
get_elem?-at_entry_ne i j f [] ne = refl
get_elem?-at_entry_ne zero zero f (ip ∷ ips) ne = absurd (ne refl)
get_elem?-at_entry_ne zero (suc j) f (ip ∷ ips) ne = refl
get_elem?-at_entry_ne (suc i) zero f (ip ∷ ips) ne = refl
get_elem?-at_entry_ne (suc i) (suc j) f (ip ∷ ips) ne =
    get_elem?-at_entry_ne i j f ips (λ e. ne (omega (arith, e)))

-- The entry `i` is in use for this inode.
abbrev pub Uses : List Inode → ℕ → ℕ → ℕ → Type 0
Uses t i dev inum =
    (ip : Inode) × ((get_elem? t i ≡ some ip)
      × ((0 < ip.ref) × ((ip.dev ≡ dev) × (ip.inum ≡ inum))))

abbrev pub Unique : List Inode → Type 0
Unique t = (dev inum i j : ℕ) → Uses t i dev inum → Uses t j dev inum → i ≡ j

map-some :
    (f : Inode → Inode) (o : Option Inode) (q : Inode)
    → Option.map f o ≡ some q
    → (p : Inode) × ((o ≡ some p) × (q ≡ f p))
map-some f none q e = absurd (cc)
map-some f (some p) q e = (p, (refl, sym (some_inj e)))

-- The inodes in use of a table with one entry changed.
Uses-changed :
    (t : List Inode) (k : ℕ) (f : Inode → Inode) (i dev inum : ℕ)
    → Uses (at_entry k f t) i dev inum
    → ((k ≢ i) × Uses t i dev inum)
      ⊎ ((k ≡ i)
          × ((p : Inode) × ((get_elem? t k ≡ some p)
                × ((0 < (f p).ref) × (((f p).dev ≡ dev) × ((f p).inum ≡ inum))))))
Uses-changed t k f i dev inum (q, (at, (pos, (d, n)))) = elim (ℕ_discrete k i) [
  | yes e ↦
      let at_k : get_elem? (at_entry k f t) k ≡ some q =
        subst (λ m. get_elem? (at_entry k f t) m ≡ some q) (sym e) at in
      let (p, (old, new)) =
        map-some f (get_elem? t k) q (sym (get_elem?-at_entry_self k f t) ∙ at_k) in
      inr (
        e,
        (
          p,
          (
            old,
            (
              subst (λ (x : Inode). 0 < x.ref) new pos,
              (ap (λ (x : Inode). x.dev) (sym new) ∙ d, ap (λ (x : Inode). x.inum) (sym new) ∙ n),
            ),
          ),
        ),
      )
  | no ne ↦ inl (ne, (q, (sym (get_elem?-at_entry_ne k i f t ne) ∙ at, (pos, (d, n)))))
]

-- A change is harmless if what the entry is in use for then is used nowhere else.
pub change-Unique :
    (t : List Inode) (k : ℕ) (f : Inode → Inode)
    → Unique t
    → ((p : Inode) (j : ℕ)
        → get_elem? t k ≡ some p
        → 0 < (f p).ref
        → Uses t j (f p).dev (f p).inum
        → k ≡ j)
    → Unique (at_entry k f t)
change-Unique t k f u safe dev inum i j ui uj = elim (Uses-changed t k f i dev inum ui) [
  | inl (_, old_i) ↦ elim (Uses-changed t k f j dev inum uj) [
    | inl (_, old_j) ↦ u dev inum i j old_i old_j
    | inr (e, (p, (at, (pos, (d, n))))) ↦ sym (sym e ∙ safe p i at pos (moved p i d n old_i))
  ]
  | inr (e, (p, (at, (pos, (d, n))))) ↦ elim (Uses-changed t k f j dev inum uj) [
    | inl (_, old_j) ↦ sym e ∙ safe p j at pos (moved p j d n old_j)
    | inr (e', _) ↦ sym e ∙ e'
  ]
]
  where
    moved :
        (p : Inode) (l : ℕ)
        → (f p).dev ≡ dev
        → (f p).inum ≡ inum
        → Uses t l dev inum
        → Uses t l (f p).dev (f p).inum
    moved p l d n (q, (at, (pos, (d', n')))) = (q, (at, (pos, (d' ∙ sym d, n' ∙ sym n))))

-- A change that keeps the inode of an entry that stays in use.
pub keep-Unique :
    (t : List Inode) (k : ℕ) (f : Inode → Inode)
    → ((p : Inode)
        → get_elem? t k ≡ some p
        → 0 < (f p).ref
        → (0 < p.ref) × (((f p).dev ≡ p.dev) × ((f p).inum ≡ p.inum)))
    → Unique t
    → Unique (at_entry k f t)
keep-Unique t k f keep u = change-Unique t k f u (λ p j at pos used.
    let (old, (d, n)) = keep p at pos in
    u (f p).dev (f p).inum k j (p, (at, (old, (sym d, sym n)))) used)

pub not_used :
    (dev inum : ℕ) (t : List Inode) (j : ℕ)
    → All (λ ip. is_inode dev inum ip ≡ false) t
    → ¬ Uses t j dev inum
not_used dev inum [] j h (q, (at, _)) = cc
not_used dev inum (ip ∷ ips) zero h (q, (at, (pos, (d, n)))) =
    let same : ip ≡ q = some_inj at in
    let other : is_inode dev inum q ≡ false =
      subst (λ (x : Inode). is_inode dev inum x ≡ false) same h.0 in
    ground (arith, other, pos, d, n)
not_used dev inum (ip ∷ ips) (suc j) h u = not_used dev inum ips j h.1 u
