-- ===== src/Inode/History.antt =====
-- kernel/fs.c: histories of calls that get, duplicate, lock, unlock and put inodes.
use mathlib.Core.Option
use xv6_riscv.Base.{
  ℕ, ◌+◌, ◌-◌, ◌<◌, ◌≡◌, refl, sym, ap, ◌∙◌, subst, Bool, true, false, some, List, ◌∷◌, arith, ◌⊎◌,
  inl, inr, Bool-cases, Option-cases, get_elem?, ◌==◌, ◌&&◌, count, remove, count_self, count_ne,
  count-remove_self, count-remove_ne, update,
}
use xv6_riscv.Lock.{Sleeplock, acquiresleep, releasesleep}
use xv6_riscv.Inode.{
  Inode, Itable, at_entry, iget, idup, ilock, iunlock, iput, iupdate, locks, wiped,
}
use xv6_riscv.Inode.Unique.{get_elem?-at_entry_self}
use xv6_riscv.Inode.Steps.{
  Ledger, Step, gets, dups, locks_one, unlocks, puts, IsValid, held_entry, keep-IsValid,
}
use xv6_riscv.Inode.Get.{Got, iget-Got}

gets-IsValid :
    (dev inum i : ℕ) (s t : Itable) (held : List ℕ)
    → IsValid s.inodes held
    → iget dev inum s ≡ some (i, t)
    → IsValid t.inodes (i ∷ held)
gets-IsValid dev inum i s t held v e =
    (subst (Got dev inum s.inodes held) e (iget-Got dev inum s held v)).0

-- A change of a held entry that keeps its inode and its count.
still-IsValid :
    (t : List Inode) (held : List ℕ) (i : ℕ) (f : Inode → Inode)
    → IsValid t held
    → 0 < count i held
    → ((q : Inode) → ((f q).dev ≡ q.dev) × (((f q).inum ≡ q.inum) × ((f q).ref ≡ q.ref)))
    → IsValid (at_entry i f t) held
still-IsValid t held i f v pos keep =
    let (p, (at, same)) = held_entry t held i v pos in
    keep-IsValid t held held i f p v at (omega (arith, same, pos)) (λ q. ((keep q).0, (keep q).1.0))
      ((keep p).1.1 ∙ same) (λ j ne. refl)

-- `ilock` and `iunlock` change the held entry only.
ilock_lem :
    (pid i : ℕ) (s t : Itable)
    → ilock pid i s ≡ locks t
    → (lk : Sleeplock) × ((t.inodes ≡ at_entry i (λ (p : Inode). record p { lock = lk }) s.inodes)
        ⊎ (t.inodes
            ≡ at_entry i
                (λ (p : Inode). record p { lock = lk; valid = true; copy = s.disk p.dev p.inum })
                s.inodes))
unfolding ilock
ilock_lem pid i s t e = elim (Option-cases (get_elem? s.inodes i)) [
  | inl past ↦ absurd (ground (arith, past, e))
  | inr (ip, at) ↦ elim (Option-cases (acquiresleep pid ip.lock)) [
    | inl shut ↦ absurd (ground (arith, at, shut, e))
    | inr (lk, opens) ↦ (
      lk,
      elim (Bool-cases ip.valid) [
        | inl full ↦ inl (ground (arith, at, opens, full, e))
        | inr stale ↦ inr (ground (arith, at, opens, stale, e))
      ],
    )
  ]
]

iunlock_lem :
    (pid i : ℕ) (s t : Itable)
    → iunlock pid i s ≡ some t
    → t.inodes ≡ at_entry i (λ (p : Inode). record p { lock = releasesleep p.lock }) s.inodes
unfolding iunlock
iunlock_lem pid i s t e = elim (Option-cases (get_elem? s.inodes i)) [
  | inl past ↦ absurd (ground (arith, past, e))
  | inr (ip, at) ↦ ground (arith, at, e)
]

locks-IsValid :
    (pid i : ℕ) (s t : Itable) (held : List ℕ)
    → IsValid s.inodes held
    → 0 < count i held
    → ilock pid i s ≡ locks t
    → IsValid t.inodes held
locks-IsValid pid i s t held v pos e =
    let (lk, how) = ilock_lem pid i s t e in
    elim how [
      | inl same ↦
          subst (λ l. IsValid l held) (sym same)
            (still-IsValid s.inodes held i (λ p. record p { lock = lk }) v pos
              (λ q. (refl, (refl, refl))))
      | inr same ↦
          subst (λ l. IsValid l held) (sym same)
            (still-IsValid s.inodes held i
              (λ p. record p { lock = lk; valid = true; copy = s.disk p.dev p.inum }) v pos
              (λ q. (refl, (refl, refl))))
    ]

unlocks-IsValid :
    (pid i : ℕ) (s t : Itable) (held : List ℕ)
    → IsValid s.inodes held
    → 0 < count i held
    → iunlock pid i s ≡ some t
    → IsValid t.inodes held
unlocks-IsValid pid i s t held v pos e =
    subst (λ l. IsValid l held) (sym (iunlock_lem pid i s t e))
      (still-IsValid s.inodes held i (λ p. record p { lock = releasesleep p.lock }) v pos
        (λ q. (refl, (refl, refl))))

abbrev drop_ref : Inode → Inode
drop_ref p = record p { ref = p.ref - 1 }

abbrev wipe : Inode → Inode
wipe p = record p { copy = wiped p.copy; valid = false }

abbrev pub frees : Inode → Bool
frees ip = ip.ref == 1 && ip.valid && ip.copy.nlink == 0

-- What `iput` of a held entry does.
pub iput-keeps :
    (i : ℕ) (s : Itable) (p : Inode)
    → get_elem? s.inodes i ≡ some p
    → frees p ≡ false
    → iput i s ≡ record s { inodes = at_entry i drop_ref s.inodes }
unfolding iput
iput-keeps i s p at e = rw (at, e, iput) refl

pub iput-frees :
    (i : ℕ) (s : Itable) (p : Inode)
    → get_elem? s.inodes i ≡ some p
    → frees p ≡ true
    → iput i s ≡ record {
      inodes = at_entry i drop_ref (at_entry i wipe s.inodes);
      disk = update s.disk p.dev (update (s.disk p.dev) p.inum (wiped p.copy));
    }
unfolding iput iupdate
iput-frees i s p at e = rw (at, e, iput) refl

puts-IsValid :
    (i : ℕ) (s : Itable) (held : List ℕ)
    → IsValid s.inodes held
    → 0 < count i held
    → IsValid (iput i s).inodes (remove i held)
puts-IsValid i s held v pos =
    let (p, (at, same)) = held_entry s.inodes held i v pos in
    elim (Bool-cases (frees p)) [
      | inl gone ↦
          let mid : IsValid (at_entry i wipe s.inodes) held =
            still-IsValid s.inodes held i wipe v pos (λ q. (refl, (refl, refl))) in
          rw (iput-frees i s p at gone) (
            last (at_entry i wipe s.inodes) (wipe p) mid
              (get_elem?-at_entry_self i wipe s.inodes ∙ ap (Option.map wipe) at) same)
      | inr stays ↦ rw (iput-keeps i s p at stays) (last s.inodes p v at same)
    ]
  where
    last :
        (t : List Inode) (q : Inode)
        → IsValid t held
        → get_elem? t i ≡ some q
        → q.ref ≡ count i held
        → IsValid (at_entry i drop_ref t) (remove i held)
    last t q w at same =
        keep-IsValid t held (remove i held) i drop_ref q w at (omega (arith, same, pos))
          (λ x. (refl, refl)) (omega (arith, same, count-remove_self i held))
          (λ j ne. count-remove_ne i j held ne)

abbrev pub Valid : Ledger → Type 0
Valid s = IsValid s.table.inodes s.held

dups-IsValid :
    (s : Ledger) (i : ℕ)
    → Valid s
    → 0 < count i s.held
    → IsValid (idup i s.table).inodes (i ∷ s.held)
unfolding idup
dups-IsValid s i v pos =
    let (p, (at, same)) = held_entry s.table.inodes s.held i v pos in
    keep-IsValid s.table.inodes s.held (i ∷ s.held) i (λ ip. record ip { ref = ip.ref + 1 }) p v at
      (omega (arith, same, pos)) (λ q. (refl, refl)) (omega (arith, count_self i s.held, same))
      (λ j ne. count_ne i j s.held ne)

Step-Valid : {s t : Ledger} → Step s t → Valid s → Valid t
Step-Valid {s} (gets {t = t} dev inum i e) v = gets-IsValid dev inum i s.table t s.held v e
Step-Valid {s} (dups i pos) v = dups-IsValid s i v pos
Step-Valid {s} (locks_one {t = t} pid i pos e) v = locks-IsValid pid i s.table t s.held v pos e
Step-Valid {s} (unlocks {t = t} pid i pos e) v = unlocks-IsValid pid i s.table t s.held v pos e
Step-Valid {s} (puts i pos) v = puts-IsValid i s.table s.held v pos

pub data Reach (start : Ledger) : Ledger → Type 0 where
  here : Reach start start
  next : {s t : Ledger} → Reach start s → Step s t → Reach start t

pub Reach-Valid : {s t : Ledger} → Valid s → Reach s t → Valid t
Reach-Valid v here = v
Reach-Valid v (next r st) = Step-Valid st (Reach-Valid v r)
