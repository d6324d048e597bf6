-- ===== src/Proc/Pids.antt =====
-- kernel/proc.c: a slot is unused exactly when its pid is 0, and the pids in use are distinct and
-- below `nextpid`.
use mathlib.Core.Path.{ap₂}
use mathlib.Core.Option
use xv6_riscv.Base.{
  ℕ, zero, suc, ◌+◌, ◌<◌, ◌≡◌, refl, sym, ap, ◌∙◌, Bool, true, false, some, List, [], ◌∷◌, All,
  All-map, map, set, arith, ◌⊎◌, inl, inr, if◌then◌else◌, ◌==◌, get_elem?, get_elem?-map_from,
  map_from, eq→==, ne→==,
}
use xv6_riscv.Proc.{Proc, Procs, is_unused, at_slot}

abbrev pub key : Proc → ℕ × Bool
key p = (p.pid, is_unused p.state)

abbrev pub keys : List Proc → List (ℕ × Bool)
keys t = map key t

-- The first part is of the slot itself, the second of those after it.
abbrev pub PidsOk : ℕ → List (ℕ × Bool) → Type 0
PidsOk next [] = Unit
PidsOk next ((pid, free) ∷ ks) =
    (((free ≡ true) × (pid ≡ 0)) ⊎ ((free ≡ false) × (0 < pid) × (pid < next)))
    × All (λ k. (k.0 ≡ pid) → pid ≡ 0) ks
    × PidsOk next ks

-- A table with its counter.
abbrev pub IsValid : Procs → Type 0
IsValid s = (0 < s.nextpid) × PidsOk s.nextpid (keys s.table)

below : (next : ℕ) (ks : List (ℕ × Bool)) → PidsOk next ks → 0 < next → All (λ k. k.0 < next) ks
below next [] h pos = tt
below next ((pid, free) ∷ ks) h pos = (ground arith, below next ks h.2 pos)

PidsOk-suc : (next : ℕ) (ks : List (ℕ × Bool)) → PidsOk next ks → PidsOk (next + 1) ks
PidsOk-suc next [] h = tt
PidsOk-suc next ((pid, free) ∷ ks) h = (ground arith, h.1, PidsOk-suc next ks h.2)

All-set :
    (P : ℕ × Bool → Type 0) (ks : List (ℕ × Bool)) (i : ℕ) (v : ℕ × Bool)
    → P v
    → All P ks
    → All P (set ks i v)
All-set P [] i v pv h = tt
All-set P (k ∷ ks) zero v pv h = (pv, h.1)
All-set P (k ∷ ks) (suc i) v pv h = (h.0, All-set P ks i v pv h.1)

-- The next pid may be given to any slot.
pub set-PidsOk :
    (next : ℕ) (ks : List (ℕ × Bool)) (i : ℕ)
    → 0 < next
    → PidsOk next ks
    → PidsOk (next + 1) (set ks i (next, false))
set-PidsOk next [] i pos h = tt
set-PidsOk next ((pid, free) ∷ ks) zero pos h = (
  inr (refl, pos, omega arith),
  All-map (λ (k : ℕ × Bool). k.0 < next) (λ (k : ℕ × Bool). (k.0 ≡ next) → next ≡ 0) ks
      (λ k lt e. absurd (omega arith)) (below next ks h.2 pos),
  PidsOk-suc next ks h.2,
)
set-PidsOk next ((pid, free) ∷ ks) (suc i) pos h = (
  ground arith,
  All-set (λ (k : ℕ × Bool). (k.0 ≡ pid) → pid ≡ 0) ks i (next, false) (λ e. ground (arith, h.0))
      h.1,
  set-PidsOk next ks i pos h.2,
)

-- Any slot may be freed.
pub clear-PidsOk :
    (next : ℕ) (ks : List (ℕ × Bool)) (i : ℕ) → PidsOk next ks → PidsOk next (set ks i (0, true))
clear-PidsOk next [] i h = tt
clear-PidsOk next ((pid, free) ∷ ks) zero h = (
  inl (refl, refl),
  All-map (λ (k : ℕ × Bool). (k.0 ≡ pid) → pid ≡ 0) (λ (k : ℕ × Bool). (k.0 ≡ 0) → ◌≡◌ {A = ℕ} 0 0)
      ks (λ k old e. refl) h.1,
  h.2,
)
clear-PidsOk next ((pid, free) ∷ ks) (suc i) h = (
  h.0,
  All-set (λ (k : ℕ × Bool). (k.0 ≡ pid) → pid ≡ 0) ks i (0, true) (λ e. sym e) h.1,
  clear-PidsOk next ks i h.2,
)

-- Changes that keep pids and use.
pub map_from-keys :
    (f : ℕ → Proc → Proc) (k : ℕ) (t : List Proc)
    → ((j : ℕ) (p : Proc) → key (f j p) ≡ key p)
    → keys (map_from f k t) ≡ keys t
map_from-keys f k [] h = refl
map_from-keys f k (p ∷ ps) h = ground (arith, h k p, map_from-keys f (suc k) ps h)

past_slot :
    (f : Proc → Proc) (n k : ℕ) (t : List Proc)
    → n < k
    → keys (map_from (λ j p. if n == j then f p else p) k t) ≡ keys t
past_slot f n k [] lt = refl
past_slot f n k (p ∷ ps) lt =
    rw (ne→== n k (omega arith)) (ap (◌∷◌ (key p)) (past_slot f n (suc k) ps (omega arith)))

slot-keys :
    (f : Proc → Proc) (v : ℕ × Bool) (n i k : ℕ) (t : List Proc)
    → ((p : Proc) → key (f p) ≡ v)
    → n ≡ k + i
    → keys (map_from (λ j p. if n == j then f p else p) k t) ≡ set (keys t) i v
slot-keys f v n i k [] h e = refl
slot-keys f v n zero k (p ∷ ps) h e =
    rw (eq→== n k (omega arith)) (ap₂ ◌∷◌ (h p) (past_slot f n (suc k) ps (omega arith)))
slot-keys f v n (suc i) k (p ∷ ps) h e =
    rw (ne→== n k (omega arith)) (ap (◌∷◌ (key p)) (slot-keys f v n i (suc k) ps h (omega arith)))

pub at_slot-keys :
    (i : ℕ) (f : Proc → Proc) (v : ℕ × Bool) (s : Procs)
    → ((p : Proc) → key (f p) ≡ v)
    → keys (at_slot i f s).table ≡ set (keys s.table) i v
at_slot-keys i f v s h = slot-keys f v i i 0 s.table h (omega arith)

pub at_slot-keep :
    (i : ℕ) (f : Proc → Proc) (s : Procs)
    → ((p : Proc) → key (f p) ≡ key p)
    → keys (at_slot i f s).table ≡ keys s.table
at_slot-keep i f s h =
    map_from-keys (λ j p. if i == j then f p else p) 0 s.table
      (λ j p. if_keep (i == j) (f p) p (h p))
  where
    if_keep : (b : Bool) (p q : Proc) → key p ≡ key q → key (if b then p else q) ≡ key q
    if_keep true p q e = e
    if_keep false p q e = refl

keep_at :
    (f : Proc → Proc) (n i k : ℕ) (t : List Proc)
    → ((p : Proc) → get_elem? t i ≡ some p → key (f p) ≡ key p)
    → n ≡ k + i
    → keys (map_from (λ j p. if n == j then f p else p) k t) ≡ keys t
keep_at f n i k [] h e = refl
keep_at f n zero k (p ∷ ps) h e =
    rw (eq→== n k (omega arith)) (ap₂ ◌∷◌ (h p refl) (past_slot f n (suc k) ps (omega arith)))
keep_at f n (suc i) k (p ∷ ps) h e =
    rw (ne→== n k (omega arith)) (ap (◌∷◌ (key p)) (keep_at f n i (suc k) ps h (omega arith)))

-- A change of one slot that keeps the key of the process in it.
pub at_slot-keep_at :
    (i : ℕ) (f : Proc → Proc) (s : Procs)
    → ((p : Proc) → get_elem? s.table i ≡ some p → key (f p) ≡ key p)
    → keys (at_slot i f s).table ≡ keys s.table
at_slot-keep_at i f s h = keep_at f i i 0 s.table h (omega arith)

pub get_elem?-at_slot :
    (i : ℕ) (f : Proc → Proc) (s : Procs)
    → get_elem? (at_slot i f s).table i ≡ Option.map f (get_elem? s.table i)
get_elem?-at_slot i f s =
    get_elem?-map_from (λ j p. if i == j then f p else p) 0 i i s.table (omega arith)
    ∙ rw (eq→== i i refl)
