-- ===== src/Kalloc/Chain.antt =====
-- kernel/kalloc.c: the free list, read off the links in the free pages.
use xv6_riscv.Base.{
  ℕ, ◌+◌, ◌-◌, ◌%◌, ◌≤◌, ◌<◌, ◌≡◌, ◌≢◌, sym, subst, true, false, List, [], ◌∷◌, All, update,
  update_ne, arith, none, some,
}
use xv6_riscv.Kalloc.{
  Page, Mem, frame, fill, bad_page, kernbase, phystop, pgsize, memref_get, memref_set, memref_lock,
  memref_unlock, push_free, kfree, kfree_locked, kalloc, count_fresh, share,
}

-- The links from `head` run through exactly these pages and end in a null pointer.
abbrev pub Chain : (ℕ → Page) → ℕ → List ℕ → Type 0
Chain page head [] = head ≡ 0
Chain page head (p ∷ ps) = (head ≡ p) × (p ≢ 0) × Chain page (page p 0) ps

abbrev pub Apart : ℕ → List ℕ → Type 0
Apart q = All (λ p. q ≢ p)

abbrev pub Distinct : List ℕ → Type 0
Distinct [] = Unit
Distinct (p ∷ ps) = Apart p ps × Distinct ps

-- Writing a page that is not on the list keeps the list.
pub update-Chain :
    (page : ℕ → Page) (q : ℕ) (v : Page) (head : ℕ) (ps : List ℕ)
    → Apart q ps
    → Chain page head ps
    → Chain (update page q v) head ps
update-Chain page q v head [] a c = c
update-Chain page q v head (p ∷ ps) a c = (
  c.0,
  c.1,
  update-Chain page q v (update page q v p 0) ps a.1
      (subst (λ (w : Page). Chain page (w 0) ps) (sym (update_ne page q p v a.0)) c.2),
)

-- a page that `kfree` accepts
abbrev pub IsPage : ℕ → ℕ → Type 0
IsPage kend pa = (pa % pgsize ≡ 0) × (kend ≤ pa) × (pa < phystop)

pub bad_page-IsPage : (kend pa : ℕ) → IsPage kend pa → bad_page kend pa ≡ false
bad_page-IsPage kend pa h = ground arith

-- Two pages have one counter only if they are the same page.
pub frame_inj :
    (kend p q : ℕ) → kernbase ≤ kend → IsPage kend p → IsPage kend q → frame p ≡ frame q → p ≡ q
frame_inj kend p q k hp hq e = omega arith

-- What `kfree` does where `memref.lock` is free.
pub kfree_more :
    (kend pa : ℕ) (m : Mem)
    → IsPage kend pa
    → m.locked ≡ false
    → 1 < m.refs (frame pa)
    → kfree kend pa m
      ≡ some (record m { refs = update m.refs (frame pa) (m.refs (frame pa) - 1); locked = false })
unfolding kfree kfree_locked memref_lock memref_unlock memref_set memref_get
kfree_more kend pa m h free many = rw (bad_page-IsPage kend pa h, free) (ground arith)

pub kfree_last :
    (kend pa : ℕ) (m : Mem)
    → IsPage kend pa
    → m.locked ≡ false
    → m.refs (frame pa) < 2
    → kfree kend pa m
      ≡ some (push_free pa (record m { refs = update m.refs (frame pa) 0; locked = false }))
unfolding kfree kfree_locked memref_lock memref_unlock memref_set memref_get
kfree_last kend pa m h free few = rw (bad_page-IsPage kend pa h, free) (ground arith)

-- While the lock is held `kfree` panics.
pub kfree_locked_panics : (kend pa : ℕ) (m : Mem) → m.locked ≡ true → kfree kend pa m ≡ none
unfolding kfree memref_lock
kfree_locked_panics kend pa m held = ground arith

pub kalloc-none : (m : Mem) → m.freelist ≡ 0 → kalloc m ≡ some (0, m)
unfolding kalloc
kalloc-none m e = ground arith

pub kalloc-some :
    (m : Mem)
    → m.freelist ≢ 0
    → m.locked ≡ false
    → kalloc m
      ≡ some (
        m.freelist,
        record m {
          page = update m.page m.freelist (fill 5);
          freelist = m.page m.freelist 0;
          refs = update m.refs (frame m.freelist) 1;
          locked = false;
        },
      )
unfolding kalloc count_fresh memref_lock memref_unlock memref_set
kalloc-some m ne free = ground arith

pub share_lem :
    (pa : ℕ) (m : Mem)
    → m.locked ≡ false
    → share pa m
      ≡ some (record m { refs = update m.refs (frame pa) (m.refs (frame pa) + 1); locked = false })
unfolding share memref_lock memref_unlock memref_set memref_get
share_lem pa m free = ground arith
