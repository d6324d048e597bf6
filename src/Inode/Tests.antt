-- ===== src/Inode/Tests.antt =====
-- kernel/fs.c: runs on a table of two inodes, both free.
use xv6_riscv.Base.{
  ℕ, ◌≡◌, refl, true, false, some, [], ◌∷◌, arith, zero, suc, sym, ap, get_elem?, count, some_inj,
}
use xv6_riscv.Lock.{initsleeplock, acquiresleep}
use xv6_riscv.Inode.{Inode, Dinode, at_entry, iget, ilock, search_table, locks}
use xv6_riscv.Inode.Steps.{Ledger, gets, locks_one, ref_at}
use xv6_riscv.Inode.History.{Valid, Reach, here, next}
use xv6_riscv.Inode.Pointers.{OneEntry, iget-OneEntry}

abbrev blank : Dinode
blank = record { type = 0; major = 0; minor = 0; nlink = 0; size = 0; addrs = λ _. 0 }

abbrev file_5 : Dinode
file_5 = record { type = 2; major = 0; minor = 0; nlink = 0; size = 9; addrs = λ _. 70 }

abbrev free_entry : Inode
free_entry = record {
  dev = 0;
  inum = 0;
  ref = 0;
  lock = initsleeplock;
  valid = false;
  copy = blank;
}

abbrev start : Ledger
start = record {
  table = record { inodes = free_entry ∷ free_entry ∷ []; disk = λ _ _. file_5 };
  held = [];
}

not_free : (i : ℕ) (ip : Inode) → get_elem? (free_entry ∷ free_entry ∷ []) i ≡ some ip → ip.ref ≡ 0
not_free zero ip e = ap (λ (p : Inode). p.ref) (some_inj (sym e))
not_free (suc zero) ip e = ap (λ (p : Inode). p.ref) (some_inj (sym e))
not_free (suc (suc i)) ip e = absurd (cc)

start-Valid : Valid start
start-Valid = record {
  unique = λ dev inum i j (p, (at, (pos, _))) used. absurd (omega (arith, pos, not_free i p at));
  counted = λ i. none_counted i;
}
  where
    none_counted : (i : ℕ) → ref_at (get_elem? start.table.inodes i) ≡ count i []
    none_counted zero = refl
    none_counted (suc zero) = refl
    none_counted (suc (suc i)) = refl

abbrev entry_of : ℕ → Inode
entry_of n = record free_entry { dev = 1; inum = n; ref = 1 }

abbrev one : Ledger
one = record {
  table = record { inodes = entry_of 5 ∷ free_entry ∷ []; disk = λ _ _. file_5 };
  held = 0 ∷ [];
}

abbrev two : Ledger
two = record {
  table = record { inodes = entry_of 5 ∷ entry_of 6 ∷ []; disk = λ _ _. file_5 };
  held = 1 ∷ 0 ∷ [];
}

first_get : iget 1 5 start.table ≡ some (0, one.table)
unfolding iget at_entry search_table
first_get = refl

second_get : iget 1 6 one.table ≡ some (1, two.table)
unfolding iget at_entry search_table
second_get = refl

to_two : Reach start two
to_two = next (next here (gets 1 5 0 first_get)) (gets 1 6 1 second_get)

iget-OneEntry_example : OneEntry 1 6 two.table.inodes (iget 1 6 two.table)
iget-OneEntry_example = iget-OneEntry {s = start} {t = two} 1 6 start-Valid to_two

-- the first inode locked, so that it has been read
abbrev read : Ledger
read = record {
  table = record {
    inodes =
        record (entry_of 5) {
          lock = record { locked = true; pid = 3 };
          valid = true;
          copy = file_5;
        }
        ∷ free_entry
        ∷ [];
    disk = λ _ _. file_5;
  };
  held = 0 ∷ [];
}

locked : ilock 3 0 one.table ≡ locks read.table
unfolding ilock at_entry acquiresleep initsleeplock
locked = refl

to_read : Reach start read
to_read = next (next here (gets 1 5 0 first_get)) (locks_one 3 0 (omega arith) locked)
