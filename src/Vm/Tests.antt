-- ===== src/Vm/Tests.antt =====
-- kernel/vm.c: runs in a small space.
use xv6_riscv.Base.{◌+◌, ◌*◌, ◌-◌, ◌≡◌, refl, arith, true, false, some, [], ◌∷◌}
use xv6_riscv.Kalloc.{pgsize}
use xv6_riscv.Vm.{walk, mappages, pgrounddown}
use xv6_riscv.Vm.User.{uvmunmap, walkaddr}
use xv6_riscv.Vm.Bytes.{copyout, copyin, copyinstr}
use xv6_riscv.Vm.Walk.{Walked, walk-Walked}
use xv6_riscv.Vm.Map.{Mapped}
use xv6_riscv.Vm.Range.{mappages-Mapped}
use xv6_riscv.Vm.Unmap.{Unmapped, uvmunmap-Unmapped}
use xv6_riscv.Vm.Translate.{translate, walkaddr-translate}
use xv6_riscv.Vm.Copyin.{copy_from, copyin-copy_from}
use xv6_riscv.Vm.Copyinstr.{string_from, copyinstr-string_from}
use xv6_riscv.Vm.Copyout.{put_bytes, copyout-put_bytes}
use xv6_riscv.Vm.Seen.{space-Apart}
use xv6_riscv.Vm.Space.{kernel_end, root_table, space, space-Good}

-- An address whose tables are not there yet.
walk-Walked_example :
    Walked kernel_end root_table 0x40000000 space (walk true root_table 0x40000000 space.mem)
walk-Walked_example =
    walk-Walked kernel_end root_table 0x40000000 space (omega arith) (omega arith) space-Good

mappages-Mapped_example :
    Mapped kernel_end root_table
      (pgrounddown 0x2010)
      (pgrounddown (0x2010 + 0x2000 - 1))
      0x80020000
      22
      space
      (mappages root_table 0x2010 0x2000 0x80020000 22 space.mem)
mappages-Mapped_example =
    mappages-Mapped kernel_end root_table 0x2010 0x2000 0x80020000 22 space (omega arith)
      (omega arith) (omega arith) space-Good

uvmunmap-Unmapped_example :
    Unmapped kernel_end root_table 0x1000
      (0x1000 + 1 * pgsize)
      space
      (uvmunmap kernel_end root_table 0x1000 1 false space.mem)
uvmunmap-Unmapped_example =
    uvmunmap-Unmapped kernel_end root_table 0x1000 1 space (omega arith) (omega arith) (omega arith)
      space-Good

walkaddr-translate_example :
    walkaddr root_table 0x1234 space.mem ≡ some (translate space.mem.page root_table 0x1234)
walkaddr-translate_example = walkaddr-translate root_table 0x1234 space.mem

-- Ten bytes, of which the page has eight.
copyin-copy_from_example :
    copyin root_table 0x1ff8 10 space.mem ≡ some (copy_from space.mem.page root_table 10 0x1ff8)
copyin-copy_from_example = copyin-copy_from root_table 0x1ff8 10 space.mem

copyinstr-string_from_example :
    copyinstr root_table 0x1000 9 space.mem ≡ some (string_from space.mem.page root_table 9 0x1000)
copyinstr-string_from_example = copyinstr-string_from root_table 0x1000 9 space.mem

-- A string of one byte.
short_string : string_from space.mem.page root_table 9 0x1000 ≡ (true, 7 ∷ 0 ∷ [])
unfolding string_from
short_string = refl

cut_off :
    copy_from space.mem.page root_table 10 0x1ff8 ≡ (false, 7 ∷ 0 ∷ 0 ∷ 0 ∷ 0 ∷ 0 ∷ 0 ∷ 0 ∷ [])
unfolding copy_from
cut_off = refl

-- Three bytes over the end of the page.
copyout-put_bytes_example :
    copyout root_table 0x1ffe (1 ∷ 2 ∷ 3 ∷ []) space.mem
    ≡ some (
      (put_bytes (translate space.mem.page root_table) 0x1ffe (1 ∷ 2 ∷ 3 ∷ []) space.mem.page).0,
      record (space.mem) {
        page =
            (put_bytes
              (translate space.mem.page root_table)
              0x1ffe
              (1 ∷ 2 ∷ 3 ∷ [])
              space.mem.page).1;
      },
    )
copyout-put_bytes_example =
    copyout-put_bytes root_table 0x1ffe (1 ∷ 2 ∷ 3 ∷ []) space.mem space-Apart
