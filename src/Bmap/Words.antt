-- ===== src/Bmap/Words.antt =====
-- kernel/fs.c: the words of an indirect block.
use xv6_riscv.Base.{ℕ, ◌+◌, ◌*◌, ◌<◌, ◌≡◌, ◌≢◌, arith}
use xv6_riscv.Bmap.{word, put_word}

pub word-put_self : (bytes : ℕ → ℕ) (i v : ℕ) → v < 4294967296 → word (put_word bytes i v) i ≡ v
word-put_self bytes i v lt = ground (arith, lt)

pub word-put_ne : (bytes : ℕ → ℕ) (i j v : ℕ) → i ≢ j → word (put_word bytes i v) j ≡ word bytes j
word-put_ne bytes i j v ne = ground (arith, ne)

pub word-zeros : (bytes : ℕ → ℕ) (i : ℕ) → ((o : ℕ) → bytes o ≡ 0) → word bytes i ≡ 0
word-zeros bytes i z = omega (arith, z (4 * i), z (4 * i + 1), z (4 * i + 2), z (4 * i + 3))
