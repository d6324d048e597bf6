-- ===== src/Dirs/Tests.antt =====
-- kernel/fs.c: runs on a small directory and a path.
use xv6_riscv.Base.{ℕ, ◌≡◌, refl, arith, true, some, none, List, [], ◌∷◌, map, take}
use xv6_riscv.Dirs.{
  dirsiz, t_dir, Directory, dirlink, dirlookup, lookup_from, same_name, equal_bytes, skipelem,
  skip_slashes, pass_element, element_of,
}
use xv6_riscv.Dirs.Elements.{elements, words, elements-words}
use xv6_riscv.Dirs.Link.{Linked, dirlink-Linked}

-- The path "//a/bb/".
abbrev path : List ℕ
path = 47 ∷ 47 ∷ 97 ∷ 47 ∷ 98 ∷ 98 ∷ 47 ∷ []

elements-words_example : elements 8 path ≡ map (take dirsiz) (words [] path)
elements-words_example = elements-words 8 path (omega arith)

path-words : words [] path ≡ (97 ∷ []) ∷ (98 ∷ 98 ∷ []) ∷ []
unfolding words
path-words = refl

first_element : skipelem path ≡ some (97 ∷ [], 98 ∷ 98 ∷ 47 ∷ [])
unfolding skipelem skip_slashes pass_element element_of
first_element = refl

-- The entries "a" and a free one.
abbrev home : Directory
home = record {
  type = t_dir;
  entries = record { inum = 5; name = 97 ∷ [] } ∷ record { inum = 0; name = 98 ∷ [] } ∷ [];
}

dirlink-Linked_example : Linked true home (99 ∷ []) 7 (dirlink true home (99 ∷ []) 7)
dirlink-Linked_example =
    dirlink-Linked true home (99 ∷ []) 7 refl (λ e. absurd (omega (arith, e))) refl

no_b : dirlookup home (98 ∷ []) ≡ some none
unfolding dirlookup lookup_from same_name equal_bytes
no_b = refl
