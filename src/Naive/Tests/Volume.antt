-- ===== src/Naive/Tests/Volume.antt =====
-- A volume of naive/ without files, on which the file `a` is created and written.
use filesystem_lab.Base.{
  none, ℕ, ◌-◌, ◌+◌, ◌<◌, ◌≡◌, ◌∙◌, refl, some, ok, min, List, [], ◌∷◌, Result, arith,
}
use filesystem_lab.Base.Bytes.{Mem}
use filesystem_lab.Naive.Kernel.{blank_inode}
use filesystem_lab.Naive.Namespace.Create.{create_makes}
use filesystem_lab.Naive.Files.{file_read}
use filesystem_lab.Naive.Alloc.{find_free_inode}
use filesystem_lab.Naive.Entries.{Name}
use filesystem_lab.Naive.Namespace.{mkdir, new_dir_inode}
use filesystem_lab.Naive.Tests.Directories.{second_block}
use filesystem_lab.Naive.Session.{IsFileName, view}
use filesystem_lab.Naive.Volume.{Volume, Call, create_call, write_call, perform, Reach, here, next}
use filesystem_lab.Naive.Volume.Consistent.{Live, Consistent}
use filesystem_lab.Naive.Volume.Spec.{Content, files, FilesReach}
use filesystem_lab.Naive.Volume.Write.{written-view}
use filesystem_lab.Naive.Volume.Mkdir.{mkdir-Consistent}
use filesystem_lab.Naive.Volume.Refine.{Reach-Consistent, Reach-FilesReach, read_after}
use filesystem_lab.Naive.Tests.{
  zeros, device, kernel, super, super-IsValid, root, root-IsDir, name_a, name_a-IsName,
  name_a-IsFileName, next_block, next_inode, no_entry,
}
use filesystem_lab.Naive.Tests.Session.{start_state, start_state-Sound, nothing}

abbrev start : Volume
start = record { base = start_state; inode = λ _. blank_inode }

no_files : (n : ℕ) → ¬ (Live kernel start_state n)
no_files n l = cc (l.entry, nothing l.name)

start-Consistent : Consistent kernel start
start-Consistent = record {
  sound = start_state-Sound;
  number = λ n l. absurd (no_files n l);
  owned = λ n l. absurd (no_files n l);
  off_dir = λ n l. absurd (no_files n l);
  apart = λ n m l. absurd (no_files n l);
}

abbrev text : Mem
text i = i

-- 700 bytes at position 100, which is 2 blocks.
abbrev create_a : Call
create_a = create_call name_a 33188

abbrev write_a : Call
write_a = write_call name_a 2 700 100 text

abbrev with_a : Volume
with_a = (perform kernel start create_a).1

a_is_2 : view kernel with_a.base name_a ≡ some 2
unfolding view perform
a_is_2 =
    (create_makes kernel name_a 33188 super root device 21 (λ _. refl) refl next_block
      (rw next_inode (omega arith)) super-IsValid (omega arith) root-IsDir (omega arith)
      name_a-IsName no_entry).3.has
    ∙ rw next_inode refl

abbrev calls : List (Call × Result ℕ)
calls =
    (write_a, (perform kernel with_a write_a).0)
    ∷ (create_a, (perform kernel start create_a).0)
    ∷ []

abbrev written_a : Volume
written_a = (perform kernel with_a write_a).1

made : Reach kernel start calls written_a
made =
    next (next here create_a (name_a-IsFileName, nothing name_a)) write_a
      (name_a-IsFileName, a_is_2, omega arith)

Reach-Consistent_example : Consistent kernel written_a
Reach-Consistent_example = Reach-Consistent kernel (λ _ _. refl) (λ _. refl) start-Consistent made

Reach-FilesReach_example : FilesReach (files kernel start) calls (files kernel written_a)
Reach-FilesReach_example = Reach-FilesReach kernel (λ _ _. refl) (λ _. refl) start-Consistent made

with_a-Consistent : Consistent kernel with_a
with_a-Consistent =
    Reach-Consistent kernel (λ _ _. refl) (λ _. refl) start-Consistent
      (next here create_a (name_a-IsFileName, nothing name_a))

still_2 : view kernel written_a.base name_a ≡ some 2
unfolding perform
still_2 =
    written-view kernel (λ _ _. refl) (λ _. refl) with_a with_a-Consistent name_a name_a-IsFileName
      2 700 100 text a_is_2 (omega arith) name_a
    ∙ a_is_2

read_after_example :
    let (answer, _, buf', _) =
      file_read kernel (written_a.inode 2) 50 200 zeros written_a.base.dev in
    (c : Content) × ((files kernel written_a).file name_a ≡ some c)
    × (answer ≡ ok (min 50 (c.size - 200)))
    × ((x : ℕ) → x < min 50 (c.size - 200) → buf' x ≡ c.byte (200 + x))
read_after_example =
    read_after kernel (λ _ _. refl) (λ _. refl) name_a 2 50 200 zeros start-Consistent made
      name_a-IsFileName still_2

mkdir-Consistent_example :
    let (r, sbi', _, d') = mkdir kernel name_a 0o755 super root device in
    let ino = new_dir_inode kernel root 0o755 (find_free_inode super) 21 in
    let vol : Volume = record {
      base = record { sbi = sbi'; dir = ino; dev = d' };
      inode = λ _. blank_inode;
    } in
    (r ≡ ok ino)
    × Consistent kernel vol
    × ((t : Name) → IsFileName t → (files kernel vol).file t ≡ none)
mkdir-Consistent_example =
    mkdir-Consistent kernel name_a 0o755 super root device 22 21 (λ _. refl) refl next_block
      second_block (rw next_inode (omega arith)) super-IsValid (omega arith) root-IsDir
      (omega arith) name_a-IsName (omega arith) no_entry (λ _. blank_inode)
