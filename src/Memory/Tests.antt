-- ===== src/Memory/Tests.antt =====
-- The in-memory file system on small lists of files.
use filesystem_lab.Base.{
  ℕ, zero, suc, ◌+◌, ◌-◌, ◌≡◌, ◌≢◌, ◌≤◌, ◌⊎◌, refl, true, false, arith, min, length, get_or, ltb,
  if◌then◌else◌, ok, err, eexist, some, none, [], ◌∷◌,
}
use filesystem_lab.Device.{Device}
use filesystem_lab.Memory.{Name, FileEntry, State, Kernel, exists, create, new_inode, unlink}
use filesystem_lab.Memory.Lookup.{lookup, create_binds}
use filesystem_lab.Memory.Files.{content, file_read, memory_read_lem}
use filesystem_lab.Memory.Readdir.{
  Context, readdir, dot_entry, dotdot_entry, all_emitted, readdir_lists, readdir_repeats,
}
use filesystem_lab.Memory.Session.{
  create_step, unlink_step, Reach, here, next, Ordered, Reach-Ordered, unlink_unbinds,
}
use filesystem_lab.Memory.Long.{create_long_twice}

abbrev kernel : Kernel
kernel = record {
  allocates = λ _. true;
  init_owner = λ mode. record { mode = mode; uid = 0; gid = 0 };
  now = 7;
  sets_blocksize = true;
  readable = λ _. true;
  makes_root = true;
  copied = λ n. n;
}

abbrev file_a : FileEntry
file_a = record { name = b'a' ∷ []; inode_no = 100; is_dir = false }

abbrev one_file : State
one_file = record { file_list = file_a ∷ []; next_inode_no = 101 }

abbrev name_b : Name
name_b = b'b' ∷ []

create_binds_example :
    let (r, st') = create kernel name_b 33188 one_file in
    ((exists name_b one_file.file_list ≡ true) × (r ≡ err eexist) × (st' ≡ one_file))
    ⊎ ((exists name_b one_file.file_list ≡ false)
        × (r ≡ ok (new_inode kernel 33188 101))
        × (lookup name_b st'.file_list ≡ some 101)
        × ((t : Name) → name_b ≢ t → lookup t st'.file_list ≡ lookup t one_file.file_list)
        × (st'.next_inode_no ≡ 101 + 1))
create_binds_example = create_binds kernel name_b 33188 one_file (λ _. refl) (omega arith)

abbrev reader : Context
reader = record { pos = 0; room = 10; out = [] }

readdir_lists_example :
    ((readdir 1 (file_a ∷ []) reader).out
      ≡ dot_entry 1 ∷ dotdot_entry 1 ∷ all_emitted (file_a ∷ []))
    × ((readdir 1 (file_a ∷ []) reader).pos ≡ 2 + length (file_a ∷ []))
readdir_lists_example = readdir_lists 1 (file_a ∷ []) reader refl (omega arith)

abbrev late_reader : Context
late_reader = record { pos = 3; room = 10; out = [] }

readdir_repeats_example :
    ((readdir 1 (file_a ∷ []) late_reader).out ≡ all_emitted (file_a ∷ []))
    × (2 ≤ (readdir 1 (file_a ∷ []) late_reader).pos)
readdir_repeats_example = readdir_repeats 1 (file_a ∷ []) late_reader (omega arith) (omega arith)

memory_read_lem_example :
    let n = min 8 (50 - 45) in
    let (r, pos', buf') = file_read kernel 8 45 (λ _. 0) in
    (r ≡ ok n)
    × (pos' ≡ 45 + n)
    × ((x : ℕ) → buf' x ≡ (if ltb x n then get_or content (45 + x) 0 else 0))
memory_read_lem_example = memory_read_lem kernel 8 45 (λ _. 0) (λ _. refl)

abbrev disk : Device
disk = record { blocks = λ _ _. 0; dirty = λ _. false; got = 0; released = 0 }

abbrev with_b : State
with_b = (create kernel name_b 33188 one_file).1

one_file-Ordered : Ordered one_file
unfolding exists
one_file-Ordered = record { ascending = (omega arith, omega arith); distinct = (refl, tt) }

replaced : Reach kernel one_file (unlink (b'a' ∷ []) with_b)
replaced =
    next (next here (create_step name_b 33188 (omega arith) refl)) (unlink_step (b'a' ∷ []) refl)

Reach-Ordered_example : Ordered (unlink (b'a' ∷ []) with_b)
Reach-Ordered_example = Reach-Ordered kernel one_file-Ordered replaced

unlink_unbinds_example :
    (lookup (b'a' ∷ []) (unlink (b'a' ∷ []) one_file).file_list ≡ none)
    × ((t : Name)
        → (b'a' ∷ []) ≢ t
        → lookup t (unlink (b'a' ∷ []) one_file).file_list ≡ lookup t one_file.file_list)
unlink_unbinds_example = unlink_unbinds (b'a' ∷ []) one_file one_file-Ordered.distinct

abbrev repeat : ℕ → Name
repeat zero = []
repeat (suc n) = 97 ∷ repeat n

create_long_twice_example :
    let (r, st1) = create kernel (repeat 30) 33188 one_file in
    (r ≡ ok (new_inode kernel 33188 101))
    × ((create kernel (repeat 30) 33188 st1).0 ≡ ok (new_inode kernel 33188 (101 + 1)))
create_long_twice_example =
    create_long_twice kernel (repeat 30) 33188 one_file (λ _. refl) (omega arith) (omega arith, tt)
