-- ===== src/Memory/Readdir.antt =====
-- `naive_readdir` of naive/naivefs-final/naivefs.c.
use filesystem_lab.Base.{
  ℕ, ◌+◌, ◌-◌, ◌≤◌, ◌≡◌, ◌∙◌, refl, sym, ap, true, false, arith, Bool, List, [], ◌∷◌, ◌++◌,
  if◌then◌else◌, ◌==◌, ltb, length,
}
use filesystem_lab.Memory.{Name, FileEntry}

-- DT_DIR, DT_REG and DT_UNKNOWN.
pub data EntryType : Type 0 where
  dt_dir dt_reg dt_unknown : EntryType

-- What `dir_emit` hands to the reader.
pub record Emitted : Type 0 where
  pub name : Name
  pub ino : ℕ
  pub d_type : EntryType

-- `struct dir_context`: the position, and the reader with room for so many more entries.
pub record Context : Type 0 where
  pub pos : ℕ
  pub room : ℕ
  pub out : List Emitted

-- `dir_emit`: false when the reader has no room left.
unfoldable pub dir_emit : Emitted → Context → Bool × Context
dir_emit e ctx =
    if ctx.room == 0
    then (false, ctx)
    else (true, record ctx { room = ctx.room - 1; out = ctx.out ++ (e ∷ []) })

abbrev pub emitted : FileEntry → Emitted
emitted e = record { name = e.name; ino = e.inode_no; d_type = if e.is_dir then dt_dir else dt_reg }

abbrev pub advance : Context → Context
advance ctx = record ctx { pos = ctx.pos + 1 }

-- `list_for_each_entry(entry, &file_list, list)`
unfoldable pub emit_list : List FileEntry → Context → Context
unfolding dir_emit
emit_list [] ctx = ctx
emit_list (e ∷ l) ctx =
    let (good, ctx') = dir_emit (emitted e) ctx in
    if ltb ctx.pos 2
    then emit_list l (advance ctx)
    else if good
    then emit_list l (advance ctx')
    else ctx

-- `if (ctx->pos == n)` one of the two entries that are not in the list; false ends the call.
unfoldable pub emit_at : ℕ → Emitted → Context → Bool × Context
unfolding dir_emit
emit_at n e ctx =
    let (good, ctx') = dir_emit e ctx in
    if ctx.pos == n then (if good then (true, advance ctx') else (false, ctx)) else (true, ctx)

abbrev pub dot_entry : ℕ → Emitted
dot_entry ino = record { name = b'.' ∷ []; ino = ino; d_type = dt_dir }

abbrev pub dotdot_entry : ℕ → Emitted
dotdot_entry ino = record { name = b'.' ∷ b'.' ∷ []; ino = ino; d_type = dt_dir }

-- `naive_readdir` of the directory `ino`, which always returns 0.
unfoldable pub readdir : ℕ → List FileEntry → Context → Context
unfolding emit_at emit_list
readdir ino l ctx =
    let (good, ctx1) = emit_at 0 (dot_entry ino) ctx in
    let (good', ctx2) = emit_at 1 (dotdot_entry ino) ctx1 in
    if good then (if good' then emit_list l ctx2 else ctx2) else ctx1

abbrev pub all_emitted : List FileEntry → List Emitted
all_emitted [] = []
all_emitted (e ∷ l) = emitted e ∷ all_emitted l

pub append_one :
    (a : List Emitted) (e : Emitted) (b : List Emitted) → (a ++ (e ∷ [])) ++ b ≡ a ++ (e ∷ b)
append_one [] e b = refl
append_one (x ∷ a) e b = ap (λ t. x ∷ t) (append_one a e b)

pub append_none : (a : List Emitted) → a ++ [] ≡ a
append_none [] = refl
append_none (x ∷ a) = ap (λ t. x ∷ t) (append_none a)

emit_list_all :
    (l : List FileEntry) (ctx : Context)
    → 2 ≤ ctx.pos
    → length l ≤ ctx.room
    → ((emit_list l ctx).out ≡ ctx.out ++ all_emitted l)
      × ((emit_list l ctx).pos ≡ ctx.pos + length l)
unfolding emit_list dir_emit
emit_list_all [] ctx later room = (sym (append_none ctx.out), omega arith)
emit_list_all (e ∷ l) ctx later room =
    let past : ltb ctx.pos 2 ≡ false = ground arith in
    let free : (ctx.room == 0) ≡ false = ground arith in
    let rest =
      emit_list_all l
        (record { pos = ctx.pos + 1; room = ctx.room - 1; out = ctx.out ++ (emitted e ∷ []) })
        (omega arith) (omega arith) in
    rw (past, free) (rest.0 ∙ append_one ctx.out (emitted e) (all_emitted l), rest.1 ∙ omega arith)

-- A call at the start of the directory, by a reader with room for all: `.`, `..` and every file of
-- the list in its order are handed over, and the position counts them.
pub readdir_lists :
    (ino : ℕ) (l : List FileEntry) (ctx : Context)
    → ctx.pos ≡ 0
    → 2 + length l ≤ ctx.room
    → ((readdir ino l ctx).out ≡ ctx.out ++ (dot_entry ino ∷ dotdot_entry ino ∷ all_emitted l))
      × ((readdir ino l ctx).pos ≡ 2 + length l)
unfolding readdir emit_at dir_emit
readdir_lists ino l ctx start room =
    let some_room : (ctx.room == 0) ≡ false = ground arith in
    let more_room : (ctx.room - 1 == 0) ≡ false = ground arith in
    let rest =
      emit_list_all l
        (record {
          pos = 0 + 1 + 1;
          room = ctx.room - 1 - 1;
          out = (ctx.out ++ (dot_entry ino ∷ [])) ++ (dotdot_entry ino ∷ []);
        })
        (omega arith) (omega arith) in
    rw (start, some_room)
      (rw more_room (
        rest.0
            ∙ append_one (ctx.out ++ (dot_entry ino ∷ [])) (dotdot_entry ino) (all_emitted l)
            ∙ append_one ctx.out (dot_entry ino) (dotdot_entry ino ∷ all_emitted l),
        rest.1,
      ))

-- A call after the start, by a reader with room for the list, hands over every file of the list
-- again, however often that was done before: while the list is not empty no call is the last.
pub readdir_repeats :
    (ino : ℕ) (l : List FileEntry) (ctx : Context)
    → 2 ≤ ctx.pos
    → length l ≤ ctx.room
    → ((readdir ino l ctx).out ≡ ctx.out ++ all_emitted l) × (2 ≤ (readdir ino l ctx).pos)
unfolding readdir emit_at dir_emit
readdir_repeats ino l ctx later room =
    let not0 : (ctx.pos == 0) ≡ false = ground arith in
    let not1 : (ctx.pos == 1) ≡ false = ground arith in
    let rest = emit_list_all l ctx later room in rw (not0, not1) (rest.0, omega (arith, rest.1))
