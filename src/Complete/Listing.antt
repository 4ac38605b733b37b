-- ===== src/Complete/Listing.antt =====
-- The listing of naive/naivefs-complete/naivefs.c.
use filesystem_lab.Base.{
  ℕ, zero, suc, ◌+◌, ◌-◌, ◌≤◌, ◌≡◌, ◌∙◌, refl, sym, true, false, arith, List, [], ◌∷◌, ◌++◌, ◌==◌,
  leb, length, min,
}
use filesystem_lab.Memory.Readdir.{Emitted, Context, dir_emit, append_one, append_none}
use filesystem_lab.Complete.{entries, emit_entries, readdir}

-- The first `n` elements.
abbrev pub first : ℕ → List Emitted → List Emitted
first zero l = []
first (suc n) [] = []
first (suc n) (e ∷ l) = e ∷ first n l

emit_entries_lem :
    (l : List Emitted) (ctx : Context) (n : ℕ)
    → n ≡ 4 - ctx.pos
    → n ≤ ctx.room
    → ((emit_entries l ctx).out ≡ ctx.out ++ first n l)
      × ((emit_entries l ctx).pos ≡ ctx.pos + min n (length l))
unfolding emit_entries dir_emit
emit_entries_lem [] ctx zero e room = (sym (append_none ctx.out), omega arith)
emit_entries_lem [] ctx (suc n) e room = (sym (append_none ctx.out), omega arith)
emit_entries_lem (x ∷ l) ctx zero e room =
    let past : leb 4 ctx.pos ≡ true = ground arith in
    rw past (sym (append_none ctx.out), omega arith)
emit_entries_lem (x ∷ l) ctx (suc n) e room =
    let before : leb 4 ctx.pos ≡ false = ground arith in
    let free : (ctx.room == 0) ≡ false = ground arith in
    let rest =
      emit_entries_lem l
        (record { pos = ctx.pos + 1; room = ctx.room - 1; out = ctx.out ++ (x ∷ []) }) n
        (omega arith) (omega arith) in
    rw (before, free) (rest.0 ∙ append_one ctx.out x (first n l), rest.1 ∙ omega arith)

-- A call of `naive_readdir` from any position, by a reader with room for the entries that are left: it
-- hands over as many entries as are left behind the position, but the first ones, whatever was
-- handed over before, and the position is at least 4 then.
pub listing_restarts :
    (ctx : Context)
    → 4 - ctx.pos ≤ ctx.room
    → ((readdir ctx).out ≡ ctx.out ++ first (4 - ctx.pos) entries) × (4 ≤ (readdir ctx).pos)
unfolding readdir
listing_restarts ctx room =
    let lem = emit_entries_lem entries ctx (4 - ctx.pos) refl room in (lem.0, omega (arith, lem.1))
