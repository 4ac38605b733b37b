-- ===== src/Naive/Volume/Effects.antt =====
-- What each call on a volume of naive/ does to the abstract file system.
use filesystem_lab.Base.{
  ℕ, update, ==_refl, ◌+◌, ◌/◌, ◌%◌, ◌≤◌, ◌<◌, ◌≡◌, ◌≢◌, ◌∙◌, refl, ap, true, arith, inl, inr,
  Option, Option-cases, none, some, Result, ok, err,
}
use filesystem_lab.Base.Bytes.{Mem}
use filesystem_lab.Device.{Device}
use filesystem_lab.Naive.Layout.{SbInfo}
use filesystem_lab.Naive.Kernel.{Inode, Kernel}
use filesystem_lab.Naive.Entries.{Name}
use filesystem_lab.Naive.Namespace.{new_file_inode}
use filesystem_lab.Naive.Files.Owned.{content}
use filesystem_lab.Naive.Files.Read.{Copies}
use filesystem_lab.Naive.Files.RoundTrip.{WriteAnswer}
use filesystem_lab.Naive.Session.{IsFileName, view}
use filesystem_lab.Naive.Session.Invariant.{Name-cases, outcome}
use filesystem_lab.Naive.Volume.{
  Volume, Call, create_call, unlink_call, write_call, perform, no_count, Allowed,
}
use filesystem_lab.Naive.Volume.Consistent.{Live, Consistent, Stays}
use filesystem_lab.Naive.Volume.Spec.{Content, files, Same, empty_file, Others, Effect}
use filesystem_lab.Naive.Volume.Write
use filesystem_lab.Naive.Volume.Unlink
use filesystem_lab.Naive.Volume.Create

Same-refl : (a : Option Content) → Same a a
Same-refl none = tt
Same-refl (some a) = (refl, λ x _. refl)

-- A name whose entry, inode and blocks stay has the same file.
kept_file :
    (k : Kernel) (vol vol' : Volume) (t : Name)
    → Consistent k vol
    → IsFileName t
    → view k vol'.base t ≡ view k vol.base t
    → ((m : ℕ)
        → Live k vol.base m
        → view k vol.base t ≡ some m
        → (vol'.inode m ≡ vol.inode m) × Stays vol.base vol'.base (vol.inode m))
    → Same ((files k vol').file t) ((files k vol).file t)
unfolding files
kept_file k vol vol' t c w e stays = elim (Option-cases (view k vol.base t)) [
  | inl h ↦ rw (e, h) tt
  | inr (m, h) ↦
      let live : Live k vol.base m = record { name = t; is_name = w; entry = h } in
      let (same, st) = stays m live h in
      let o = c.owned m live in
      rw (e, h, same)
        (refl, λ x lt. ap (λ b. b (x % 512)) (st.data_kept (x / 512) (omega (arith, o.covers))))
]

module _ (k : Kernel) (all : Copies k) (reads : (b : ℕ) → k.readable b ≡ true) (vol : Volume)
    (c : Consistent k vol) where
  unlink-Effect :
      (s : Name) (n : ℕ)
      → Allowed k vol (unlink_call s n)
      → let (r, vol') = perform k vol (unlink_call s n) in
        Effect (unlink_call s n) r (files k vol) (files k vol')
  unfolding files view
  unlink-Effect s n (w, e) =
      let gone = Unlink.gone k reads vol c s w n e in
      rw (Unlink.unlink_is k reads vol c s w n e) (
        λ q. cc (q, e),
        rw gone.gone refl,
        λ t wt ne.
            kept_file k vol (Unlink.unlinked k reads vol c s w n e) t c wt
              (gone.keeps t wt.is_name ne)
              (λ m l h.
                let other : n ≢ m = λ q. ne (c.sound.one_name s t m w wt (e ∙ ap some q) h) in
                (
                  Unlink.other_inode k reads vol c s w n e m l other,
                  Unlink.other-Stays k reads vol c s w n e m l other,
                )),
      )

  module _ (s : Name) (mode : ℕ) (w : IsFileName s) (absent : view k vol.base s ≡ none) where
    abbrev after : Result (Unit {0}) → Volume
    after r = record {
      base = Create.after k reads vol c s w mode absent;
      inode = Create.inodes k reads vol c s w mode absent r;
    }

    module _ (nz : Create.n k reads vol c s w mode absent ≢ 0) (r : Result (Unit {0})) where
      created_keeps :
          (t : Name)
          → IsFileName t
          → view k (after r).base t ≡ view k vol.base t
          → Same ((files k (after r)).file t) ((files k vol).file t)
      created_keeps t wt same = kept_file k vol (after r) t c wt same (λ m l _. (
        Create.other_inode k reads vol c s w mode absent nz m l r,
        Create.other-Stays k reads vol c s w mode absent nz m l,
      ))

      made_empty :
          r ≡ ok tt
          → view k (after r).base s ≡ some (Create.n k reads vol c s w mode absent)
          → Same ((files k (after r)).file s) (some empty_file)
      unfolding files new_file_inode
      made_empty good e =
          rw (e, Create.new_inode k reads vol c s w mode absent nz r good)
            (refl, λ x lt. absurd (omega arith))

    entered-Effect :
        Create.n k reads vol c s w mode absent ≢ 0
        → (r : Result (Unit {0})) → (Create.entered k reads vol c s w mode absent).0 ≡ r
        → Effect (create_call s mode) (no_count r) (files k vol) (files k (after r))
    unfolding view
    entered-Effect nz (err e) q = elim (outcome k reads vol.base c.sound s w absent nz).entries [
      | inl (good, _) ↦ absurd (cc (good, q))
      | inr (same, _) ↦ λ t wt. created_keeps nz (err e) t wt (same t wt.is_name)
    ]
    entered-Effect nz (ok _) q = (
      unfold files in rw absent refl,
      elim (outcome k reads vol.base c.sound s w absent nz).entries [
        | inl (_, added) ↦ inl (
          made_empty nz (ok tt) refl added.has,
          λ t wt ne. created_keeps nz (ok tt) t wt (added.keeps t wt.is_name ne),
        )
        | inr (same, inl bad) ↦ absurd (bad q)
        | inr (same, inr full) ↦
            inr (λ t wt. created_keeps nz (ok tt) t wt (same t wt.is_name), unfold files in full)
      ],
    )

  create-Effect :
      (s : Name) (mode : ℕ)
      → Allowed k vol (create_call s mode)
      → let (r, vol') = perform k vol (create_call s mode) in
        Effect (create_call s mode) r (files k vol) (files k vol')
  create-Effect s mode (w, absent) = elim (Create.create_is k reads vol c s w mode absent) [
    | inl (e, q) ↦ rw q (λ t _. Same-refl ((files k vol).file t))
    | inr (nz, q) ↦
        rw q
          (entered-Effect s mode w absent nz (Create.entered k reads vol c s w mode absent).0 refl)
  ]

  module _ (s : Name) (n len pos : ℕ) (buf : Mem) (w : IsFileName s)
      (e : view k vol.base s ≡ some n) (limit : pos + len ≤ 4096) where
    abbrev wrote : Result ℕ × ℕ × Inode × SbInfo × Device → Volume
    wrote a = record {
      base = record { sbi = a.3; dir = vol.base.dir; dev = a.4 };
      inode = update vol.inode n a.2;
    }

    abbrev result : Result ℕ × ℕ × Inode × SbInfo × Device
    result = Write.result k all reads vol c s w n len pos buf e limit

    written-Others : Others s (files k vol) (files k (wrote result))
    written-Others t wt ne =
        kept_file k vol (wrote result) t c wt
          (Write.written-view k all reads vol c s w n len pos buf e limit t)
          (λ m l h.
            let other : n ≢ m = λ q. ne (c.sound.one_name s t m w wt (e ∙ ap some q) h) in
            (
              Write.other_inode k all reads vol c s w n len pos buf e limit m l other,
              Write.other-Stays k all reads vol c s w n len pos buf e limit m l other,
            ))

    covered : (x : ℕ) → x < (vol.inode n).i_size → x / 512 < (vol.inode n).block_count
    covered x lt =
        let o = c.owned n (record { name = s; is_name = w; entry = e }) in omega (arith, o.covers)

    answer-Effect :
        (a : Result ℕ × ℕ × Inode × SbInfo × Device)
        → WriteAnswer vol.base.sbi (vol.inode n) len pos buf vol.base.dev a
        → view k (wrote a).base s ≡ some n
        → Others s (files k vol) (files k (wrote a))
        → Effect (write_call s n len pos buf) a.0 (files k vol) (files k (wrote a))
    unfolding files
    answer-Effect (ok count, pos', ino', sbi', d') (whole, _, _, _, done) there others = (
      whole,
      record {
        before = record {
          size = (vol.inode n).i_size;
          byte = content (vol.inode n) vol.base.dev.blocks;
        };
        after = record { size = ino'.i_size; byte = content ino' d'.blocks };
        was = rw e refl;
        is = rw (there, ==_refl n) refl;
        written = record {
          size_is = done.size_is;
          new_data = done.new_data;
          old_data = λ x lt out. done.old_data x (covered x lt) out;
        };
      },
      others,
    )
    answer-Effect (err x, pos', ino', sbi', d') (full, _, _, _, size, pointers, same) there others =
        (
          full,
          λ t wt. elim (Name-cases s t) [
            | inr ne ↦ others t wt ne
            | inl q ↦ rw (← q) (
                rw (there, e, ==_refl n)
                  (
                    size,
                    λ y lt.
                        ap (λ b. d'.blocks b (y % 512)) (pointers (y / 512) (covered y lt))
                        ∙ ap
                            (λ (z : Device).
                              z.blocks ((vol.inode n).block_pointers (y / 512)) (y % 512))
                            same,
                  ))
          ],
        )

    write-Effect :
        let (r, vol') = perform k vol (write_call s n len pos buf) in
        Effect (write_call s n len pos buf) r (files k vol) (files k vol')
    write-Effect = rw (Write.write_is k all reads vol c s w n len pos buf e limit) (
        answer-Effect result (Write.answer k all reads vol c s w n len pos buf e limit)
          (Write.written-view k all reads vol c s w n len pos buf e limit s ∙ e) written-Others)

  -- Every call keeps the invariant.
  pub perform-Consistent : (a : Call) → Allowed k vol a → Consistent k (perform k vol a).1
  perform-Consistent (create_call s mode) (w, absent) =
      Create.create-Consistent k reads vol c s w mode absent
  perform-Consistent (unlink_call s n) (w, e) = Unlink.unlink-Consistent k reads vol c s w n e
  perform-Consistent (write_call s n len pos buf) (w, e, limit) =
      Write.write-Consistent k all reads vol c s w n len pos buf e limit

  pub perform-Effect :
      (a : Call)
      → Allowed k vol a
      → let (r, vol') = perform k vol a in Effect a r (files k vol) (files k vol')
  perform-Effect (create_call s mode) allowed = create-Effect s mode allowed
  perform-Effect (unlink_call s n) allowed = unlink-Effect s n allowed
  perform-Effect (write_call s n len pos buf) (w, e, limit) = write-Effect s n len pos buf w e limit
