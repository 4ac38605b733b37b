-- ===== src/Naive/Volume/Create.antt =====
-- `naive_create` (naive/naivefs_inode.c) of a file in a volume.
use filesystem_lab.Base.{
  ℕ, ◌<◌, ◌≡◌, ◌≢◌, ◌∙◌, ◌⊎◌, refl, sym, ap, true, false, arith, inl, inr, Bool-cases, none, some,
  ◌==◌, ==_refl, Result, ok, err, Errno, enospc, enomem, update,
}
use filesystem_lab.Base.Bits.{bit}
use filesystem_lab.Device.{Device}
use filesystem_lab.Naive.Layout.{SbInfo, IsValid}
use filesystem_lab.Naive.Kernel.{Inode, Kernel}
use filesystem_lab.Naive.Alloc.{find_free_inode, alloc_block}
use filesystem_lab.Naive.Alloc.Blocks.{alloc_block_ok}
use filesystem_lab.Naive.Entries.{Name, add_entry}
use filesystem_lab.Naive.Entries.Frame.{add_entry-frame}
use filesystem_lab.Naive.Namespace.{create, mark_inode, new_file_inode}
use filesystem_lab.Naive.Namespace.Create.{mark_inode-IsValid, mark_inode-IsDir}
use filesystem_lab.Naive.Files.Owned.{Owned}
use filesystem_lab.Naive.Files.Spread.{Spread}
use filesystem_lab.Naive.Files.Others.{Apart, Owned-Spread, Apart-Spread}
use filesystem_lab.Naive.Session.{IsFileName, State, view}
use filesystem_lab.Naive.Session.Invariant.{
  Name-cases, entered_state, outcome, keeps, old_number, entered-Sound,
}
use filesystem_lab.Naive.Volume.{Volume, create_call, perform, no_count, enter_inode}
use filesystem_lab.Naive.Volume.Directory.{add_entry-Spread}
use filesystem_lab.Naive.Volume.Consistent.{Live, Consistent, Stays}

mark_inode-Owned :
    (sbi : SbInfo) (n : ℕ) (ino : Inode) → Owned sbi ino → Owned (mark_inode sbi n) ino
unfolding mark_inode
mark_inode-Owned sbi n ino o = record {
  valid = mark_inode-IsValid sbi n o.valid;
  bounded = o.bounded;
  covers = o.covers;
  in_data = o.in_data;
  in_device = o.in_device;
  no_more = o.no_more;
  in_use = o.in_use;
  apart = o.apart;
}

new_file_inode-Owned :
    (k : Kernel) (sbi : SbInfo) (dir : Inode) (mode n : ℕ)
    → IsValid sbi
    → Owned sbi (new_file_inode k dir mode n)
unfolding new_file_inode
new_file_inode-Owned k sbi dir mode n v = record {
  valid = v;
  bounded = omega arith;
  covers = omega arith;
  in_data = λ i lt. absurd (omega arith);
  in_device = λ i lt. absurd (omega arith);
  no_more = λ i le. refl;
  in_use = λ i lt. absurd (omega arith);
  apart = λ i j lt. absurd (omega arith);
}

module _ (k : Kernel) (reads : (b : ℕ) → k.readable b ≡ true) (vol : Volume) (c : Consistent k vol)
    (s : Name) (w : IsFileName s) (mode : ℕ) (absent : view k vol.base s ≡ none) where
  abbrev pub n : ℕ
  n = find_free_inode vol.base.sbi

  abbrev pub marked : SbInfo
  marked = mark_inode vol.base.sbi n

  abbrev pub entered : Result (Unit {0}) × SbInfo × Inode × Device
  entered = add_entry k s n marked vol.base.dir vol.base.dev

  abbrev pub after : State
  after = entered_state k vol.base s

  -- The inodes when `naive_add_entry` has returned.
  abbrev pub inodes : Result (Unit {0}) → ℕ → Inode
  inodes (ok _) = update vol.inode n (new_file_inode k vol.base.dir mode n)
  inodes (err e) = vol.inode

  abbrev pub created : Volume
  created = record { base = after; inode = inodes entered.0 }

  -- The call fails before it changes anything, or goes as far as `naive_add_entry`.
  pub create_is :
      ((e : Errno) × (perform k vol (create_call s mode) ≡ (err e, vol)))
      ⊎ ((n ≢ 0) × (perform k vol (create_call s mode) ≡ (no_count entered.0, created)))
  unfolding perform create
  create_is = elim (Bool-cases (n == 0)) [
    | inl e ↦ inl (enospc, rw e refl)
    | inr e ↦ elim (Bool-cases (k.allocates 0)) [
      | inr a ↦ inl (enomem, rw (e, a) refl)
      | inl a ↦ inr (ground arith, rw (e, a) (both entered))
    ]
  ]
    where
      both :
          (x : Result (Unit {0}) × SbInfo × Inode × Device)
          → let y : Result Inode × SbInfo × Inode × Device = elim x.0 [
            | ok _ ↦ (ok (new_file_inode k vol.base.dir mode n), x.1, x.2, x.3)
            | err e ↦ (err e, x.1, x.2, x.3)
          ] in
            ◌≡◌ {A = Result ℕ × Volume}
              (
                no_count y.0,
                record {
                  base = record { sbi = y.1; dir = y.2; dev = y.3 };
                  inode = enter_inode y.0 vol.inode;
                },
              )
              (
                no_count x.0,
                record { base = record { sbi = x.1; dir = x.2; dev = x.3 }; inode = inodes x.0 },
              )
      both (ok _, b, f, d) = unfold new_file_inode in refl
      both (err e, b, f, d) = refl

  module _ (nz : n ≢ 0) where
    valid : IsValid marked
    valid = mark_inode-IsValid vol.base.sbi n c.sound.valid

    spread : Spread marked vol.base.dir after.sbi after.dir
    spread =
        add_entry-Spread k s n marked vol.base.dir reads valid
          (mark_inode-IsDir vol.base.sbi n vol.base.dir c.sound.is_dir) vol.base.dev

    -- A file that was there.
    module _ (m : ℕ) (old : Live k vol.base m) where
      owned : Owned marked (vol.inode m)
      owned = mark_inode-Owned vol.base.sbi n (vol.inode m) (c.owned m old)

      pub other_number : n ≢ m
      other_number q =
          old_number k reads vol.base c.sound s w absent nz old.name old.is_name
            (old.entry ∙ ap some (sym q))

      pub other_inode : (r : Result (Unit {0})) → inodes r m ≡ vol.inode m
      other_inode (ok _) =
          let differs : (n == m) ≡ false = ground (arith, other_number) in rw differs refl
      other_inode (err e) = refl

      pub other-Stays : Stays vol.base after (vol.inode m)
      other-Stays = record {
        owned =
            Owned-Spread marked vol.base.dir after.sbi after.dir (vol.inode m)
              (keeps k reads vol.base c.sound s w absent nz).valid spread owned;
        off_dir =
            Apart-Spread marked vol.base.dir after.sbi after.dir (vol.inode m) spread owned
              (c.off_dir m old);
        data_kept = λ j lt.
            add_entry-frame k s n ((vol.inode m).block_pointers j) marked vol.base.dir vol.base.dev
              (c.off_dir m old j lt) (λ b e q. taken j lt b e q);
      }
        where
          taken :
              (j : ℕ)
              → j < (vol.inode m).block_count
              → (b : ℕ) → (alloc_block marked).0 ≡ ok b
              → b ≢ (vol.inode m).block_pointers j
          taken j lt b e q = cc (
            (alloc_block_ok marked b valid e).was_free,
            owned.in_use j lt,
            ap (bit marked.block_bitmap) q,
          )

    -- A file that is there was there, or is the new one.
    Live-ways : (m : ℕ) → Live k after m → Live k vol.base m ⊎ ((m ≡ n) × (entered.0 ≡ ok tt))
    unfolding view
    Live-ways m l = elim (outcome k reads vol.base c.sound s w absent nz).entries [
      | inr (same, _) ↦ inl (was (sym (same l.name l.is_name.is_name) ∙ l.entry))
      | inl (good, added) ↦ elim (Name-cases s l.name) [
        | inl q ↦ inr (cc (added.has, rw (← q) at l.entry), good)
        | inr ne ↦ inl (was (sym (added.keeps l.name l.is_name.is_name ne) ∙ l.entry))
      ]
    ]
      where
        was : view k vol.base l.name ≡ some m → Live k vol.base m
        was e = record { name = l.name; is_name = l.is_name; entry = e }

    pub new_inode :
        (r : Result (Unit {0})) → r ≡ ok tt → inodes r n ≡ new_file_inode k vol.base.dir mode n
    new_inode (ok _) e = rw (==_refl n) refl
    new_inode (err x) e = absurd (cc e)

    -- What holds of every file that was there and of the new one holds of all.
    each :
        (P : ℕ → Inode → Type 0)
        → ((m : ℕ) → Live k vol.base m → P m (vol.inode m))
        → P n (new_file_inode k vol.base.dir mode n)
        → (m : ℕ) → Live k after m
        → P m (inodes entered.0 m)
    each P old new m l = elim (Live-ways m l) [
      | inl was ↦ rw (other_inode m was entered.0) (old m was)
      | inr (q, good) ↦ rw q (rw (new_inode entered.0 good) new)
    ]

    created-Consistent : Consistent k created
    created-Consistent = record {
      sound = entered-Sound k reads vol.base c.sound s w absent nz;
      number = each (λ m ino. ino.i_ino ≡ m) c.number (unfold new_file_inode in refl);
      owned =
          each (λ m ino. Owned after.sbi ino) (λ m l. (other-Stays m l).owned)
            (new_file_inode-Owned k after.sbi vol.base.dir mode n
              (keeps k reads vol.base c.sound s w absent nz).valid);
      off_dir =
          each (λ m ino. Apart after.dir ino) (λ m l. (other-Stays m l).off_dir)
            (unfold new_file_inode in λ j lt. absurd (omega arith));
      apart = λ m m' l l' differ.
          each (λ x ino. (x ≢ m' → Apart ino (inodes entered.0 m')))
            (λ x lx ne.
              each (λ y ino. (x ≢ y → Apart (vol.inode x) ino)) (λ y ly. c.apart x y lx ly)
                (λ _. unfold new_file_inode in λ j lt. absurd (omega arith)) m' l' ne)
            (λ _. unfold new_file_inode in λ j lj i li. absurd (omega arith)) m l differ;
    }

  pub create-Consistent : Consistent k (perform k vol (create_call s mode)).1
  create-Consistent = elim create_is [
    | inl (e, q) ↦ rw q c
    | inr (nz, q) ↦ rw q (created-Consistent nz)
  ]
