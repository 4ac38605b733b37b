-- ===== src/Naive/Session/Removed.antt =====
-- The invariant of a directory of naive/ across `naive_unlink`.
use filesystem_lab.Base.{
  ℕ, ◌-◌, ◌<◌, ◌≡◌, ◌≢◌, ◌∙◌, refl, sym, ap, true, false, arith, inl, inr, Bool-cases, some, ◌==◌,
  Result, ok, err,
}
use filesystem_lab.Device.{Device}
use filesystem_lab.Naive.Layout.{SbInfo}
use filesystem_lab.Naive.Kernel.{Inode, Kernel}
use filesystem_lab.Naive.Entries.{Name, remove_entry}
use filesystem_lab.Naive.Entries.Remove.{Unique, Removed, RemoveAnswer, remove_entry_removes}
use filesystem_lab.Naive.Entries.Clear.{Outcome, remove_scan-Outcome}
use filesystem_lab.Naive.Entries.Slot.{Cleared-Unique}
use filesystem_lab.Naive.Entries.Outcome.{AllUnique}
use filesystem_lab.Naive.Namespace.{unlink, drop_inode}
use filesystem_lab.Naive.Namespace.Free.{Dropped, drop_inode-Dropped, drop_inode-inode_total}
use filesystem_lab.Naive.Session.{State, IsFileName, view, after_unlink}
use filesystem_lab.Naive.Session.Invariant.{Sound, Name-cases}

module _ (k : Kernel) (reads : (b : ℕ) → k.readable b ≡ true) (st : State) (v : Sound k st)
    (s : Name) (w : IsFileName s) (ino : Inode) where
  abbrev pub removed_state : State
  removed_state = record st {
    sbi = (drop_inode st.sbi ino).0;
    dev = (remove_entry k s st.dir st.dev).1;
  }

  module _ (e : view k st s ≡ some ino.i_ino) where
    answer : RemoveAnswer k s st.dir st.dev (remove_entry k s st.dir st.dev)
    answer = remove_entry_removes k s st.dir st.dev reads w.is_name (v.unique s w.is_name)

    -- An entry that is there is removed, and the inode is dropped.
    pub unlink_drops : unlink k s st.sbi st.dir ino st.dev ≡ (
      ok tt,
      (drop_inode st.sbi ino).0,
      (drop_inode st.sbi ino).1,
      (remove_entry k s st.dir st.dev).1,
    )
    unfolding unlink view
    unlink_drops = go (remove_entry k s st.dir st.dev) answer
      where
        go :
            (a : Result (Unit {0}) × Device)
            → RemoveAnswer k s st.dir st.dev a
            → (let x : Result (Unit {0}) × SbInfo × Inode × Device = elim a.0 [
              | err y ↦ (err y, st.sbi, ino, a.1)
              | ok _ ↦ (ok tt, (drop_inode st.sbi ino).0, (drop_inode st.sbi ino).1, a.1)
            ] in
                x ≡ (ok tt, (drop_inode st.sbi ino).0, (drop_inode st.sbi ino).1, a.1))
        go (ok _, d) r = refl
        go (err y, d) (_, _, gone) = absurd (cc (e, gone))

    -- The entry that was there is removed.
    pub unlink_way :
        (after_unlink k st s ino ≡ removed_state)
        × Removed k.readable s st.dir st.dev removed_state.dev
    unfolding after_unlink view
    unlink_way = (rw unlink_drops refl, go (remove_entry k s st.dir st.dev) answer)
      where
        go :
            (a : Result (Unit {0}) × Device)
            → RemoveAnswer k s st.dir st.dev a
            → Removed k.readable s st.dir st.dev a.1
        go (ok _, d) r = r
        go (err y, d) (_, _, gone) = absurd (cc (e, gone))

    still_unique : AllUnique removed_state.dev.blocks st.dir
    unfolding remove_entry view
    still_unique t wt =
        go (remove_entry k s st.dir st.dev)
          (remove_scan-Outcome k s st.dir.block_pointers reads st.dir.block_count 0 st.dev)
      where
        go :
            (a : Result (Unit {0}) × Device)
            → Outcome k s st.dir.block_pointers st.dir.block_count 0 st.dev.blocks a
            → Unique t a.1.blocks st.dir
        go (ok _, d) (c, _) = Cleared-Unique k s t st.dir st.dev.blocks d c (v.unique t wt)
        go (err y, d) (_, _, gone) = absurd (cc (e, gone))

    module _ (inside : (l : ℕ) → ino.block_pointers l < st.sbi.block_total)
        (apart : (l l' : ℕ)
          → l < st.dir.block_count
          → ino.block_pointers l' ≢ st.dir.block_pointers l) where
      pub dropped : Dropped st.sbi ino (drop_inode st.sbi ino).0 (drop_inode st.sbi ino).1
      dropped = drop_inode-Dropped st.sbi ino v.valid inside

      pub removed : Removed k.readable s st.dir st.dev removed_state.dev
      removed = unlink_way.1

      pub still_there :
          (t : Name) (n : ℕ)
          → IsFileName t
          → view k removed_state t ≡ some n
          → (s ≢ t) × (view k st t ≡ some n)
      unfolding view
      still_there t n wt f = elim (Name-cases s t) [
        | inl q ↦ absurd (cc (removed.gone, rw (← q) at f))
        | inr ne ↦ (ne, sym (removed.keeps t wt.is_name ne) ∙ f)
      ]

      other_number :
          (t : Name) (n : ℕ)
          → IsFileName t
          → s ≢ t
          → view k st t ≡ some n
          → (ino.i_ino - 1 == n - 1) ≡ false
      other_number t n wt ne f = elim (Bool-cases (ino.i_ino - 1 == n - 1)) [
        | inr z ↦ z
        | inl z ↦
            let same : ino.i_ino ≡ n =
              ground (arith, (v.numbered t n wt f).0, (v.numbered s ino.i_ino w e).0) in
            absurd (ne (v.one_name s t n w wt (e ∙ ap some same) f))
      ]

      pub removed-Sound : Sound k removed_state
      removed-Sound = record {
        valid = dropped.valid;
        few = rw (drop_inode-inode_total st.sbi ino) v.few;
        is_dir = record {
          counted = v.is_dir.counted;
          is_present = v.is_dir.is_present;
          no_more = v.is_dir.no_more;
          in_use = λ l lt.
              dropped.other_blocks (st.dir.block_pointers l) (λ l' _. apart l l' lt)
              ∙ v.is_dir.in_use l lt;
        };
        unique = still_unique;
        numbered = λ t n wt f.
            let (ne, g) = still_there t n wt f in
            (
              (v.numbered t n wt g).0,
              dropped.numbers (n - 1) ∙ rw (other_number t n wt ne g) (v.numbered t n wt g).1,
            );
        one_name = λ t u n wt wu f g.
            v.one_name t u n wt wu (still_there t n wt f).1 (still_there u n wu g).1;
      }

  pub after_unlink-Sound :
      view k st s ≡ some ino.i_ino
      → ((l : ℕ) → ino.block_pointers l < st.sbi.block_total)
      → ((l l' : ℕ) → l < st.dir.block_count → ino.block_pointers l' ≢ st.dir.block_pointers l)
      → Sound k (after_unlink k st s ino)
  after_unlink-Sound e inside apart = rw (unlink_way e).0 (removed-Sound e inside apart)
