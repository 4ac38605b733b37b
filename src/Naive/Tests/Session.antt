-- ===== src/Naive/Tests/Session.antt =====
-- The empty directory of the small file system of naive/.
use filesystem_lab.Base.{ℕ, ◌≡◌, refl, false, none, arith}
use filesystem_lab.Base.Bytes.{load32}
use filesystem_lab.Naive.Entries.{Name, matches, record_ino, find_record}
use filesystem_lab.Naive.Entries.Find.{find_entry, block_entry}
use filesystem_lab.Naive.Session.{State, view}
use filesystem_lab.Naive.Session.Invariant.{Sound}
use filesystem_lab.Naive.Tests.{zeros, device, kernel, super, super-IsValid, root, root-IsDir}

abbrev pub start_state : State
start_state = record { sbi = super; dir = root; dev = device }

pub nothing : (t : Name) → view kernel start_state t ≡ none
unfolding view find_entry block_entry find_record matches record_ino load32
nothing t = refl

no_match : (t : Name) (j : ℕ) → matches t zeros j ≡ false
unfolding matches record_ino load32
no_match t j = refl

pub start_state-Sound : Sound kernel start_state
start_state-Sound = record {
  valid = super-IsValid;
  few = omega arith;
  is_dir = root-IsDir;
  unique = λ t w l l' j j' lt lt' jt jt' m m'. absurd (cc (m, no_match t j));
  numbered = λ t n w e. absurd (cc (e, nothing t));
  one_name = λ t u n w x e f. absurd (cc (e, nothing t));
}
