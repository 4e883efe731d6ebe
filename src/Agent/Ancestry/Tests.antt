-- ===== src/Agent/Ancestry/Tests.antt =====
-- Runs of the ancestry reader on small process trees.
use holonightd.Prelude.{
  ◌≡◌, refl, none, some, [], ◌∷◌, ◌++◌, arith, ltb, if◌then◌else◌, ◌==◌, nat_eq, text_eq,
}
use holonightd.Prelude.Text.{utf8}
use holonightd.Agent.Ancestry.{StatReader, parse_parent_pid, read, u32_bound}
use holonightd.Agent.Ancestry.StatLine.{place_value, parse_parent_pid-line}
use holonightd.Agent.Ancestry.Lineage.{IsLineage, read-IsLineage}

-- Process 30 has parent 20, whose parent is 1; the command of 20 holds a parenthesis.
abbrev tree : StatReader
tree pid =
    if pid == 30
    then some (utf8 "30 (kiro-cli) S 20 30 30 0")
    else if pid == 20
    then some (utf8 "20 (a) b) S 1 20 20 0")
    else if pid == 1
    then some (utf8 "1 (init) S 0 1 1 0")
    else none

read-tree : read tree 30 ≡ 30 ∷ 20 ∷ 1 ∷ []
unfolding read utf8 parse_parent_pid
read-tree = refl

-- A cycle is cut where it closes.
read_cycle :
    read (λ pid. if pid == 5 then some (utf8 "5 (x) S 6 0") else some (utf8 "6 (y) S 5 0")) 5
    ≡ 5 ∷ 6 ∷ []
unfolding read utf8 parse_parent_pid
read_cycle = refl

parse_malformed :
    (parse_parent_pid (utf8 "7 (x) S") ≡ none)
    × (parse_parent_pid (utf8 "7 (x) S 4294967296 0") ≡ none)
unfolding parse_parent_pid utf8
parse_malformed = (refl, refl)

parse_parent_pid-line_example :
    parse_parent_pid
      (utf8 "20 (a) b" ++ b')' ∷ b' ' ∷ b'S' ∷ b' ' ∷ (utf8 "17" ++ b' ' ∷ utf8 "20 0"))
    ≡ (if ltb (place_value (utf8 "17")) u32_bound then some (place_value (utf8 "17")) else none)
unfolding utf8
parse_parent_pid-line_example =
    parse_parent_pid-line (utf8 "20 (a) b") (utf8 "20 0") (utf8 "17") b'S' b' ' (omega arith)
      (λ e. cc) (omega arith) (omega arith) (omega arith)

read-IsLineage_example : IsLineage tree 30 (read tree 30)
read-IsLineage_example = read-IsLineage tree 30
