-- ===== src/DbTable/Memory.antt =====
-- db.cpp: a store in memory, for tests.
use sdk.Prelude.{ℕ, ◌≡◌, ◌≢◌, arith, List, true, Option, some, ◌==◌, if◌then◌else◌}
use sdk.DbTable.{Backend}

pub read_written :
    (s : ℕ → Option (List ℕ)) (index : ℕ) (d : List ℕ)
    → (if index == index then some d else s index) ≡ some d
read_written s index d = ground arith

pub read_other :
    (s : ℕ → Option (List ℕ)) (index other : ℕ) (d : List ℕ)
    → other ≢ index
    → (if other == index then some d else s other) ≡ s other
read_other s index other d h = ground arith

-- A store in memory.
abbrev pub memory : Backend
memory = record {
  State = ℕ → Option (List ℕ);
  put = λ s index d. (true, λ i. if i == index then some d else s i);
  get = λ s index. s index;
  get-put_self = λ s index d _. read_written s index d;
  get-put_other = read_other;
}
