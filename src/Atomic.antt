-- ===== src/Atomic.antt =====
-- Programs whose rounds are one atomic step: hardware/counter_ultimate.c by an atomic add,
-- transactional/mutex_transaction.c, array_transaction.c and rw_transaction.c by a transaction,
-- mutex_tinystm.c, array_tinystm.c and rw_tinystm.c by one of tinySTM, a child for each file.
pub mod AddFetch
pub mod Transaction
pub mod ArrayTransaction
pub mod RwTransaction
pub mod Stm
pub mod ArrayStm
pub mod RwStm
pub mod Defs
pub mod Results
mod Tests
use concurrencia.Base.{ℕ, ◌≡◌, ◌⊎◌, Option, none, some, List, ◌++◌}
use concurrencia.Worker.{Action}

pub data Program : Type 0 where
  add_fetch transaction array_transaction rw_transaction stm array_stm rw_stm : Program

unfoldable pub main : Program → List Action → Option ℕ
main add_fetch = AddFetch.main
main transaction = Transaction.main
main array_transaction = ArrayTransaction.main
main rw_transaction = RwTransaction.main
main stm = Stm.main
main array_stm = ArrayStm.main
main rw_stm = RwStm.main

-- What the programs print as the expected value.
abbrev pub expected : Program → ℕ
expected add_fetch = AddFetch.expected
expected transaction = Transaction.expected
expected array_transaction = ArrayTransaction.expected
expected rw_transaction = RwTransaction.expected
expected stm = Stm.expected
expected array_stm = ArrayStm.expected
expected rw_stm = RwStm.expected

-- Each of the seven programs, after any steps of its threads, has printed nothing or the expected
-- count, and its threads can be run on so that it prints the expected count.
pub atomic_prints :
    (p : Program) (actions : List Action)
    → ((main p actions ≡ none) ⊎ (main p actions ≡ some (expected p)))
      × ((rest : List Action) × (main p (actions ++ rest) ≡ some (expected p)))
unfolding main
atomic_prints add_fetch = AddFetch.main-prints
atomic_prints transaction = Transaction.main-prints
atomic_prints array_transaction = ArrayTransaction.main-prints
atomic_prints rw_transaction = RwTransaction.main-prints
atomic_prints stm = Stm.main-prints
atomic_prints array_stm = ArrayStm.main-prints
atomic_prints rw_stm = RwStm.main-prints
