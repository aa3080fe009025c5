-- ===== src/Mutex/Pthread.antt =====
-- A pthread mutex from its initializer on.
use concurrencia.Base.{refl, if◌then◌else◌, arith}
use concurrencia.Mutex.Calls.{Mutexes, MutexesDocumented}
use concurrencia.Mutex.Gate.{Gate, OneAtATime}

module _ (mutexes : Mutexes) where
  open mutexes use {Mutex, initializer, is_locked, lock, unlock}

  abbrev pub gate : Gate
  gate = record {
    State = Mutex;
    first = initializer;
    room = λ s. if is_locked s then 0 else 1;
    enter = lock;
    leave = unlock;
  }

  module _ (documented : MutexesDocumented mutexes) where
    pub one_at_a_time : OneAtATime gate
    one_at_a_time = record {
      room-first = rw (documented.is_locked-initializer) refl;
      enter-shut = λ c s e. documented.lock-locked c s (ground (arith, e));
      enter-open = λ c s e.
          let (s', f, g) = documented.lock-unlocked c s (ground (arith, e)) in (s', f, rw g refl);
      room-leave = λ s e. rw (documented.is_locked-unlock s (ground (arith, e))) refl;
    }
