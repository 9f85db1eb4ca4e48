-- ===== src/Peer/Lifecycle/Tests.antt =====
-- A peer that was stopped while a goroutine was about to ask, and that is started again.
use xchg.Base.{true, false, [], ◌∷◌}
use xchg.Peer.Lifecycle.{System, new_life, start, created, looping, asking, ending}

abbrev stopped : System
stopped = record {
  life = record new_life { started = true; stopping = true; rounds = 3 };
  workers = asking ∷ [];
}

abbrev asked : System
asked = record { life = record stopped.life { rounds = 4 }; workers = looping ∷ [] }

abbrev told : System
told = record { life = asked.life; workers = ending ∷ [] }

abbrev left : System
left = record { life = record told.life { started = false }; workers = [] }

abbrev again : System
again = record { life = (start 5 left.life).1; workers = created ∷ [] }
