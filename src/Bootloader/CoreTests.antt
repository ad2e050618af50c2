-- ===== src/Bootloader/CoreTests.antt =====
-- Two cores that print through bootloader/src/print.rs at the same time.
use rpi5_baremetal.Base.{
  ℕ, ◌<◌, ◌≡◌, ◌≢◌, ◌⊎◌, refl, true, false, List, [], ◌++◌, codes, ℕ_discrete, arith,
}
use rpi5_baremetal.Mutex.Threads.{go_to}
use rpi5_baremetal.Mutex.Schedules.{Steps}
use rpi5_baremetal.Mutex.SpinLock.{lock_round, deref_mut, compare_exchange_weak}
use rpi5_baremetal.Bootloader.Print.{pl011_uart_addr}
use rpi5_baremetal.Bootloader.Print.Cores.{
  idle, lock_debug, advance, begins, System, Step, call, go_on, at_start, Reach, start, later,
}
use rpi5_baremetal.Bootloader.Print.Cores.Turns.{fixed_out}
use rpi5_baremetal.Bootloader.Print.Cores.Parts.{concat, InPart}
use rpi5_baremetal.Bootloader.Print.Cores.Messages.{messages_whole}
use rpi5_baremetal.Bootloader.Print.Cores.Completion.{prints_complete}

abbrev called : System → ℕ → List ℕ → System
called s i text = record s { points = go_to s.points i (lock_debug text) }

abbrev gone_on : System → ℕ → System
gone_on s i = record {
  console = (advance false s.console (s.points i)).0;
  points = go_to s.points i (advance false s.console (s.points i)).1;
  begun = s.begun ++ begins (s.points i) (advance false s.console (s.points i)).1;
}

-- Both have called, core 1 has the lock and has sent a character, and core 0 has tried to take it.
abbrev both : System
both = called (called at_start 0 (codes "one")) 1 (codes "two")

abbrev sending : System
sending = gone_on (gone_on (gone_on both 1) 1) 1

abbrev mixed : System
mixed = gone_on sending 0

sent_one : fixed_out mixed.console ≡ codes "t"
unfolding advance lock_round compare_exchange_weak deref_mut ℕ_discrete
sent_one = refl

mixed-Reach : Reach 2 mixed
unfolding ℕ_discrete
mixed-Reach =
    later
      (later
        (later
          (later
            (later (later start (call 0 (codes "one") (omega arith) refl))
              (call 1 (codes "two") (omega arith) refl))
            (go_on 1 false (omega arith)))
          (go_on 1 false (omega arith)))
        (go_on 1 false (omega arith)))
      (go_on 0 false (omega arith))

messages_whole_example :
    ((mixed.console.debug_uart.locked ≡ false) × (fixed_out mixed.console ≡ concat mixed.begun)
      ⊎ (rest : List ℕ) × (mixed.console.debug_uart.locked ≡ true)
        × InPart mixed.begun (fixed_out mixed.console) rest)
    × ((o : ℕ) → o ≢ pl011_uart_addr → mixed.console.sent o ≡ [])
messages_whole_example = messages_whole mixed-Reach

prints_complete_example :
    (t : System) × Steps (Step 2) mixed t × ((i : ℕ) → i < 2 → t.points i ≡ idle)
prints_complete_example = prints_complete mixed mixed-Reach
