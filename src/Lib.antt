-- ===== src/Lib.antt =====
-- Verification of rpi5_baremetal, a boot loader for the Raspberry Pi 5.
--
-- The program has four parts. rpi5_baremetal_hello_uart/dtb/src/lib.rs reads the device tree that
-- the firmware leaves in memory and gives a callback the addresses of the nodes that it is asked for.
-- rpi5_baremetal_hello_uart/mutex/src/lib.rs has a spin lock and a read-write lock; the console is
-- behind the spin lock. rpi5_baremetal_hello_uart/bootloader/src sets up the GPIO and the UART of the
-- RP1 chip, whose blocks it finds in a table, and uses the other two: main searches the device tree
-- for the debug UART, sets up both UARTs, the pins and the timer, and then blinks and greets. xtask
-- runs cargo to build and test them. Paths below are from rpi5_baremetal_hello_uart.
--
-- Dtb, for dtb/src/lib.rs:
--   Dtb/BigEndian     big_endian: read_u32_from_ptr, read_char_str, read_regs, FdtProperty
--   Dtb/Header        big_endian::Dtb: new, and the start and the end of each block
--   Dtb/Reserve       big_endian::FdtReserveEntry: the numbers of a reserved block
--   Dtb/CharStrings   CharStringIter: next, and any_string, the loop of parse_prop over it
--   Dtb/DeviceNode    SimpleDeviceNode: parse_prop, with a function for each larger arm
--   Dtb/Address       read_reg_internal, read_round_internal, calculate_address_internal
--   Dtb/AddressIter   DeviceAddressIter: next_internal, and visit, the loop over it
--   Dtb/Token         get_types, skip_nop
--   Dtb/Parser        find_node; find_node_recursive, whose loops are read_props and read_children
--   Dtb/Layout        device trees and their bytes, as the specification of the format has them
--   Dtb/Walk          the abstract parser: a walk over the tree
--   Dtb/Utf8          the test of the standard library's CStr::to_str
--   Dtb/Naturality    searches whose callbacks correspond to one another
--   Dtb/Rounds        one round of each loop of the parser, by the token that it meets
--   Dtb/Keeps         what a search keeps, if its callback does
--   Dtb/Agree         searches whose callbacks agree as long as all goes well
--   Dtb/Ends          the loops of the parser in memory that is zero from some address on
--   Dtb/ItWorks       the test it_works; the file that it reads is its memory
--   Dtb/Build         dtb/build.rs: main, with a function for each step
-- Below these stand the modules of their proofs, and Dtb/Tests, Dtb/AddressTests and
-- Dtb/SearchTests run them on the small blobs of Dtb/Samples.
--
-- Mutex, for mutex/src/lib.rs:
--   Mutex/SpinLock    SpinLock and its guard; lock_round is a round of the loop of lock
--   Mutex/RwLock      RWLock and its guards; read_round, write_round and drain_round are rounds of the
--                     loops of read and write
--   Mutex/Threads     sums over threads
--   Mutex/Specification  what a lock promises: numbers of guards, and how they may change; the modules
--                     Refinement below the two locks map their states to it
--   Mutex/SpinLock/Counting  the threads of spinlock_test, which use the lock to count
--   Mutex/RwLock/Reentry  a second read guard, which the test rw_lock_data asks for
--   Mutex/RwLock/Counting  the threads of rw_lock_data, some of which read under two guards, and some
--                     of which count
--   Mutex/Clocks      what happens before what, by the orderings of the accesses to a word; the modules
--                     Orderings below the two locks have those of each access
--   Mutex/Schedules   steps one after the other, for the modules Completion below the two locks
--
-- Bootloader, for bootloader/src:
--   Bootloader/Rp1Info  interfaces/rp1/rp1_info.rs: get_block_address
--   Bootloader/Registers  the register crate, as a record of operations with their laws; the
--                       implementation in Registers/Arithmetic shows that the laws can hold
--   Bootloader/Layouts  interfaces/pl011.rs and interfaces/rp1/rp1_gpio.rs: the fields of the registers
--   Bootloader/Pl011    interfaces/pl011.rs: flush, disabled, init and write over the registers
--   Bootloader/Rp1Gpio  interfaces/rp1/rp1_gpio.rs: the registers that each operation changes, and
--                       Rp1Gpio/Words, what becomes of their words
--   Bootloader/SysTimer systimer.rs: init and wait
--   Bootloader/Board    the devices that main uses, as one state
--   Bootloader/Print    print.rs: _print on a core that runs alone, and Print/Cores, _print in small
--                       steps on any number of cores
--   Bootloader/Boot     main.rs: main, with functions for its stages, and the panic handler; Boot/Entry,
--                       the assembly before main
--   Bootloader/BuildScript  build.rs: what it tells cargo, and the test that xtask runs it
-- Below Pl011, Board, Print and Boot stand the modules of their proofs; Boot/Discovery/InTree joins
-- the search of main to the walk over the tree. Bootloader/Tests, UartTests, DiscoveryTests, BootTests
-- and CoreTests run them; BootSamples is the small blob from which they boot.
--
-- Xtask, for xtask/src/main.rs:
--   Process           commands, how they end, and the log of what was done
--   Xtask             get_workspace_members, build, run, test and main, with a function for each step
--   Xtask/Commands    the commands and the places of the binary
--   Xtask/Members, Xtask/Stages, Xtask/Image, Xtask/Codes   their proofs
--   Xtask/Guard       the commands that are run, against Bootloader/BuildScript
--
-- How the code is modelled:
--   - Memory is a byte at each address, and does not change while the parser runs. Addresses are
--     natural numbers; sums of a pointer and an offset do not overflow.
--   - Values of u32 and usize keep their bounds: a shift drops what leaves 64 bits, and +, - and
--     next_multiple_of panic on overflow, as in the debug build that xtask makes. A function of the
--     parser gives a value, an error (a constructor for each text), a panic, or the end of the fuel.
--   - The borrowed chain of parents is the list of the ancestors, the nearest first. The closure that
--     find_node takes is a function on the state that it captures.
--   - Bounds: limit is the number of bytes in which the end of a string is searched, rounds that of
--     the rounds of the loop over one reg, and fuel that of the rounds of the parser's loops. A tree
--     needs the fuel Layout.size, and a reg one round more than it has entries; the theorems say so.
--     The loop of wait has fuel for its reads of the counter.
--     A bound that is too small gives out_of_fuel, which is no result of the code.
--   - The registers of a UART are words, and what is written is kept in a log; the flags have a value
--     for each read, which comes from the hardware. The theorems that a run returns assume that a UART
--     answers within a number of reads, Effects.IsResponsive.
--   - The board has one UART at each address. A read of the flags or of the counter is numbered, so
--     that a run goes on with the values behind those that were read before.
--   - A core runs alone in Bootloader/Print: a lock that is taken stays so. In Print/Cores the cores
--     take turns at will, each at a round of a lock, a use of a guard or a character; a UART is there
--     the list of what it was sent, and the text of a call is one list. The order in which the calls got
--     the lock is kept beside the state, and no step reads it.
--   - The assembly before main is a function on the registers that it uses and the memory; its loop has
--     fuel for the words of the block and one round more. The symbols of the linker script are given.
--   - A command of xtask or of the build script answers as a function of what was done before.
--   - The counter of the timer is a parameter: its frequency, and a value for each read.
--   - The atomic operations of a lock take effect one after the other, in any order of the threads.
--     A weak exchange may fail at will, and the reader of the word may act on an old value. The bits of
--     the word of RWLock are taken apart by / and %: the write flag is the bit of weight 2 ^ 63. Fewer
--     than 2 ^ 63 threads leave the count below the flag, and so do fewer than 2 ^ 62 of rw_lock_data,
--     which may have two read guards each. There a comparison that fails drops the guards as one that
--     passes does, and the thread keeps which it was.
--   - The memory orderings are in the modules Orderings of the two locks, over the same moves. Each
--     thread has a count of the reads and the writes of the data of every thread that happen before its
--     next step. An access to the word that releases hands these counts on with the value, and one that
--     acquires takes them over; a relaxed one does neither.
--
-- Not modelled: the debug output and the messages of xtask and the build scripts; the part of
-- dtb/src/lib.rs under the feature alloc, which only declares types; the words of the registers that no
-- function uses; the text that core::fmt makes; what the loops at the end of the panic handler and of
-- the assembly do, which is to wait; the manifests and the linker script.
pub mod Base
pub mod Dtb
pub mod Mutex
pub mod Process
pub mod Xtask
pub mod Bootloader
