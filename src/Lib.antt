-- ===== src/Lib.antt =====
-- Verification of the programs of this repository: the course projects of an operating systems
-- course. The files below say which file of the repository they are about.
--
-- Parts and files
--
--   * Strings (project4/proj4.cpp) finds the runs of text in a file. Strings.Scan is the body of the
--     scanning loops, Strings.Files what the system calls give, Strings.Reading the functions
--     `regular_read` and `mmap_regular_read`, Strings.Threads `sumthread` and `mmap_read`,
--     Strings.Joining the messages of the parent and the threads as a step relation, and Strings.Main
--     the options and `main`.
--   * Mailbox (project3/addem.cpp, project3/life.cpp, project4/proj4.cpp) is `sendMsg` and `recvMsg`,
--     which the three programs share, as a step relation over one mailbox and any number of threads.
--   * Addem (project3/addem.cpp) adds up numbers in threads.
--   * Life (project3/life.cpp) is the game of life: `getNumberOfNeighbors`, what `linesthread` does in
--     a generation, `updateMatrix`, `isAllZero`, `hasNotChanged`, and the loop of `main`. A matrix is
--     a memory counted in `int`s, so that a read outside of it has the meaning it has in memory.
--     Life.Input is the reading of the first generation, Life.Main `main` with its arguments,
--     Life.Rounds a step relation of parent and threads from the messages RANGE to the end of the
--     loop over the generations, and Life.Ending one from the last GENDONE on.
--   * Shell (project1) is the shell: Shell.Line splits a line into the arguments of a program,
--     Shell.Jobs has the list of the jobs in the background, Shell.Loop a round of `shellMode` and the
--     waiting at `exit`, and Shell.Command the start of a program from the command line.
--   * Kernel (project2) is the call of intercept.c that describes a process, and the modules
--     intercept.c, module.c and openclose.c, which find the system call table, replace its entries
--     and restore them. Kernel.Handlers has the functions that they put there, and how a call
--     reaches them through the table.
--   * Credentials (preproj2/sys.c) is the calls that change the user and group ids of a process:
--     Credentials.Groups has setregid, setgid, setresgid and setfsgid in any sequence, Credentials.Users
--     setreuid, setuid, setresuid and setfsuid.
--   * Priority, Limits and Sessions (preproj2/sys.c) are the calls on the nice values of processes,
--     on their resource limits, and on process groups and sessions: each is a store of processes
--     by their addresses, the functions of the source on it, and the calls in any sequence. In
--     Sessions a `struct pid` is its number, and a process stands for its threads.
--   * HostNames (preproj2/sys.c) sets and gets the names of the host and of its domain, as arrays of
--     bytes.
--   * Prelude has what these share: lists under native indices, C's signed integers, the conversions
--     to `int`, totals of weights over lists and over threads, C strings, and `strtok`.
--
-- Sources and bounds
--
--   * Record fields and functions have the names of the source in small letters with underscores.
--     An `int` is an integer `ℤ`; sums and conversions that can overflow wrap around at 32 bits, and
--     the sums of CPU times at 64 bits.
--   * The loops are recursion on the number of rounds or on the list that is left. The search for the
--     system call table, which need not end, has a number of rounds.
--   * Words are read by `strtok` with fuel for one byte more than are left, which is enough, since
--     every word takes a byte. The waiting for the jobs at `exit` need not end and has a number of
--     rounds. The two matrices of Life do not overlap: before[40] is no row of
--     the other one, as it is in memory, so the model is that of the program for fewer than 40 lines.
--   * What the kernel answers to a user call of Credentials may differ from call to call, since such a
--     call may give and take capabilities. NULL is the address 0.
--   * The C library's character tests and `atoi`, the size of the stack, what the system calls return, the kernel's task
--     list and conversions of times, its lookups of pids, users and groups, its permissions and
--     security module, and its addresses are parameters.
--
-- Not modelled
--
--   * The rest of preproj2 (of the kernel's sys.c: restart and power off, times, uname, usage
--     and prctl, which are calls of the rest of the kernel), the test programs of project2,
--     and the scripts.
--   * The printing of the matrix in life.cpp and the prompt of the shell.
--   * Creating threads, and calls on semaphores that fail.
pub mod Prelude
pub mod Strings
pub mod Mailbox
pub mod Addem
pub mod Kernel
pub mod Life
pub mod Credentials
pub mod Priority
pub mod Limits
pub mod Sessions
pub mod HostNames
pub mod Shell
