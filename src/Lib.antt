-- ===== src/Lib.antt =====
-- CHOS gives each process on a Linux machine an operating system environment of its choice: a
-- symbolic link, /proc/chos/link, points to another directory tree for each process, and the trees
-- hang on that link below /chos. The parts are a kernel module, a PAM module, a command, and two
-- starters of batch jobs.
--
-- The kernel module (kernel/chos_lkm.c, kernel/chos.h) keeps a table with an entry for each pid.
-- An entry holds a reference-counted link to a path, or none, and the start time of its process. A
-- write to /proc/chos/setchos gives the caller a new link, /proc/chos/link resolves through the
-- entries of the caller and its ancestors, fork hands the link on, and stale entries are dropped.
-- - Kernel/State.antt: the objects of chos.h, the heap and the faults of C; a call is a function
--   from a state to a result and a new state, or to a fault. Kernel/State/Returns.antt: runs
--   without a fault.
-- - Kernel/Links.antt: create_link, destroy_link, reset_link, set_link, cleanup_links and
--   lookup_link. Links/Inv.antt has the invariant: counts are the numbers of entries, entries
--   point to live links, each link owns its text. Links/Refs, Release, Reset, Set, Cleanup, Create
--   and Lookup are about the operations and it; Links/Way.antt has the abstract search up the
--   process tree, Links/Resolve, Invisible and Tree compare lookup_link with it.
--   Links/Set/Race.antt lets a reset_link on another processor into a search, and
--   Links/Reset/Race.antt into another reset_link.
-- - Kernel/Buffer.antt: the buffer of a write. Kernel/Paths.antt: add_valid_path to is_valid_path
--   on a list of paths, as the other files use it. Paths/Nodes.antt: the same with a node and a
--   string from kmalloc for each path; Nodes/Refines, Added and Written compare both. The macros
--   of linux/list.h are an order of the nodes.
-- - Kernel/Proc.antt: is_chrooted, my_chroot, the write handlers, print_version, and
--   link_readlink, which link_follow_link repeats with another last call.
-- - Kernel/Fork.antt: chos_do_fork, my_sys_exit and my_sys_exit_group around the original
--   functions. Fork/Inherit.antt is about the children that a fork makes, Fork/Exit.antt about
--   those that an exit leaves behind.
-- - Kernel/Locks.antt: the lock of each entry and tasklist_lock, and a call as the steps that it
--   makes. Locks/Links and Locks/Calls are the functions above with their locks; Locks/Discipline,
--   Erase and Balanced compare both. Locks/Processors.antt lets any number of processors make the
--   steps of such calls in any order; Processors/Move, Compatible, Apart, Progress and Alone are
--   about them.
-- - Kernel/Patch.antt: set_pteval, init_do_fork and cleanup_do_fork, which put a jump to
--   chos_do_fork over the original function; the addresses (Target) are those of the build.
-- - Kernel/World.antt and Kernel/Module.antt: init_chos, recover_chos and init_module, on the
--   memory that outlives a module, with the references to /chos and "/" that path_lookup takes,
--   and Kernel/Module/Cleanup.antt: cleanup_module; Module/Fresh, Unload and Upgrade follow a
--   module through its life.
-- - Kernel/System.antt: the calls of all processes as one step relation, with what the kernel
--   guarantees to each and the policy of the administrator; other calls may run in the middle of a
--   fork. System/Safe, Switch, Forks and Policy are about the states that calls lead to,
--   System/Held, Isolation and Heirs about what they leave to the processes that did not make them
--   and to children; Proc/Reclaim.antt is about the links that are freed.
--
-- The PAM module (pam_chos/) chooses the environment at login. A child with the user's rights
-- finds the name and the path and sends them through a pipe; the parent cleans them, writes the
-- path to setchos and sets CHOS.
-- - Pam/Args.antt, Pam/UserFile.antt and Pam/Info.antt: pam_chos_helper.c, and the reading end of
--   pam_chos_util.c. Pam/Sanitize.antt: the sanitize functions of pam_chos_util.c.
-- - Pam/Session.antt: pam_chos.c, parent and child, and set_multi. Session/Deliver.antt and
--   Session/Enter.antt put a session and a login on top of the kernel module.
--
-- The configuration file /etc/chos is read by check_chos, which pam_chos/pam_chos_helper.c and
-- utils/chos.c have in common but for the size of the buffer: Conf.antt. The command chos reads
-- /etc/chos.conf for a login shell: Command.antt has set_env and set_beh of utils/chos.c,
-- Command/Bounds.antt and Command/Env.antt their array and their meaning; Command/Main.antt has
-- main, get_multi, set_multi and the options, Command/Main/Enter.antt puts main on top of the
-- kernel module. Jobs.antt is utils/job_starter.c, which starts a job under the command
-- (Jobs/Start.antt is about its array, Jobs/Enter.antt puts the two together), and Jobs/Gate.antt
-- is utils/pam_job_starter.c, which asks PAM before; Jobs/Gate/Enter.antt puts it on top of the
-- session module and the kernel module. Text.antt has the functions of the C library on strings
-- and streams, Prelude.antt the shared names. Tests/ runs the model and applies the theorems to
-- concrete data.
--
-- What the program calls is a parameter: the addresses that kmalloc returns and the bytes that
-- __copy_from_user leaves (Write), the tasks and the search for them (Machine), sys_chroot
-- (Services), do_fork and exit, the results of the system calls at a login (Calls, Surroundings),
-- getenv and malloc for set_env (Shell), the files and calls of main (Host), setrlimit and PAM for
-- the job starters (Calls, PamCalls).
--
-- Pointers, pids and bytes are numbers; the reference counts wrap around at 32 bits, and the
-- invariant asks for fewer than 2^31 pids. lookup_link takes fuel, one for each process on the way
-- up and one for its end, so more than pid_max is enough (Links/Tree); read_lines takes the length
-- of the file, since each line takes a byte.
--
-- A call runs without interruption, but for chos_do_fork around the original do_fork, for the two
-- races, and for Locks/Processors.antt, where the calls of several processors mix step by step:
-- the accesses between two steps, one function or one part of a function each, are not split, the
-- tasks that a call sees are those of its begin, and locks are granted in any order.
--
-- Not modelled: which orders of steps on several processors keep the reference counts right,
-- beyond the two races that do not, log lines, the macros for kernel versions, the reference
-- counts that set_fs_root and sys_chroot keep of paths, messages on stderr, and the part of
-- utils/pam_job_starter.c under LOG, which does not compile.
pub mod Prelude
pub mod Text
pub mod Conf
pub mod Command
pub mod Kernel
pub mod Jobs
pub mod Pam
pub mod Tests
