-- ===== src/Lib.antt =====
-- A model of the kernel osdev3: a 32-bit x86 kernel with a heap, threads, page tables, a C string
-- library and a read-only ext2 driver.
--
-- The parts, and the files that model them:
-- - RingBuffer.antt: lib/ringbuffer/ringbuffer.c. A ring of elements of one size over an array of
--   bytes, refined to a bounded queue (RingBuffer/Queue.antt).
-- - Kmalloc.antt: kernel/kmalloc.c. The two heaps as memory with headers and footers, refined to
--   lists of blocks with first fit, splitting and coalescing (Kmalloc/Blocks.antt).
-- - Kthread.antt: kernel/kthread.c and arch/x86/kt_ctx.c. The thread table, whose stacks come from
--   kmalloc and go back by kfree, the scheduler, and the first frame of a thread's stack.
-- - Mm.antt: arch/x86/mm.c. The bitmap of physical pages and the page tables behind the recursive
--   entry of the directory; page_fault asks __kmem_is_user of kmalloc.c.
-- - CString.antt: lib/string. Strings as the bytes up to the end of their array, and memory blocks as
--   maps from addresses, for copies that overlap.
-- - Ext2.antt: fs/ext2.c over a block device, a parameter that the theorems ask to hold an image;
--   directories and paths in Ext2/Directory.antt, which uses strtok_r and memcmp of lib/string, and
--   the operations on nodes in Ext2/Node.antt.
-- - Printf.antt: lib/stdio/printf.c. Numbers as text, and formats (Printf/Format.antt) over a list of
--   arguments, with the characters printed as their output.
-- - Vga.antt: drivers/vga.c. The cells of the text screen, the position and the cursor.
-- - Kshell.antt: kernel/kshell.c. The line that is typed and the history, driven by the events that the
--   shell is registered for, and in Kshell/Commands.antt the commands, over Ext2 and strtok_r.
-- - Kevent.antt: kernel/kevent.c. The ring of events and its consumers, over RingBuffer; the consumer
--   thread's rounds and the interrupts that hand over events as one sequence of turns.
-- - Ps2.antt: drivers/ps2.c. The decoder of scancodes, whose events go through Kevent to the consumers
--   of Kshell (Kshell/Input.antt, Ps2/Line.antt).
-- - Drivers.antt: drivers/drivers.c. The table of drivers, and which one a device is handed to.
-- - Pci.antt: drivers/pci.c over a parameter for the configuration space: reads (Pci/Config.antt), class
--   names (Pci/Classes.antt) and the enumeration, which publishes to Drivers.
-- - Io.antt: arch/x86/include/io.h. The ports, a parameter of the drivers.
-- - Ata.antt: drivers/ata.c over the ports: transfers, and in Ata/Probe.antt the probe that Drivers
--   calls with a device of Pci. Ata/Drive.antt is what the theorems ask of a drive.
-- - Serial.antt: drivers/serial.c. The output ring over RingBuffer, and received bytes as events of
--   Kevent; in Serial/Race.antt an interrupt inside serial_putc.
-- - Kcall.antt: kernel/kcall.c. The system calls, over Kmalloc, Kthread and the copies of CString.
-- - Block.antt: block/block.c. The registry of block devices, over Dllist.
-- - Klog.antt: kernel/klog.c and lib/stdio/setcolor.c. Messages of the log, as the calls of the console
--   that they make.
-- - Pic.antt: drivers/pic.c and drivers/pit.c over the ports.
-- - Dllist.antt: lib/list/dllist.c. Nodes at addresses, refined to a sequence.
-- - Prelude.antt: the names and lemmas that they share.
--
-- Functions keep their names, without a leading underscore. The state of a file is a record of its
-- variables, passed and returned. The theorems stand in the child modules, and those called Tests
-- apply them at concrete inputs.
--
-- size_t, int and pointers are 32 bits wide, and the arithmetic on size_t keeps its wrap-around.
-- Loops recurse on what they count: entries of the thread table, words of the bitmap, levels of
-- indirect blocks, bytes of a string. Other loops have fuel. The search of kmalloc has one unit for
-- each byte of the heap and one more, where each step passes a header. The loop of strnlen takes its
-- fuel as an argument; 2 ^ 32 rounds bring its counter back to 0. The
-- loop of kevent_proc has fuel, where one round more than there are events is enough; the waits for
-- a drive have the driver's own limit, ATA_TIMEOUT.
--
-- The loops of vformat and of the directory search have one unit for each byte that they may pass and
-- one more, where each round passes a byte at least; __int_str has 64 for the digits of a 64-bit
-- value, since a digit is taken to a base of at least 2.
--
-- Not modelled: kprintf and the messages that the functions print through it, the interrupt and
-- descriptor tables, boot and assembly code.
pub mod Ata
pub mod Block
pub mod CString
pub mod Dllist
pub mod Drivers
pub mod Ext2
pub mod Io
pub mod Kcall
pub mod Kevent
pub mod Klog
pub mod Kmalloc
pub mod Kshell
pub mod Kthread
pub mod Mm
pub mod Pci
pub mod Pic
pub mod Prelude
pub mod Printf
pub mod Ps2
pub mod RingBuffer
pub mod Serial
pub mod Vga
