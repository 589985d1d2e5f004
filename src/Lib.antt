-- ===== src/Lib.antt =====
-- A model of the pros kernel, a 32-bit x86 kernel in C++, and proofs about it.
--
-- The kernel enters at kmain (Kernel/src/main.cpp), which clears the console, loads the descriptor
-- tables, gives memory to the page allocator, and mounts files in the virtual file system. The
-- parts and the files that model them (each file names its own functions):
--
--   CString        Kernel/src/Lib/String.cpp: memset, memcpy, strlen, strcmp, strcpy, strcat,
--                  strsep, countDigit, swap, reverse, itos, and strdup, a client of Heap
--   MemoryManager  Kernel/src/MM/PMM.cpp and Kernel/include/MM/MemoryManager.hpp: the bitmap of
--                  4 KB blocks, initPMM, setRegionUsed, setRegionFree, getFreePhysicalPage,
--                  freePage, and MemoryManager::init (MM/MemoryManager.cpp) over the boot loader's map
--   Paging         Kernel/src/MM/VMM.cpp and the macros and entries of MemoryManager.hpp: initVMM and
--                  mapPage, a client of MemoryManager
--   Heap           Kernel/src/MM/Heap.cpp and Kernel/include/MM/Heap.hpp: malloc and free over
--                  chunk headers in memory, and the list of blocks that these stand for
--   Vga            Kernel/src/VGA.cpp and Kernel/include/VGA.hpp: the text console
--   Port           Kernel/src/Hardware/Port.cpp: port accesses, and the machine behind them
--   Gdt, Idt       Kernel/src/Hardware/GDT.cpp and IDT.cpp with their headers: the descriptor
--                  tables, the setup of the two interrupt controllers, the end of an interrupt
--   Ata            Kernel/src/Driver/ATA.cpp: the disk driver, a client of Port, Heap and CString
--   Log            Kernel/src/Lib/Log.cpp: printf on the console and on the serial port, log,
--                  klog and panic, a client of CString, Vga and Port
--   Vfs            Kernel/src/FS/VFS.cpp over Kernel/include/Lib/GenericTree.hpp and List.hpp: the
--                  tree of mounts and its dump, a client of CString's strsep
--   Partition      Kernel/include/FS/PartitionTable.hpp and Kernel/src/FS/PartitionTable.cpp: the
--                  master boot record in memory
--   Kernel         Kernel/src/main.cpp: the first stage of kmain, a client of Vga, Gdt, Idt
--                  and MemoryManager, and the second, which mounts files and reads the master boot
--                  record, a client of Vfs, Ata and Partition
--
-- Memory holds the byte-level model: Heap, CString, Gdt, Idt, MemoryManager and Paging work on it,
-- so that headers, descriptors and bitmaps are the bytes that the code writes. Prelude has the
-- native numbers, Boolean tests and machine words, and Bits the laws of the bit operations.
--
-- State. A class becomes a record of its members, and a method a function from the record, and
-- memory where the method touches it, to the new ones. A u32 keeps its wrap-around where it can
-- occur. A pointer is its address, and `nullptr` is 0. The messages that other parts log are left
-- out of their models.
--
-- Addresses. Memory is indexed by the virtual addresses that the code uses: kernel memory from 3 GB
-- on is physical memory from 0 on, before initVMM and after it, and Paging reads and writes its
-- tables there. The page walk of the processor (Paging/Walk) is the specification of mapPage and
-- initVMM; its translation caches, which the load of cr3 empties, are not modelled. A read or a write
-- of the model does not fault: only the first 4 MB of memory are mapped at 3 GB, so that the theorems
-- on initVMM ask for its tables to be there, and the heap at 3 GB + 4 MB is made (Kernel) only where
-- the processor finds all its pages, each of which has a frame of its own (Paging/Init).
--
-- The disk drive (Ata/Device) has its status at the command port and its data at the data port, where
-- it has words only when it is not busy; it ignores writes while it is busy, and what else is read
-- from it is anything. It answers for both drives of its bus.
--
-- Loops. A loop with a counter is structural recursion on the rounds that are left. The loops
-- over a string, over the chunk list, over a format, over the sectors of a read and the wait for
-- a busy drive run on fuel, return `none` when it runs out, and their theorems say how much is
-- enough: one more than the characters of the string, the size of the heap plus one (every chunk
-- takes 20 bytes of it), the sectors that the request touches and one more, one more than the
-- bytes of a format, one more than the entries of the memory map, and one more than the reads for
-- which the drive is busy. dump's blanks need two more than their number. The loop at the end of
-- panic, which never ends, is left out, and its model gives the state before it. itos and
-- countDigit supply enough fuel themselves.
--
-- Interfaces. `Bus` (Port) is the machine behind the ports, a parameter. `Sectors` (Ata) is what
-- the loop of ATA::read needs of readSector, and `Serves` (Ata/Serves) what that promises; the
-- driver fills it, on the kernel heap and a disk drive behind the ports (Ata/Disk). The assembly
-- stubs of the interrupts are addresses that Idt takes as parameters, and the methods of a
-- Storage are a parameter of Vfs.
--
-- Not modelled: Ext2 (a stub that reads nothing), Heap's dump, which only logs, the messages that
-- kmain logs, the objects that it allocates and its last loop, and the assembly code. BootMap
-- (MemoryManager) reads the memory map of the boot loader in memory, and Init has the loops of
-- the allocator over the list of its entries. Vfs takes strings as lists of characters, so that
-- the copies that strdup makes, and their leaks, are not seen.
pub mod Prelude
pub mod Bits
pub mod Memory
pub mod CString
pub mod Heap
pub mod MemoryManager
pub mod Vga
pub mod Ata
pub mod Paging
pub mod Port
pub mod Gdt
pub mod Idt
pub mod Vfs
pub mod Partition
pub mod Kernel
pub mod Log
