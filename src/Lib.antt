-- ===== src/Lib.antt =====
-- Verification of the C programs of this repository: a sensor gateway (final-assignment), two character
-- devices with the programs that use them (11-kernel-module-basic/04-fops-rw and 05-fops-ioctl), a file
-- server on message queues (10-message-queues/client-server), a chat over TCP (06-socket/ipv4_stream),
-- a System V queue of typed messages (10-message-queues/systemV-message-queues), programs on one file
-- (02-linux-file-system, BTVN/02-file), and programs of threads, processes and signals.
--
-- The gateway. Sensors send JSON messages over TCP. `connection_mgr` receives them and pushes them to
-- a shared list; `data_mgr` and `storage_mgr` read the list, parse each message, and average the
-- temperatures or insert them into a database.
--   Gateway/Heap, Gateway/SharedList   final-assignment/shared/os_list.c, headers/os_list.h: nodes in
--     a heap that is a function from addresses, `NULL` is 0. An action faults at an address that holds
--     no node, and blocks where the thread would sleep in `cond_wait` or on a mutex that is held. The
--     address that `calloc` returns is an argument. The loops over the nodes have `cur_size + 1` as
--     fuel; each turn takes one node of a chain of `cur_size`.
--   Gateway/Order, Gateway/Search, Gateway/Sort   final-assignment/shared/os_gen.c: `search`, `merge`,
--     `sort` on lists of integers, where an index out of bounds is an outcome of its own. `search`
--     has `right + 2` as fuel and `sort` has `r - l + 1`: each turn shortens the interval.
--   Gateway/Message   final-assignment/shared/os_msg.c: `msg_parse` and `read_room` over a record of
--     what they use of cJSON.
--   Gateway/Net   final-assignment/os_net/os_net.c: the state is the list of open descriptors.
--   Gateway/Connections   final-assignment/main-server.c, `connection_mgr`: one turn of its loop.
--   Gateway/Consumers   final-assignment/main-server.c and shared/os_list.c: the three threads on the shared list,
--     where a step is one action on a mutex, the condition or a node.
--   Gateway/SensorNode   final-assignment/client.c, and `getMsg` of shared/os_msg.c: the loop of a sensor
--     over a list of what each turn meets, with the number of blocks that stay allocated.
--   Gateway/Timestamp   final-assignment/shared/os_time.c: decimal numbers of at most ten digits.
--   Gateway/DebugLog   final-assignment/shared/os_debug.c: the log file as a list of lines.
--   Gateway/Averages   final-assignment/main-server.c, `data_mgr`: what it does with the messages taken.
--   Gateway/Storage   final-assignment/main-server.c, `storage_mgr`: what it does with the messages taken.
--   Gateway/Data   final-assignment/main-server.c, `data_mgr`, and `avg` of os_gen.c, over a record of
--     what they use of `double`.
--   Gateway/Database   final-assignment/fdb/fdb.c: connections, statements, files and the contents of
--     `sensor.db`; what SQLite, stdio and `chmod` answer are arguments.
--   Gateway/Files   final-assignment/shared/os_file.c: the size and the contents of a file.
--   Gateway/JsonFile   final-assignment/shared/os_json.c, `json_fread` and `json_fwrite`.
--   Gateway/LogPipe   final-assignment/shared/os_file.c, `write_to_pipe`, and the child process in `main`
--     of final-assignment/main-server.c.
--   Gateway/Setup   final-assignment/main-server.c, `main` and `prevent_zombie`: the server and its log
--     process over the pipe, as a step relation; the pipe holds whole blocks.
--   Gateway/ReportLog   final-assignment/main-server.c, `data_mgr`, and messages/debug_messages.h: the
--     texts of the reports and their way into the pipe.
--   Gateway/Options   final-assignment/main-server.c and client.c, `main`: the loop over `getopt`,
--     whose results are a list.
--   Gateway/Json   final-assignment/shared/os_json.c, `json_strip`: the text in place as a list of
--     bytes. One more than its length is the fuel; each turn leaves a shorter rest.
--
-- Driver: 11-kernel-module-basic/05-fops-ioctl/hello.c, with words of 64 bits where the code computes
-- in `size_t`; the size of a page and the answers of the kernel are arguments.
-- RwDriver: 11-kernel-module-basic/04-fops-rw/hello.c, the same device with 1024 bytes of memory.
-- Stages: hello.c of 01-major-minor, 02-device-file and 03-file-operations, the versions before these.
-- DeviceApp, RwDriver/Menu: test_app.c of 05-fops-ioctl and 04-fops-rw over the two devices. The offset
-- is that of the open file, which the kernel hands to the driver and keeps.
-- Chat: 06-socket/ipv4_stream/stream_client.c and stream_server.c over one stream of bytes;
--   Chat/Dialogue: the client of BTVN/06-socket/ipv4-stream, which also reads the responses.
-- MessageQueue: 10-message-queues/client-server/server.c and client.c; the results of `read`,
-- `msgsnd`, `msgrcv` and `fork` are given as lists.
-- Threads/ProducerConsumer: 09-semaphore/producer-consumer/main.c. Threads/LostWakeup:
-- 04-thread/conditional-var/con_var.c. Threads/Wakeup: BTVN/04-thread/conditional-variables/main.c.
-- Threads/Counter: 04-thread/mutil-thread/main.c. Threads/RelatedPipe:
-- 07-pipes-FIFOs/related_pipe/main.c. Threads/NamedSemaphore:
-- 09-semaphore/POSIX-semaphore/named-semaphore/main.c, with a list of processes. A state and a step
-- relation each, where a step is one action of one thread.
-- Threads/ReadLock: BTVN/04-thread/rw_lock/main.c, likewise, with accesses to the memory in one order.
-- Threads/BusyWait: 04-thread/conditional-var/main.c, likewise.
-- TypedQueue: producer.c, consumerA.c and consumerB.c of 10-message-queues/systemV-message-queues, as a step
-- relation over a list of processes and the queue of their key.
-- Signals: `print_sigset_t` of BTVN/05-signal/signal-blocking/main.c; one more than SIGRTMAX is the fuel.
-- Datagrams: dgram_server.c and dgram_client.c of 06-socket/ipv4_dgram and unix_dgram, as a step relation
-- over the clients, which are numbered, and the datagrams in flight.
-- FileIo: a file as a list of bytes. FileIo/Writers: BTVN/02-file/ass1.c and ass2.c. FileIo/FileType: the
-- file types of ass1.c and of 02-linux-file-system/file-infor/main.c. FileIo/Locks: process_A.c and
-- process_B.c of 02-linux-file-system/fcntl, as a step relation.
-- SharedMemory: writter.c, file-mapping/writter.c and file-mapping/reader.c of
-- 08-shared-memory/systemD-shared-memory: the contents of an object over a list of runs.
-- Zombies: 03-process/safe-fork/main.c and BTVN/03-process/zombie/ass2.c, as a step relation.
-- Common: Boolean tests, signed integers and lists over the native numbers. Tests, and a module Tests
-- beside some proofs: concrete inputs.
--
-- Not modelled: formatted output but for timestamps, and the copies of cJSON, of the
-- SQLite header, of hostap's wpa_ctrl, of the kernel's list header and of the helpers in BTVN/lib, which
-- are other projects' code.
-- The remaining short programs call one system interface each and print the result.
pub mod Common
pub mod Gateway
pub mod Stages
pub mod Driver
pub mod RwDriver
pub mod DeviceApp
pub mod MessageQueue
pub mod TypedQueue
pub mod Zombies
pub mod Chat
pub mod Threads
pub mod Signals
pub mod FileIo
pub mod Datagrams
pub mod SharedMemory
mod Tests
