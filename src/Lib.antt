-- ===== src/Lib.antt =====
-- Localized causal broadcast: a system of processes, one per host, each of which broadcasts a number
-- of messages and delivers those of all processes. A delivery waits for the deliveries that its
-- packet depends on; a broadcast depends on the process's own earlier broadcasts, and on the
-- deliveries from the processes that affect it, its locality.
--
-- A process is a stack of layers. A packet that CausalBroadcast::broadcast has filled goes down
-- through uniform reliable broadcast and best effort broadcast, which makes one copy for each host,
-- into the outbox of the perfect link, where it is sent again and again until its acknowledgement
-- arrives. A packet that arrives goes up: the link acknowledges it and passes on the first copy;
-- uniform reliable broadcast re-broadcasts a new packet under its own id and passes it on once more
-- than half of the processes have sent it; causal broadcast keeps it until the packets that its
-- vector clock asks for are delivered. The layers run in threads that share queues.
--
-- Files, and the code that each models (the paths are from the repository's root; hpp stands for
-- template_cpp/src/include, cpp for template_cpp/src/src):
--   Prelude        names of the libraries, tests on numbers, lists, results of calls that can fail
--   Containers     std::set and std::map over size_t, in the order of iteration
--   Decimal        std::to_string, std::stoul, std::stoi
--   CString        strings up to a NULL in a buffer (copyString in cpp/packet.cpp)
--   VectorClock    hpp/vector_clock.hpp: `zeros`, `increase`, `assign`, `get_value`, `less` (operator<),
--                  `leq` (operator<=), `to_bytes`, `decode_data`
--   Packet         hpp/packet.hpp; Packet/Codec is cpp/packet.cpp: `to_bytes`, `decode_data`
--   Queue          hpp/thread_safe_queue.hpp: `push`, `pop`
--   OutBox         hpp/outbox.hpp, cpp/outbox.cpp: `add_packet`, `remove_packet`, `send_packets`
--   PerfectLink    hpp/perfect_link.hpp, cpp/perfect_link.cpp: `process_arrived` is a round of
--                  processArrivedMessages, `add_packets_to_outbox` one of addPacketsToOutBox; Threads
--                  has the five threads with their queues, and a system of links
--   UdpSocket      cpp/udp_socket.cpp: `receive_packet`, `send`
--   BestEffortBroadcast        cpp/best_effort_broadcast.cpp: `broadcast_half` is one of the two
--                  halves of the thread's loop
--   UniformReliableBroadcast   cpp/uniform_reliable_broadcast.cpp: `first_section` and
--                  `second_section` are what BEBDeliver does under its mutex, `broadcast`
--   CausalBroadcast            cpp/causal_broadcast.cpp: `urb_deliver` (URBDeliver); Steps has the
--                  thread of `broadcast`, which goes from one wait to the next
--   Stream         std::getline and the extractions of std::istream that the readers use
--   CommandLine    hpp/parser.hpp: Parser's `parse` and accessors
--   Hosts          hpp/parser.hpp: `hosts` and Parser::Host
--   ProcessController          cpp/process_controller.cpp: the lines of the output file; Config is the
--                  constructor's reading of the configuration, Startup the constructor itself, `start`
--                  up to the states that the layers start from, and cpp/main.cpp
--   Program        a process with all of its layers (cpp/process_controller.cpp, `start`): Step has a
--                  step for each access of a thread to what it shares, Run a system of processes on a
--                  network; Carried, Genuine, System and Delivery are what it keeps and delivers,
--                  Agreement what the processes know of a delivered packet
--   Tests          runs on small inputs
-- A file below one of these has the lemmas about its parent, or a part of it.
--
-- State and steps. An object is a record with the fields of its class; an operation takes the record
-- and returns the new one, with the calls that it makes of other layers and queues as a list of
-- actions or events, in their order. A call that holds a mutex from its first access to its last is one
-- step. A call that waits on a condition variable is `none` where it is a function (Queue.push, pop,
-- OutBox.add_packet), and otherwise a step that cannot be taken (CausalBroadcast/Steps.Run). The
-- data types `Run` are the interleavings: of the users of a queue, of BEBDeliver's two sections with
-- the broadcasts of the layer above, of a process's broadcasting thread with the deliveries to it, of
-- the threads of all links, and in Program of all threads of all processes. The network may lose,
-- delay and repeat datagrams, and changes none (UDP with its checksum); a datagram reaches the process
-- that it is addressed to.
-- In Program a call that pushes into a full queue is not taken before there is room, and neither are
-- the changes that it makes before its push, which no other thread reads meanwhile. A half of the loop of
-- BestEffortBroadcast::broadcast is one step up to its calls of send, and each of these, which waits
-- for room, is a step of its own; addPacketsToOutBox leaves a packet in its queue until the outbox has
-- room.
--
-- Numbers. A size_t is a natural number below `word_size`, 2 ^ 64; additions and the subtractions of
-- ids wrap around. A failed assert, an exception of the standard library and a read behind a buffer
-- are values of `Fault`. The asserts are those of a build that has them: build.sh builds Release, which
-- defines NDEBUG (CMakeLists.txt) and drops them, so that the built program goes on behind a test that
-- fails, where the model stops with a `Fault`; where the tests hold the two do the same.
--
-- Fuel. `to_string` n runs on n + 1 rounds, and a round divides by 10. `read_messages` runs along the
-- payload count of the header, one round for each message, as the loop does. `deliver_ready` runs on
-- one round more than the source has waiting packets; each round but the last takes one of them out.
-- `read_config` takes its fuel as an argument, since on some lines the code does not end; on a line
-- of numbers one round for each number that follows the first, and one more, are enough.
--
-- Parameters. What the constructor leaves in the outbox's counter, which the code does not set, is an
-- argument of `OutBox.create`; what the memory of the program's other uninitialized variables holds
-- is in `Surroundings`, with the files by their paths. The calls that resolve a host name (inet_pton,
-- inet_addr, inet_ntop, getaddrinfo) are the fields of `Resolver`. What recvfrom and
-- sendto do is an argument of `receive_packet` and of UdpSocket.send.
--
-- Not modelled: the system calls that create and close the socket, the signal handler, what joins
-- and stops the threads, what is printed to the console, and the help text; the order that
-- std::sort gives hosts with one id, which it leaves open. In the layers a host is its id, without
-- its address. The bytes behind a message with a NULL byte in it, which no message of the program
-- has, are left out: `NoNulls` rules such messages out where the bytes matter.
pub mod Prelude
pub mod Containers
pub mod Decimal
pub mod CString
pub mod VectorClock
pub mod Packet
pub mod Queue
pub mod OutBox
pub mod PerfectLink
pub mod BestEffortBroadcast
pub mod UniformReliableBroadcast
pub mod CausalBroadcast
pub mod UdpSocket
pub mod Stream
pub mod CommandLine
pub mod Hosts
pub mod ProcessController
pub mod Program
mod Tests
