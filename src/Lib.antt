-- ===== src/Lib.antt =====
-- A verification library for the C++ programs of this repository, which teach network programming
-- with boost.asio (Network/) and concurrency (Concurrent/).
--
-- Network/asyncServer is a TCP server. A session reads chunks of the stream and cuts them into
-- frames of type, length and value, which it posts to a logic thread; what is sent goes through a
-- queue of which the head is being written. AsyncServer.MsgNode models inc/Const.h, inc/MsgNode.h
-- and src/MsgNode.cpp (message buffers and the frame of `SendNode`); AsyncServer.Session models the
-- reading side of src/CSession.cpp: `HandleRead` is `handle_read`, its loop is `loop` with the body
-- `step`, each branch is a function, and `receive` is a read that completes. Nodes that the session
-- shares with the logic thread stand in a heap, and a pointer is an index into it. Every `memcpy` is
-- checked against its buffers, so an access out of bounds is the result `fault`. The byte order
-- functions of boost are the parameter `ByteOrder`. The loop has fuel, two rounds a byte and two,
-- which is never used up.
--
-- AsyncServer.Sending models `Send` and `HandleWrite` of the session, with the writes begun as a list;
-- AsyncServer.HeadFirst its handlers `HandleReadHead` and `HandleReadMsg`, which `Start` does not use;
-- AsyncServer.Logic the queue, the condition variable and the worker of src/LogicSystem.cpp, where an
-- interleaving is a list of moves; AsyncServer.Pool src/AsioIOServicePool.cpp; AsyncServer.Server the
-- accept loop and the table of src/CServer.cpp.
--
-- Network/coroutineServer serves each session with a coroutine. CoroutineServer.Nodes models
-- inc/MsgNode.h and src/MsgNode.cpp, CoroutineServer.Reader the coroutine that `Start` of
-- src/CSession.cpp spawns, run on the bytes that the peer will send, CoroutineServer.Writer `Send` and
-- `HandleWrite`, and CoroutineServer.Accept src/CServer.cpp. An exception is the result `threw`.
-- The fuel is the number of rounds; a round that goes on has taken a header and a body.
-- CoroutineServer.RoundTrip joins the nodes of both servers to this coroutine.
--
-- Concurrent/day12-circularque/day12-circularque/CircularqueSeq.h is a bounded queue in a circular
-- array under a spin lock: Containers.CircularQue, against the list of CircularQue.Fifo.
-- Concurrent/day15-threadsafehash/threadsafetable.h is a hash table: Containers.LookupTable, with
-- `std::hash` and `==` on keys as the parameter `Key`. Both are modelled call by call, since each
-- call holds its lock throughout; LookupTable.Runs has the series of calls.
--
-- Concurrent/day14-ThreadSafeContainer/day14-ThreadSafeContainer/ThreadSafeQue.h and ThreadSafeStack.h
-- have containers whose consumers wait on a condition variable: Containers.SafeQueue and
-- Containers.SafeStack, each with one mutex, and Containers.LinkedQueue, a linked list on a heap with a
-- mutex for either end. The threads that sleep or are woken are counted, a spurious wake-up is a move,
-- and an interleaving is a list of moves. Containers.WorkQueue is the doubly linked queue of
-- Concurrent/day22-ThreadPool/day22-ThreadPool/ThreadSafeQue.h, from whose tail other threads steal.
--
-- Containers.LockFreeStack is the stack of Concurrent/day17-LockFreeStack/LockFreeStack.h, where a popped
-- node is deleted at once if no other thread is in `pop`, and put on a list otherwise. `place` says
-- where each of any number of threads stands, `go_on` is the next access of one, the allocator may give
-- out any free address, and a weak exchange may fail. The constructor does not name its atomics: in the
-- model they start null, as they do since C++20. In the proofs, LockFreeStack.Holds says who has each node, and
-- LockFreeStack.Atomic has the stack that the nodes stand for.
--
-- Containers.SinglePopPush is the queue of Concurrent/day18-LockFreeQue/day18-LockFreeQue/singlepushpop.h,
-- without a lock, for one thread that pushes and one that pops: a move is one access of the memory they
-- share, and the atomics are sequentially consistent, as their defaults are. Containers.Chains has the
-- linked lists of the three queues that are lists on a heap.
--
-- Network/asycApi is a session whose writes may be cut short: AsycApi.Node models the buffer of
-- inc/Session.h, AsycApi.Writes and AsycApi.Reads the two sides of src/Session.cpp, AsycApi.LastNode
-- its `WriteToSocketErr`, with calls and the
-- answers of the socket as events. The parameter `freed` is what the memory of a parameter of the first
-- write holds when the operation reads it, as much of it as the parameter had, which the buffer says.
--
-- Concurrent/day21-ParallenAlgorithm/day21-ParallenAlgorithm runs algorithms in threads on blocks of a
-- range: Algorithms.Blocks, PartialSum (parallen_sum.h), ForEach (parallen_for_each.h) and Find
-- (`parallel_find` of parallen_find.h), where a schedule says which thread makes the next step.
-- Algorithms.QuickSort models `sequential_quick_sort` of Concurrent/day19-parallensort/parallen_sort.h.
-- Addition, the order of the elements and `std::partition` are parameters. The fuel of the sort and of
-- the halving of `async_for_each` is the length of the range, of which each call takes off at least one.
--
-- Concurrent/day08-Actor/Actor is an ATM as actors. Actor.Message models withdraw_msg.h,
-- Actor.Dispatcher the chains of handlers of dispatcher.h, Actor.Bank, Actor.Atm and Actor.Hardware
-- the three actors, each handler a function, and Actor.System the queues of message.h, the threads
-- and the keyboard loop of Actor.cpp: an interleaving is a list of moves, and `run` performs it.
--
-- Base has what the models share: tests on numbers, lists, byte buffers, 16-bit shorts and heaps.
--
-- Not modelled: sockets, printing and Json; the strands of Network/asyncServer_ThreadPool; the
-- generated code of Network/grpc_Server; the programs that show one feature of the language each.
pub mod Base
pub mod AsyncServer
pub mod Actor
pub mod Algorithms
pub mod AsycApi
pub mod Containers
pub mod CoroutineServer
