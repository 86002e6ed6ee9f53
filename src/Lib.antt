-- ===== src/Lib.antt =====
-- actor-zeta, a C++ actor library (header/actor-zeta), as functions and step relations: the word
-- and the life cycle of an actor, its mailbox with the queues below it, messages and the promise
-- and future that carry a result, the dispatch of a message to a method, the chain of coroutines
-- that wait for a result, and the scheduler.
--
-- A sender calls send, which makes a message and its future and calls enqueue_impl; that pushes
-- into the mailbox and may owe the scheduler a job. A worker takes the job and calls resume, which
-- drains the mailbox and parks; the destructor waits for both. A message is dispatched to a
-- method, whose outcome fulfils the promise in the message, and the future reads it from the
-- shared state. A message that dies undispatched cancels its promise.
--
--   MessageId         mailbox/id.hpp, mailbox/priority.hpp: ids and priorities
--   Actor.StateWord   actor/cooperative_actor.hpp, lines 18 to 99: the atomic word
--   Actor.Backoff     actor/cooperative_actor.hpp, lines 107 to 141: the waits of its loops
--   Actor.Protocol    actor/cooperative_actor.hpp, enqueue_impl to leave_and_maybe_schedule, and the
--                     switch of scheduler/worker.hpp: threads interleaved at each atomic access
--   Actor.Resume      actor/cooperative_actor.hpp, resume_impl and park: the whole control flow of one
--                     activation, over an interface of mailboxes that Actor.Resume.Default fills
--   Actor.Spawn       spawn.hpp, detail/memory.hpp: the memory of actors, and their owners
--   Queue.LinkedList  detail/queue/linked_list.hpp over a heap of `next` fields (Queue.Links),
--                     with the moves of whole lists (Queue.LinkedList.Moves) and, with
--                     detail/queue/forward_iterator.hpp, what reads one (Queue.LinkedList.Iterators)
--   Queue.LifoInbox   detail/queue/lifo_inbox.hpp: the lock-free inbox with its tags
--   Mailbox           impl/mailbox/default_mailbox.ipp: the inbox and the two priority queues
--   Message           mailbox/message.hpp, impl/mailbox/message.ipp, mailbox/make_message.hpp: the
--                     result slot (Message.Slot), many messages at once (Message.Pool), and the
--                     memory block of one (Message.Block)
--   Future.Flags, Future.SharedState, Future.ResultStorage
--                     detail/state_flags.hpp, detail/shared_state.hpp, detail/result_storage.hpp
--   Future.States     the shared states in memory
--   Future.Promise    detail/future.hpp: the members of promise and unique_future, run alone
--   Future.Handles    detail/future.hpp: promise and unique_future as owners, in any order of moves,
--                     assignments and destructions (Future.Handles.Owners, Future.Handles.Accounts)
--   Future.Method     detail/future.hpp: the promise_type of a coroutine method, from its frame and its
--                     memory resource (Future.Method.Resource) to its end (Future.Method.Call)
--   Future.Coroutine  the final suspend point of a coroutine method, and the frame's owner
--   Future.Frames     detail/coro_frame_header.hpp: the memory of a frame
--   Future.Release    the same release protocol with promise and future on two threads
--   Awaiting          detail/future_awaiters.hpp, detail/behavior_t.hpp: chains of coroutines that
--                     wait (Awaiting.Chain, Awaiting.Propagate), what the driver of an actor sees of
--                     them (Awaiting.Driver), the race of Awaiting.Suspend, and the frames of
--                     an actor's behaviors (Awaiting.Root)
--   Dispatch          actor/dispatch.hpp; Dispatch.Methods: actor/dispatch_traits.hpp and
--                     actor/implements.hpp; Dispatch.Arguments: the arguments of a method, checked,
--                     stored and read back; Dispatch.Send: send.hpp down to the mailbox,
--                     and Dispatch.Route: from send to the switch of a behavior;
--                     Dispatch.Address: actor/address.hpp, impl/actor/address.ipp;
--                     Dispatch.Validation: the checks of an actor's methods;
--                     Dispatch.TypeList: detail/type_list.hpp
--   Scheduler         scheduler/scheduler.hpp, scheduler/worker.hpp, scheduler/policy/work_sharing.hpp,
--                     scheduler/job_ptr.hpp, scheduler/resumable.hpp
--   Counted           detail/ref_counted.hpp, detail/intrusive_ptr.hpp: shared ownership
--   Rtt               detail/rtt.hpp: the layout of the run-time tuple that holds a message's body,
--                     and how its objects are read (Rtt.Access)
--   Examples          examples/balancer/main.cpp and examples/supervisor/main.cpp
--   Base              names and lemmas that the others share
--
-- Functions keep the names of the code, without the suffix _impl. Pointers are natural numbers,
-- null is 0, and a heap is a function from addresses to `next`; std::uint32_t and the flag byte
-- are native numbers, with the wrap-around of the state word written out. Memory is sequentially
-- consistent, and an exchange may also fail for no reason.
--
-- Loops over nodes run on fuel: one more than the nodes in the inbox, or in a list, is enough, and
-- two rounds are enough for pop_front. An update along a chain of coroutines needs fuel for the
-- coroutines further out, and one activation of an actor needs no more rounds than its
-- max_throughput. The push loop of the inbox takes any fuel, since other threads may make its
-- exchange fail any number of times. Threads are at most 2^29 - 1, the number of senders that the
-- word can count and that the code asserts.
--
-- What the sources leave to others is a parameter: the methods and behaviors of an actor, the
-- outcome of a coroutine, the answer of a memory resource with its address, the sizes and
-- alignments of a platform, and the functions that a coroutine handle has. Types are numbers,
-- equal for equal types; what the language knows of them, such as their sizes and conversions, is
-- a parameter.
--
-- Not modelled: what a compiler generates for a coroutine, the values of a message's arguments
-- (their types and places are), the identities of mixins, profiling hooks of the scheduler, the
-- remaining template traits, clocks, the abort after 1000 failed exchanges and the time limit of
-- the destructor.
pub mod Base
pub mod MessageId
pub mod Actor
pub mod Examples
pub mod Future
pub mod Queue
pub mod Mailbox
pub mod Counted
pub mod Rtt
pub mod Message
pub mod Awaiting
pub mod Dispatch
pub mod Scheduler
