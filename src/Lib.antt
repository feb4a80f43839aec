-- ===== src/Lib.antt =====
-- A verification library for a chat program in C, in epoll+tpool: a server on epoll with a pool of
-- threads, an SQLite database for users, messages, groups and files, and handlers for the packets
-- of its clients; a client for the terminal; and a server that receives files over UDP.
--
-- The program's parts. server.c waits for packets on its connections, copies each one into a struct
-- args (copy_sendpack, init_args of work.c) and adds it to the pool's queue (tpool_add_work of
-- tpool.c). A thread takes the job (thread_routine) and runs the handler (handle.c). Handlers
-- search and change the database through sqlite.c, whose callbacks put rows into the list behind
-- the global cb_head (link.c), keep the online users in a second list, and answer with send_pk.
-- The client's main (client.c) shows two menus in turn, one before the login and one behind it
-- (user_ui and chat_ui of function.c), whose branches send packets and read answers, while a second
-- thread (pthread_recv) reads packets from the same socket; its files go through work.c. udp.c
-- receives files in datagrams, which the client's udpfile sends.
--
-- The files, each named with the C code that it follows:
--   CString, CString.Decimal: the C library's functions on char arrays. An array is the list of its
--     bytes, with zeros behind the list's end; reading or writing past the array is a fault.
--   Packet, Packet.Cmd: the structures and constants of epoll+tpool/server/head.h.
--   Server: the globals of epoll+tpool/server/server.c and the handlers' effects. A handler is a
--     function from the globals to a result with new globals, to a fault (undefined behaviour of
--     the C code) or to an exit. The record Env holds what is outside of the repository: what the
--     database answers to a statement after those executed before it, whether sends succeed, and
--     what uninitialised memory holds. The database's state is the list of statements executed.
--     Server.Keeps has rules for properties of the globals that an action keeps.
--   Sqlite: epoll+tpool/server/sqlite.c. Sql and Write hold the statements and the functions that
--     change the database, Rows the callbacks, Search and Import the theorems on searches, Insert
--     those on inserts.
--   Handle: epoll+tpool/server/handle.c. Account holds handle_signup, handle_login, handle_refind_a
--     and handle_refind_b (handle_refindA and handle_refindB in the source), Send handle_send, Show
--     handle_show, Offline handle_offline, Friends handle_accept_friend, handle_add_friend and
--     handle_message, Change handle_change, Groups handle_group. Account.Race cuts handle_login where
--     its search has returned, and lets two threads run through the parts in any order.
--     Send.Single, Send.Group and Send.Everyone follow messages, Friends.Requests, Friends.Accept and
--     Friends.Stored a friend request, its answer and the messages that wait for a user, Change.Rename and
--     Change.Refuse the changes of a user's data.
--   Link: epoll+tpool/server/link.c on an explicit heap. Chain says when a part of the heap is a
--     list. The handlers' lists are plain lists; Link.Refine ties the two views for the removal of
--     a node.
--   Work: epoll+tpool/server/work.c, init_args and copy_sendpack.
--   Tpool: epoll+tpool/server/tpool.c. Queue has the queue on a heap, Threads the pool and its
--     threads as a step relation in which threads run in any order, Invariant what holds in every
--     state, Destroy the joins and the frees of tpool_destroy.
--   Transfer: the sender of files in epoll+tpool/server/handle.c, send_fileinfo, new_fb_head,
--     send_filedata and the block loops of handle_recv, with Pieces and Blocks on what is sent.
--     Receive and Upload: the receiver in epoll+tpool/server/work.c, createfile, recv_fileinfo and
--     recv_filedata, with Slots on the table gconn, and Rebuild, Roundtrip and Whole on the file
--     that is received if no recv comes short; a file that is there already keeps the bytes that are
--     not written. Sender is handle_recv as a whole, and Sender.Fetch a file's way from its disk
--     to the client's. An int is its 32-bit pattern.
--   Serve: a packet's way through the server, the branch of server.c's loop for a readable
--     connection and worker of work.c, and main's run over all packets that come. Session follows a
--     user through several packets, and Origin and its child modules follow, handler by handler, where the
--     descriptors come from that packets are sent to. The handlers of the file transfers are a
--     parameter there, any functions at all, since they read raw bytes from the socket.
--   MainLoop: the event loop of epoll+tpool/server/server.c with its registered connections as a
--     step relation; Count and Single say what its threads may do at the same time.
--   Client: epoll+tpool/client. Its state has the globals of client.c, the keys that are still to be
--     typed, the packets that are still to come and those sent. Scan holds scanf, Console the calls
--     of socket and terminal in function.c, Password passwd_input and the loops around it, Account
--     signup, login and refind, Talk the menus for friends, groups and messages, Receiver
--     pthread_recv, Menu user_ui, chat_ui and main. Links has search and removal of
--     epoll+tpool/client/link.c, on the heap of the server's lists. Files has the sender and receiver of
--     epoll+tpool/client/work.c, with Sending on what is sent and Download on how the
--     receiver meets the server's sender, Datagrams its sender of datagrams.
--   Udp: epoll+tpool/server/udp.c. Bytes and FirstBlock say which bytes of a file arrive.
--   Tests: runs of the theorems on concrete packets, databases, lists, pools, keys and files.
--
-- Bounds and fuel. Arrays have the sizes of the source: 128 bytes for most, 256 and 640 for
-- statements, 30 for file names. The int counter flag wraps at 2 ^ 31, and atoi reads numbers of
-- any size, where the C function is undefined for those beyond an int. The loops of link.c run on
-- fuel; the theorems say that a fuel above the list's length is enough. The search for a
-- free slot of gconn, which other threads change meanwhile, runs on a list of tables, one for each
-- test; ten are enough if a slot stays free. The menus of the client, which ask until they are
-- told to stop, run on the number of rounds in the client's Env, and a run that needs more is
-- marked as such; ask_password needs one round more than keys are typed, and the loop for datagrams
-- one for each datagram that comes. Everything else recurs on a list or a number of blocks.
--
-- Not modelled: handlers run one after the other, although the server's threads share flag, cb_head
-- and temp_name without a lock; only two logins are let run at the same time, and they change over
-- only between the search and the test of the password. Short writes on sockets, and packets that a
-- short read cuts into pieces; the blocks of a file may be read short, and only the theorems on
-- whole files take every recv to get what one send wrote; but what has come in behind a block's end
-- is not followed into the next head. A round of the client's receiving thread
-- is one step between the calls of the other thread: that it can be cut between its test of flag
-- and its recv, and compete with a dialogue for an answer, is left out. Also left out are the
-- printing of constant texts on either terminal, and the terminal's settings in getch; the opening
-- of sockets, and the exits of tpool_create when an allocation or a call of pthread fails; handle_fresh of handle.c, fresh_data of the client, and the trial programs
-- temp.c and client/udp.c, which nothing calls. SQLite is a parameter, and no theorem assumes how it
-- answers beyond the answer that the theorem names.
pub mod Base
pub mod Client
pub mod CString
pub mod Packet
pub mod Server
pub mod Sqlite
pub mod Handle
pub mod Link
pub mod Serve
pub mod Work
pub mod Tpool
pub mod MainLoop
pub mod Transfer
pub mod Udp
pub mod Tests
